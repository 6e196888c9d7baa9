-- ===== src/Batching.antt =====
-- internal/application/create_batch.go, over Create of
-- internal/adapters/postgres/batch_repository.go.
pub mod Safety
pub mod Atomic
use event_driven_notificatio.Base.{
  ℕ, Bool, true, false, ◌||◌, List, [], ◌∷◌, ◌++◌, Option, none, some, Text, text_eq, if◌then◌else◌,
}
use event_driven_notificatio.Domain.Errors.{adapter_failure}
use event_driven_notificatio.Domain.Channel.{Channel, Priority, new_channel, new_priority}
use event_driven_notificatio.Domain.Status.{pending}
use event_driven_notificatio.Domain.Notification.{
  Notification, NewNotificationInput, new_notification, mark_queued,
}
use event_driven_notificatio.Domain.Batch.{Batch, new_batch}
use event_driven_notificatio.Domain.Log
use event_driven_notificatio.Store.{Table, insert_row}
use event_driven_notificatio.Ports.{
  M, ◌>>=◌, ◌>>◌, World, Outcome, BatchRow, returns, raises, return, lift, attempt, call, now,
  new_id, append_event, enqueue, repo_update, emit, notification_created,
}
use event_driven_notificatio.Create.{correlation_for}

-- CreateBatchItem.
pub record CreateBatchItem : Type 0 where
  pub channel : Text
  pub priority : Text
  pub recipient : Text
  pub content : Text
  pub idempotency_key : Text
  pub template_id : Option Text

pub record CreateBatchInput : Type 0 where
  pub correlation_id : Text
  pub notifications : List CreateBatchItem

-- The loop of INSERTs in the transaction.
unfoldable pub insert_all : List Notification → Table → Option Table
unfolding insert_row
insert_all [] rows = some rows
insert_all (n ∷ ns) rows = elim (insert_row n rows) [
  | none ↦ none
  | some rows' ↦ insert_all ns rows'
]

abbrev pub has_batch : Text → List BatchRow → Bool
has_batch id [] = false
has_batch id (b ∷ batches) = text_eq b.id id || has_batch id batches

abbrev pub batch_row : Batch → BatchRow
batch_row b = record { id = b.id; correlation_id = b.correlation_id; created_at = b.created_at }

-- The transaction: the rows that it commits, or none where a statement fails.
unfoldable pub batch_tables : Batch → World → Option Table
unfolding insert_all
batch_tables b w = if has_batch b.id w.batches then none else insert_all b.notifications w.rows

abbrev pub committed : Batch → Option Table → World → Outcome (Unit {0})
committed b none w = raises adapter_failure w
committed b (some rows) w =
    returns tt (record w { rows = rows; batches = w.batches ++ batch_row b ∷ [] })

-- BatchRepository.Create.
unfoldable pub repo_create_batch : Batch → M (Unit {0})
repo_create_batch b = call λ e w. committed b (batch_tables b w) w

-- The literal of buildNotifications.
abbrev pub item_input : CreateBatchItem → Channel → Priority → Text → Text → NewNotificationInput
item_input item channel priority correlation_id id = record {
  id = id;
  batch_id = none;
  idempotency_key = item.idempotency_key;
  correlation_id = correlation_id;
  channel = channel;
  priority = priority;
  recipient = item.recipient;
  content = item.content;
  scheduled_at = none;
  template_id = item.template_id;
}

-- One round of buildNotifications.
unfoldable pub build_notification : CreateBatchItem → Text → ℕ → M Notification
build_notification item correlation_id t = do
  channel ← lift (new_channel item.channel)
  priority ← lift (new_priority item.priority)
  id ← new_id
  lift (new_notification (item_input item channel priority correlation_id id) t)

-- buildNotifications.
unfoldable pub build_notifications : List CreateBatchItem → Text → ℕ → M (List Notification)
unfolding build_notification
build_notifications [] correlation_id t = return []
build_notifications (item ∷ items) correlation_id t = do
  n ← build_notification item correlation_id t
  ns ← build_notifications items correlation_id t
  return (n ∷ ns)

-- enqueueMember; the entity is that of the batch.
unfoldable pub enqueue_member : Notification → ℕ → M Notification
enqueue_member n t = do
  append_event n Log.created t
  enqueue n.id n.priority n.idempotency_key
  m ← attempt (mark_queued t n)
  repo_update m pending
  append_event m Log.queued t
  emit (notification_created m.channel m.priority)
  return m

-- The last loop of Execute.
unfoldable pub enqueue_members : List Notification → ℕ → M (List Notification)
unfolding enqueue_member
enqueue_members [] t = return []
enqueue_members (n ∷ ns) t = do m ← enqueue_member n t; ms ← enqueue_members ns t; return (m ∷ ms)

-- Execute, behind NewBatch.
unfoldable pub store_batch : Batch → ℕ → M Batch
unfolding repo_create_batch enqueue_members
store_batch b t = do
  repo_create_batch b
  ms ← enqueue_members b.notifications t
  return (record b { notifications = ms })

-- CreateBatch.Execute.
unfoldable pub create_batch : CreateBatchInput → M Batch
unfolding correlation_for build_notifications store_batch
create_batch input = do
  correlation_id ← correlation_for input.correlation_id
  t ← now
  ns ← build_notifications input.notifications correlation_id t
  id ← new_id
  b ← lift (new_batch (record { id = id; correlation_id = correlation_id; notifications = ns }) t)
  store_batch b t
