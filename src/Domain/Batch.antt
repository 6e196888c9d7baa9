-- ===== src/Domain/Batch.antt =====
-- internal/domain/batch.go: a batch, its constructor and the counts of its statuses. The
-- notifications that NewBatch links through their pointers are those of the batch returned.
pub mod Summary
use event_driven_notificatio.Base.{
  ℕ, suc, ◌||◌, not, Bool, true, List, [], ◌∷◌, map, Text, text_eq, length, ltb, is_empty, some,
}
use event_driven_notificatio.Domain.Errors.{
  Result, ok, guard, ◌>>◌, ◌>>=◌, invalid_batch_id, invalid_correlation_id, invalid_batch_size,
  batch_inconsistent_correlation,
}
use event_driven_notificatio.Domain.Status.{
  Status, pending, queued, processing, delivered, failed, retrying, cancelled, other_status,
}
use event_driven_notificatio.Domain.Notification.{Notification}

abbrev pub min_batch_size : ℕ
min_batch_size = 1

abbrev pub max_batch_size : ℕ
max_batch_size = 1000

pub record Batch : Type 0 where
  pub id : Text
  pub correlation_id : Text
  pub notifications : List Notification
  pub created_at : ℕ

pub record NewBatchInput : Type 0 where
  pub id : Text
  pub correlation_id : Text
  pub notifications : List Notification

-- The loop that compares correlation ids.
unfoldable pub check_correlation : Text → List Notification → Result (Unit {0})
check_correlation correlation_id [] = ok tt
check_correlation correlation_id (n ∷ rest) = do
  guard (text_eq n.correlation_id correlation_id) batch_inconsistent_correlation
  check_correlation correlation_id rest

-- The loop that sets each BatchID.
abbrev pub link : Text → List Notification → List Notification
link id = map λ (n : Notification). record n { batch_id = some id }

-- The struct literal that NewBatch returns.
abbrev pub linked_batch : NewBatchInput → ℕ → Batch
linked_batch input now = record {
  id = input.id;
  correlation_id = input.correlation_id;
  notifications = link input.id input.notifications;
  created_at = now;
}

-- NewBatch.
unfoldable pub new_batch : NewBatchInput → ℕ → Result Batch
unfolding check_correlation
new_batch input now = do
  guard (not (is_empty input.id)) invalid_batch_id
  guard (not (is_empty input.correlation_id)) invalid_correlation_id
  guard
      (not (
        ltb (length input.notifications) min_batch_size
        || ltb max_batch_size (length input.notifications)))
      invalid_batch_size
  check_correlation input.correlation_id input.notifications
  ok (linked_batch input now)

-- BatchStatusSummary.
pub record BatchStatusSummary : Type 0 where
  pub total : ℕ
  pub pending : ℕ
  pub queued : ℕ
  pub processing : ℕ
  pub delivered : ℕ
  pub failed : ℕ
  pub retrying : ℕ
  pub cancelled : ℕ

-- The switch of StatusSummary.
abbrev pub count_status : Status → BatchStatusSummary → BatchStatusSummary
count_status pending s = record s { pending = suc s.pending }
count_status queued s = record s { queued = suc s.queued }
count_status processing s = record s { processing = suc s.processing }
count_status delivered s = record s { delivered = suc s.delivered }
count_status failed s = record s { failed = suc s.failed }
count_status retrying s = record s { retrying = suc s.retrying }
count_status cancelled s = record s { cancelled = suc s.cancelled }
count_status (other_status t) s = s

-- Its loop.
unfoldable pub summary_loop : List Notification → BatchStatusSummary → BatchStatusSummary
summary_loop [] s = s
summary_loop (n ∷ rest) s = summary_loop rest (count_status n.status s)

-- The summary that the loop starts from.
abbrev pub uncounted : ℕ → BatchStatusSummary
uncounted total = record {
  total = total;
  pending = 0;
  queued = 0;
  processing = 0;
  delivered = 0;
  failed = 0;
  retrying = 0;
  cancelled = 0;
}

-- Batch.StatusSummary.
unfoldable pub status_summary : Batch → BatchStatusSummary
unfolding summary_loop
status_summary b = summary_loop b.notifications (uncounted (length b.notifications))
