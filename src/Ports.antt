-- ===== src/Ports.antt =====
-- internal/ports/ports.go over the state that the adapters keep. An action takes the environment
-- and the state, and returns a value or an error with the state as it leaves it. The environment is
-- what the program does not implement: the clocks, the ids, the provider, the limiter's verdicts,
-- and for each call of an adapter whether it goes well, fails without effect, or fails after its
-- effect (a lost reply). Each is a function of the number of calls made so far, so one run can meet
-- any sequence of them.
pub mod Rows
pub mod Safe
pub mod Steady
pub mod Once
pub mod Calm
pub mod Returns
use mathlib.Core.Option
use event_driven_notificatio.Base.{
  ℕ, ◌+◌, Bool, true, false, List, [], ◌∷◌, ◌++◌, Option, none, some, Text, if◌then◌else◌, ◌==◌,
}
use event_driven_notificatio.Domain.Errors.{
  Error, Result, ok, err, not_found, already_claimed, concurrent_update, adapter_failure,
}
use event_driven_notificatio.Domain.Channel.{Channel, Priority}
use event_driven_notificatio.Domain.Status.{Status}
use event_driven_notificatio.Domain.Notification.{Notification}
use event_driven_notificatio.Domain.Log.{
  NotificationLog, NewNotificationLogInput, LogEvent, new_notification_log,
}
use event_driven_notificatio.Domain.Delivery.{DeliveryResult}
use event_driven_notificatio.Store.{Table, find_row, insert_row, claim_row, update_row}
use event_driven_notificatio.Queue.{
  QueueCall, enqueues, deletes, new_process_notification_task, scheduled_task, queue_names,
  task_id_for,
}

pub data Fault : Type 0 where
  fine lost unconfirmed : Fault

pub record Env : Type 0 where
  pub fault : ℕ → Fault
  pub time : ℕ → ℕ
  pub fresh : ℕ → Text
  pub allow : ℕ → Text → Bool
  pub send : ℕ → Channel → Text → Text → DeliveryResult
  pub rendered : ℕ → Text → Result Text

-- A call of application.MetricsRecorder; a duration is the pair of its ends.
pub data Metric : Type 0 where
  notification_created : Channel → Priority → Metric
  notification_delivered : Channel → Metric
  notification_failed : Channel → Text → Metric
  notification_attempt : Channel → Text → Metric
  observe_processing : Channel → ℕ → ℕ → Metric
  outbound_rate_limit_hit : Channel → Metric

-- A row of the batches table.
pub record BatchRow : Type 0 where
  pub id : Text
  pub correlation_id : Text
  pub created_at : ℕ

-- `metrics` is `none` where the use case was given no recorder.
pub record World : Type 0 where
  pub rows : Table
  pub batches : List BatchRow
  pub logs : List NotificationLog
  pub calls : List QueueCall
  pub published : List (Text × Status)
  pub sent : List (Channel × Text × Text)
  pub metrics : Option (List Metric)
  pub tick : ℕ

pub data Outcome {ℓ} (A : Type ℓ) : Type ℓ where
  returns : A → World → Outcome A
  raises : Error → World → Outcome A

abbrev pub final {ℓ} : {A : Type ℓ} → Outcome A → World
final (returns a w) = w
final (raises x w) = w

abbrev pub M {ℓ} : Type ℓ → Type ℓ
M A = Env → World → Outcome A

infixl 5 ◌>>=◌ ◌>>◌
abbrev pub ◌>>=◌ {ℓ κ} : {A : Type ℓ} {B : Type κ} → M A → (A → M B) → M B
◌>>=◌ m f e w = elim (m e w) [ returns a w' ↦ f a e w' | raises x w' ↦ raises x w' ]

abbrev pub ◌>>◌ {ℓ} : {B : Type ℓ} → M (Unit {0}) → M B → M B
m >> k = m >>= λ _. k

abbrev pub return {ℓ} : {A : Type ℓ} → A → M A
return a e w = returns a w

abbrev pub fail {ℓ} : {A : Type ℓ} → Error → M A
fail x e w = raises x w

abbrev pub lift {ℓ} : {A : Type ℓ} → Result A → M A
lift (ok a) = return a
lift (err x) = fail x

-- The result of a Mark method: the entity, or its error.
abbrev pub attempt : Notification × Option Error → M Notification
attempt (n, none) = return n
attempt (n, some x) = fail x

abbrev pub ticked : World → World
ticked w = record w { tick = w.tick + 1 }

-- A call of an adapter that would do `f`.
abbrev pub call {ℓ} : {A : Type ℓ} → (Env → World → Outcome A) → M A
call f e w = elim (e.fault w.tick) [
  | fine ↦ f e (ticked w)
  | lost ↦ raises adapter_failure (ticked w)
  | unconfirmed ↦ raises adapter_failure (final (f e (ticked w)))
]

-- Clock.Now.
abbrev pub now : M ℕ
now e w = returns (e.time w.tick) (ticked w)

-- IDGenerator.NewLogID and the others.
abbrev pub new_id : M Text
new_id e w = returns (e.fresh w.tick) (ticked w)

abbrev pub got : Option Notification → World → Outcome Notification
got none w = raises not_found w
got (some n) w = returns n w

-- NotificationRepository.Get.
unfoldable pub repo_get : Text → M Notification
repo_get id = call λ e w. got (find_row id w.rows) w

abbrev pub inserted : Option Table → World → Outcome (Unit {0})
inserted none w = raises adapter_failure w
inserted (some rows) w = returns tt (record w { rows = rows })

-- NotificationRepository.Create.
unfoldable pub repo_create : Notification → M (Unit {0})
repo_create n = call λ e w. inserted (insert_row n w.rows) w

abbrev pub won : Option Notification → World → Outcome Notification
won none w = raises already_claimed w
won (some n) w = returns n w

-- The UPDATE of ClaimForProcessing.
unfoldable pub repo_take : Text → ℕ → M Notification
repo_take id t =
    call λ e w. let (rows, result) = claim_row id t w.rows in won result (record w { rows = rows })

-- NotificationRepository.ClaimForProcessing: Get, then the UPDATE.
unfoldable pub repo_claim : Text → ℕ → M Notification
unfolding repo_get repo_take
repo_claim id t = do _ ← repo_get id; repo_take id t

abbrev pub stored : ℕ → World → Outcome (Unit {0})
stored count w = if count == 0 then raises concurrent_update w else returns tt w

-- NotificationRepository.UpdateStatus.
unfoldable pub repo_update : Notification → Status → M (Unit {0})
repo_update n expected = call λ e w.
    let (rows, count) = update_row n expected w.rows in stored count (record w { rows = rows })

-- NotificationLogRepository.Append.
unfoldable pub append_log : NotificationLog → M (Unit {0})
append_log entry = call λ e w. returns tt (record w { logs = w.logs ++ entry ∷ [] })

-- StatusBroadcaster.Publish.
unfoldable pub publish : Text → Status → M (Unit {0})
publish id status =
    call λ e w. returns tt (record w { published = w.published ++ (id, status) ∷ [] })

-- RateLimiter.Allow.
unfoldable pub allow : Text → M Bool
allow bucket = call λ e w. returns (e.allow w.tick bucket) w

-- Provider.Send, which reports failures in its result.
unfoldable pub send : Channel → Text → Text → M DeliveryResult
send channel recipient content e w =
    returns (e.send w.tick channel recipient content)
      (record (ticked w) { sent = w.sent ++ (channel, recipient, content) ∷ [] })

-- A call of the recorder, if there is one.
unfoldable pub emit : Metric → M (Unit {0})
emit m e w = returns tt (record w { metrics = Option.map (λ ms. ms ++ m ∷ []) w.metrics })

request : QueueCall → M (Unit {0})
request c = call λ e w. returns tt (record w { calls = w.calls ++ c ∷ [] })

-- Queue.Enqueue.
unfoldable pub enqueue : Text → Priority → Text → M (Unit {0})
unfolding request
enqueue id priority key = request (enqueues (new_process_notification_task id priority key))

-- Queue.EnqueueScheduled.
unfoldable pub enqueue_scheduled : Text → Priority → ℕ → M (Unit {0})
unfolding request
enqueue_scheduled id priority at = request (enqueues (scheduled_task id priority at))

-- The loop of Queue.Cancel; a task or queue that is not there is no failure.
delete_from : List Text → Text → M (Unit {0})
unfolding request
delete_from [] id = return tt
delete_from (name ∷ names) id = do request (deletes name id); delete_from names id

-- Queue.Cancel.
unfoldable pub queue_cancel : Text → M (Unit {0})
unfolding delete_from
queue_cancel id = delete_from queue_names (task_id_for id [])

-- The literal of NewNotificationLogInput that every use case writes.
abbrev pub entry_input : Text → Notification → LogEvent → NewNotificationLogInput
entry_input id n event = record {
  id = id;
  notification_id = n.id;
  correlation_id = n.correlation_id;
  event = event;
}

-- A log row with the time of the caller, as every use case but the worker's appends it.
unfoldable pub append_event : Notification → LogEvent → ℕ → M (Unit {0})
unfolding append_log
append_event n event t = do
  id ← new_id
  entry ← lift (new_notification_log (entry_input id n event) t)
  append_log entry

-- TemplateRepository.Get and Template.Render, of which the environment answers for both.
unfoldable pub render_template : Text → M Text
render_template id = call λ e w. lift (e.rendered w.tick id) e w

-- A scan of the notifications table.
unfoldable pub repo_find : (Table → Table) → M Table
repo_find query = call λ e w. returns (query w.rows) w
