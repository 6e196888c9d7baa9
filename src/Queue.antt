-- ===== src/Queue.antt =====
-- internal/adapters/asynq/{tasks,queue}.go: the tasks and options that the program hands to asynq.
-- asynq itself is not modelled: a call is what the client is asked for.
use event_driven_notificatio.Base.{
  ℕ, ◌*◌, List, [], ◌∷◌, ◌++◌, Option, none, some, Text, codes, is_empty, if◌then◌else◌,
}
use event_driven_notificatio.Domain.Channel.{Priority, priority_text}

-- An asynq.Task of type notification:process with its options.
pub record Task : Type 0 where
  pub notification_id : Text
  pub queue : Text
  pub max_retry : ℕ
  pub task_id : Text
  pub unique : Option ℕ
  pub process_at : Option ℕ

-- A call of the asynq client or of its inspector.
pub data QueueCall : Type 0 where
  enqueues : Task → QueueCall
  deletes : Text → Text → QueueCall

abbrev pub max_retry_attempts : ℕ
max_retry_attempts = 5

-- 24 hours in nanoseconds.
abbrev pub idempotency_window : ℕ
idempotency_window = 86400 * 1000000000

-- TaskIDFor.
unfoldable pub task_id_for : Text → Text → Text
task_id_for notification_id idempotency_key =
    if is_empty idempotency_key then codes "notif:" ++ notification_id else idempotency_key

-- NewProcessNotificationTask.
unfoldable pub new_process_notification_task : Text → Priority → Text → Task
unfolding task_id_for priority_text
new_process_notification_task notification_id priority idempotency_key = record {
  notification_id = notification_id;
  queue = priority_text priority;
  max_retry = max_retry_attempts;
  task_id = task_id_for notification_id idempotency_key;
  unique = if is_empty idempotency_key then none else some idempotency_window;
  process_at = none;
}

-- The task of EnqueueScheduled.
unfoldable pub scheduled_task : Text → Priority → ℕ → Task
unfolding new_process_notification_task
scheduled_task notification_id priority at =
    record (new_process_notification_task notification_id priority []) { process_at = some at }

-- queueNames.
abbrev pub queue_names : List Text
queue_names = codes "high" ∷ codes "normal" ∷ codes "low" ∷ []
