-- ===== src/Domain/Notification.antt =====
-- internal/domain/notification.go: the entity, its constructor and its Mark methods. Times are
-- nanoseconds on the clock that the caller passes in; a method returns the entity as it leaves it,
-- with the error.
pub mod Marks
pub mod Creation
use event_driven_notificatio.Base.{
  ℕ, ◌+◌, Bool, true, false, not, Option, none, some, Text, [], codes, if◌then◌else◌, is_empty,
}
use event_driven_notificatio.Domain.Errors.{
  Error, Result, ok, err, guard, ◌>>◌, ◌>>=◌, invalid_notification_id, invalid_correlation_id,
  invalid_channel, invalid_priority, invalid_transition,
}
use event_driven_notificatio.Domain.Channel.{Channel, Priority, is_valid_channel, is_valid_priority}
use event_driven_notificatio.Domain.Recipient.{validate_recipient, validate_content}
use event_driven_notificatio.Domain.Status.{
  Status, pending, queued, processing, delivered, failed, retrying, cancelled, can_transition_to,
}

pub record Notification : Type 0 where
  pub id : Text
  pub batch_id : Option Text
  pub idempotency_key : Text
  pub correlation_id : Text
  pub channel : Channel
  pub priority : Priority
  pub recipient : Text
  pub content : Text
  pub status : Status
  pub attempts : ℕ
  pub last_error : Text
  pub next_retry_at : Option ℕ
  pub scheduled_at : Option ℕ
  pub template_id : Option Text
  pub created_at : ℕ
  pub updated_at : ℕ

pub record NewNotificationInput : Type 0 where
  pub id : Text
  pub batch_id : Option Text
  pub idempotency_key : Text
  pub correlation_id : Text
  pub channel : Channel
  pub priority : Priority
  pub recipient : Text
  pub content : Text
  pub scheduled_at : Option ℕ
  pub template_id : Option Text

-- The struct literal that NewNotification returns.
abbrev pub initial : NewNotificationInput → ℕ → Notification
initial input now = record {
  id = input.id;
  batch_id = input.batch_id;
  idempotency_key = input.idempotency_key;
  correlation_id = input.correlation_id;
  channel = input.channel;
  priority = input.priority;
  recipient = input.recipient;
  content = input.content;
  status = pending;
  attempts = 0;
  last_error = [];
  next_retry_at = none;
  scheduled_at = input.scheduled_at;
  template_id = input.template_id;
  created_at = now;
  updated_at = now;
}

-- NewNotification.
unfoldable pub new_notification : NewNotificationInput → ℕ → Result Notification
new_notification input now = do
  guard (not (is_empty input.id)) invalid_notification_id
  guard (not (is_empty input.correlation_id)) invalid_correlation_id
  guard (is_valid_channel input.channel) invalid_channel
  guard (is_valid_priority input.priority) invalid_priority
  validate_recipient input.channel input.recipient
  validate_content input.channel input.content
  ok (initial input now)

-- transition.
unfoldable pub transition :
    Status → ℕ → (Notification → Notification) → Notification → Notification × Option Error
transition target now side_effect n =
    if can_transition_to n.status target
    then (side_effect (record n { status = target; updated_at = now }), none)
    else (n, some invalid_transition)

unfoldable pub mark_queued : ℕ → Notification → Notification × Option Error
unfolding transition
mark_queued now n = transition queued now (λ m. m) n

unfoldable pub mark_processing : ℕ → Notification → Notification × Option Error
unfolding transition
mark_processing now n = transition processing now (λ m. record m { attempts = m.attempts + 1 }) n

unfoldable pub mark_delivered : ℕ → Notification → Notification × Option Error
unfolding transition
mark_delivered now n = transition delivered now (λ m. record m { last_error = [] }) n

unfoldable pub mark_failed : ℕ → Text → Notification → Notification × Option Error
unfolding transition
mark_failed now reason n = transition failed now (λ m. record m { last_error = reason }) n

unfoldable pub mark_retrying : ℕ → Text → ℕ → Notification → Notification × Option Error
unfolding transition
mark_retrying now reason next_retry_at n =
    transition retrying now
      (λ m. record m { last_error = reason; next_retry_at = some next_retry_at }) n

unfoldable pub cancel : ℕ → Notification → Notification × Option Error
unfolding transition
cancel now n = transition cancelled now (λ m. m) n

-- A call of one of the methods.
pub data Mark : Type 0 where
  queue process deliver withdraw : Mark
  fail : Text → Mark
  retry : Text → ℕ → Mark

unfoldable pub target : Mark → Status
target queue = queued
target process = processing
target deliver = delivered
target withdraw = cancelled
target (fail reason) = failed
target (retry reason at) = retrying

unfoldable pub apply : Mark → ℕ → Notification → Notification × Option Error
unfolding mark_queued mark_processing mark_delivered mark_failed mark_retrying cancel
apply queue now n = mark_queued now n
apply process now n = mark_processing now n
apply deliver now n = mark_delivered now n
apply withdraw now n = cancel now n
apply (fail reason) now n = mark_failed now reason n
apply (retry reason at) now n = mark_retrying now reason at n
