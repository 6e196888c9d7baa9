-- ===== src/Create.antt =====
-- internal/application/{create,schedule}_notification.go: the use cases behind POST of a notification.
pub mod Answers
pub mod Created
pub mod Safety
use event_driven_notificatio.Base.{
  ℕ, Bool, true, false, not, Option, none, some, Text, is_empty, ltb, if◌then◌else◌,
}
use event_driven_notificatio.Domain.Errors.{scheduled_in_past}
use event_driven_notificatio.Domain.Channel.{Channel, Priority, new_channel, new_priority}
use event_driven_notificatio.Domain.Status.{pending}
use event_driven_notificatio.Domain.Notification
use event_driven_notificatio.Domain.Notification.{
  Notification, NewNotificationInput, new_notification, mark_queued,
}
use event_driven_notificatio.Domain.Log
use event_driven_notificatio.Ports.{
  M, ◌>>=◌, ◌>>◌, return, fail, lift, attempt, now, new_id, repo_create, repo_update, append_event,
  render_template, enqueue, enqueue_scheduled, emit, notification_created,
}

-- CreateNotificationInput; the variables of the template are the environment's.
pub record CreateNotificationInput : Type 0 where
  pub channel : Text
  pub priority : Text
  pub recipient : Text
  pub content : Text
  pub idempotency_key : Text
  pub correlation_id : Text
  pub scheduled_at : Option ℕ
  pub template_id : Option Text

-- The correlation id given, or a new one.
unfoldable pub correlation_for : Text → M Text
correlation_for given = if is_empty given then new_id else return given

-- The content given, or what the template renders to.
unfoldable pub content_for : Option Text → Text → M Text
content_for none content = return content
content_for (some id) content = if not (is_empty id) then render_template id else return content

-- The literal that Execute hands to NewNotification.
abbrev pub entity_input :
    CreateNotificationInput → Channel → Priority → Text → Text → Text → NewNotificationInput
entity_input input channel priority correlation_id content id = record {
  id = id;
  batch_id = none;
  idempotency_key = input.idempotency_key;
  correlation_id = correlation_id;
  channel = channel;
  priority = priority;
  recipient = input.recipient;
  content = content;
  scheduled_at = input.scheduled_at;
  template_id = input.template_id;
}

-- CreateNotification.enqueue, by the notification's ScheduledAt.
unfoldable pub enqueue_at : Option ℕ → Notification → M (Unit {0})
enqueue_at none n = enqueue n.id n.priority n.idempotency_key
enqueue_at (some at) n = enqueue_scheduled n.id n.priority at

-- Execute, behind the construction of the entity; markQueued changes the entity that is returned.
unfoldable pub store_created : Notification → ℕ → M Notification
unfolding enqueue_at
store_created n t = do
  repo_create n
  append_event n Log.created t
  enqueue_at n.scheduled_at n
  m ← attempt (mark_queued t n)
  repo_update m pending
  append_event m Log.queued t
  emit (notification_created m.channel m.priority)
  return m

-- CreateNotification.Execute.
unfoldable pub create_notification : CreateNotificationInput → M Notification
unfolding correlation_for content_for
create_notification input = do
  channel ← lift (new_channel input.channel)
  priority ← lift (new_priority input.priority)
  correlation_id ← correlation_for input.correlation_id
  t ← now
  content ← content_for input.template_id input.content
  id ← new_id
  n ← lift (new_notification (entity_input input channel priority correlation_id content id) t)
  store_created n t

-- ScheduleNotification.Execute, whose time is `at` and not the input's.
unfoldable pub schedule_notification : CreateNotificationInput → ℕ → M Notification
schedule_notification input at = do
  t ← now
  (if not (ltb t at)
      then fail scheduled_in_past
      else create_notification (record input { scheduled_at = some at }))
