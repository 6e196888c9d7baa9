-- ===== src/Domain/Log.antt =====
-- internal/domain/notification_log.go: the events of the audit trail and the constructor of a row.
-- Details are left out: no caller in the program fills them.
use mathlib.Core.List.{map-append, append_assoc}
use event_driven_notificatio.Base.{◌≡◌, List, [], ◌∷◌, ◌++◌, map}
use event_driven_notificatio.Base.{
  ℕ, Bool, true, false, not, Text, codes, text_eq, normalise, is_empty, if◌then◌else◌,
}
use event_driven_notificatio.Domain.Errors.{
  Result, ok, err, guard, ◌>>◌, invalid_log_event, invalid_log_id, invalid_notification_id,
  invalid_correlation_id,
}

pub data LogEvent : Type 0 where
  created queued processing delivered retrying failed cancelled : LogEvent
  other_event : Text → LogEvent

-- LogEvent(s).
unfoldable pub log_event_of : Text → LogEvent
unfolding text_eq
log_event_of t =
    if text_eq t (codes "created")
    then created
    else if text_eq t (codes "queued")
    then queued
    else if text_eq t (codes "processing")
    then processing
    else if text_eq t (codes "delivered")
    then delivered
    else if text_eq t (codes "retrying")
    then retrying
    else if text_eq t (codes "failed")
    then failed
    else if text_eq t (codes "cancelled")
    then cancelled
    else other_event t

-- LogEvent.String.
unfoldable pub log_event_text : LogEvent → Text
log_event_text created = codes "created"
log_event_text queued = codes "queued"
log_event_text processing = codes "processing"
log_event_text delivered = codes "delivered"
log_event_text retrying = codes "retrying"
log_event_text failed = codes "failed"
log_event_text cancelled = codes "cancelled"
log_event_text (other_event t) = t

-- LogEvent.IsValid.
abbrev pub is_valid_event : LogEvent → Bool
is_valid_event (other_event t) = false
is_valid_event _ = true

abbrev known_event : LogEvent → Result LogEvent
known_event (other_event t) = err invalid_log_event
known_event e = ok e

-- NewLogEvent.
unfoldable pub new_log_event : Text → Result LogEvent
unfolding log_event_of normalise
new_log_event s = known_event (log_event_of (normalise s))

pub record NotificationLog : Type 0 where
  pub id : Text
  pub notification_id : Text
  pub correlation_id : Text
  pub event : LogEvent
  pub created_at : ℕ

pub record NewNotificationLogInput : Type 0 where
  pub id : Text
  pub notification_id : Text
  pub correlation_id : Text
  pub event : LogEvent

abbrev pub entry_of : NewNotificationLogInput → ℕ → NotificationLog
entry_of input now = record {
  id = input.id;
  notification_id = input.notification_id;
  correlation_id = input.correlation_id;
  event = input.event;
  created_at = now;
}

-- NewNotificationLog.
unfoldable pub new_notification_log : NewNotificationLogInput → ℕ → Result NotificationLog
new_notification_log input now = do
  guard (not (is_empty input.id)) invalid_log_id
  guard (not (is_empty input.notification_id)) invalid_notification_id
  guard (not (is_empty input.correlation_id)) invalid_correlation_id
  guard (is_valid_event input.event) invalid_log_event
  ok (entry_of input now)

-- What the audit trail says, one pair for each of its rows.
abbrev pub trail : List NotificationLog → List (Text × LogEvent)
trail = map (λ (l : NotificationLog). (l.notification_id, l.event))

pub trail_two :
    (ls : List NotificationLog) (a b : NotificationLog)
    → trail ((ls ++ a ∷ []) ++ b ∷ [])
      ≡ trail ls ++ ((a.notification_id, a.event) ∷ (b.notification_id, b.event) ∷ [])
trail_two ls a b = simp (map-append, append_assoc)
