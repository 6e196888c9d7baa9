-- ===== src/Cancel.antt =====
-- internal/application/cancel_notification.go: the use case behind the DELETE of a notification.
pub mod Stops
use event_driven_notificatio.Base.{Text}
use event_driven_notificatio.Domain.Notification
use event_driven_notificatio.Domain.Notification.{Notification}
use event_driven_notificatio.Domain.Log
use event_driven_notificatio.Ports.{
  M, ◌>>=◌, ◌>>◌, return, attempt, now, repo_get, repo_update, append_event, queue_cancel,
}

-- CancelNotification.Execute.
unfoldable pub cancel_notification : Text → M Notification
cancel_notification id = do
  n ← repo_get id
  t ← now
  m ← attempt (Notification.cancel t n)
  repo_update m n.status
  append_event m Log.cancelled t
  queue_cancel m.id
  return m
