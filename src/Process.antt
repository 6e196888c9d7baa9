-- ===== src/Process.antt =====
-- internal/application/process_notification.go: what the worker does with one task. The context, its
-- correlation id, the spans and the log lines are left out.
pub mod Settle
pub mod Tasks
pub mod Results
pub mod Safety
pub mod Moves
pub mod Ended
use event_driven_notificatio.Base.{
  ℕ, ◌+◌, Bool, true, false, ◌||◌, not, [], ◌++◌, Text, codes, is_empty, leb, if◌then◌else◌,
}
use event_driven_notificatio.Domain.Errors.{
  Error, already_claimed, provider_transient, outbound_rate_limited,
}
use event_driven_notificatio.Domain.Channel.{Channel, channel_text}
use event_driven_notificatio.Domain.Status.{Status, processing}
use event_driven_notificatio.Domain.Notification
use event_driven_notificatio.Domain.Notification.{Notification}
use event_driven_notificatio.Domain.Log.{LogEvent, new_notification_log}
use event_driven_notificatio.Domain.Log
use event_driven_notificatio.Domain.Delivery.{DeliveryResult}
use event_driven_notificatio.Ports.{
  World, Outcome, returns, raises, final, M, ◌>>=◌, ◌>>◌, return, fail, lift, attempt, entry_input,
  now, new_id, repo_claim, repo_update, append_log, publish, allow, send, emit,
  notification_delivered, notification_failed, notification_attempt, observe_processing,
  outbound_rate_limit_hit,
}
use event_driven_notificatio.Retry.{max_attempts, rate_limit_backoff, backoff_for}

-- recordEvent.
unfoldable pub record_event : Notification → LogEvent → M (Unit {0})
record_event n event = do
  id ← new_id
  t ← now
  entry ← lift (new_notification_log (entry_input id n event) t)
  append_log entry
  publish n.id n.status

-- attemptOutcome.
unfoldable pub attempt_outcome : DeliveryResult → Text
attempt_outcome result =
    if result.success
    then codes "success"
    else if result.retryable
    then codes "transient"
    else codes "permanent"

-- markDelivered.
unfoldable pub mark_delivered : Notification → ℕ → M (Unit {0})
mark_delivered n t = do
  m ← attempt (Notification.mark_delivered t n)
  repo_update m processing
  emit (notification_delivered m.channel)
  record_event m Log.delivered

abbrev failure_label : Text → Text
failure_label reason = if is_empty reason then codes "unspecified" else reason

-- markFailed.
unfoldable pub mark_failed : Notification → DeliveryResult → ℕ → M (Unit {0})
mark_failed n result t = do
  m ← attempt (Notification.mark_failed t result.reason n)
  repo_update m processing
  emit (notification_failed m.channel (failure_label result.reason))
  record_event m Log.failed

-- markRetrying.
unfoldable pub mark_retrying : Notification → DeliveryResult → ℕ → M (Unit {0})
mark_retrying n result t = do
  m ← attempt (Notification.mark_retrying t result.reason (t + backoff_for n.attempts) n)
  repo_update m processing
  record_event m Log.retrying
  fail provider_transient

-- rescheduleForRateLimit.
unfoldable pub reschedule_for_rate_limit : Notification → M (Unit {0})
reschedule_for_rate_limit n = do
  t ← now
  m ← attempt (
      Notification.mark_retrying t (codes "outbound rate limit exceeded") (t + rate_limit_backoff)
        n)
  repo_update m processing
  emit (outbound_rate_limit_hit m.channel)
  record_event m Log.retrying
  fail outbound_rate_limited

-- A deferred call, made on every return.
abbrev pub finally : M (Unit {0}) → M (Unit {0}) → M (Unit {0})
finally m k e w = elim (m e w) [
  | returns a w' ↦ returns a (final (k e w'))
  | raises x w' ↦ raises x (final (k e w'))
]

-- The switch of applyResult.
unfoldable pub settle : Notification → DeliveryResult → ℕ → M (Unit {0})
settle n result t =
    if result.success
    then mark_delivered n t
    else if not result.retryable || leb max_attempts n.attempts
    then mark_failed n result t
    else mark_retrying n result t

-- applyResult.
unfoldable pub apply_result : Notification → DeliveryResult → ℕ → M (Unit {0})
apply_result n result start = do
  t ← now
  finally (settle n result t) (emit (observe_processing n.channel start t))

-- Execute, behind the rate limiter.
unfoldable pub deliver : Notification → ℕ → M (Unit {0})
deliver n start = do
  result ← send n.channel n.recipient n.content
  emit (notification_attempt n.channel (attempt_outcome result))
  apply_result n result start

-- Execute, behind the claim.
unfoldable pub handle : Notification → ℕ → M (Unit {0})
handle n start = do
  record_event n Log.processing
  allowed ← allow (codes "channel:" ++ channel_text n.channel)
  if allowed then deliver n start else reschedule_for_rate_limit n

-- ErrAlreadyClaimed ends the task with no error.
abbrev pub claim_failed : Error → World → Outcome (Unit {0})
claim_failed already_claimed w = returns tt w
claim_failed x w = raises x w

abbrev pub on_claim : M Notification → (Notification → M (Unit {0})) → M (Unit {0})
on_claim m f e w = elim (m e w) [ returns n w' ↦ f n e w' | raises x w' ↦ claim_failed x w' ]

-- ProcessNotification.Execute.
unfoldable pub execute : Text → M (Unit {0})
execute id = do start ← now; on_claim (repo_claim id start) (λ n. handle n start)
