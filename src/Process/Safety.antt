-- ===== src/Process/Safety.antt =====
-- internal/application/process_notification.go: what one task may do to the table, whatever fails.
use event_driven_notificatio.Base.{
  ℕ, ◌+◌, ◌≡◌, refl, Bool, true, false, Text, codes, ◌++◌, if◌then◌else◌, leb, not, ◌||◌,
}
use event_driven_notificatio.Domain.Errors.{
  Error, already_claimed, provider_transient, outbound_rate_limited,
}
use event_driven_notificatio.Domain.Channel.{channel_text}
use event_driven_notificatio.Domain.Status.{processing}
use event_driven_notificatio.Domain.Status.Machine.{deliver, give_up, put_off}
use event_driven_notificatio.Domain.Notification.{Notification, Mark, apply, target}
use event_driven_notificatio.Domain.Log
use event_driven_notificatio.Domain.Log.{LogEvent, new_notification_log, NotificationLog}
use event_driven_notificatio.Domain.Delivery.{DeliveryResult}
use event_driven_notificatio.Store.Claims.{IsKeyed}
use event_driven_notificatio.Ports.{
  Env, World, Outcome, returns, raises, final, M, ◌>>◌, fail, lift, entry_input, now, new_id,
  repo_claim, append_log, allow, send, emit, notification_delivered, notification_failed,
  notification_attempt, observe_processing, outbound_rate_limit_hit,
}
use event_driven_notificatio.Ports.Rows.{Advances, Advances-trans, Moves}
use event_driven_notificatio.Ports.Safe.{
  Safe, Safe-bind, Safe-fail, Safe-now, Safe-new_id, Safe-lift, Safe-repo_claim, Safe-append_log,
  Safe-publish, Safe-allow, Safe-send, Safe-emit, Safe-marked,
}
use event_driven_notificatio.Process.{
  record_event, mark_delivered, mark_failed, mark_retrying, reschedule_for_rate_limit, finally,
  settle, apply_result, handle, on_claim, claim_failed, execute, failure_label, attempt_outcome,
}
use event_driven_notificatio.Process
use event_driven_notificatio.Retry.{backoff_for, rate_limit_backoff, max_attempts}

pub Safe-record_event : (n : Notification) (event : LogEvent) → Safe (record_event n event)
unfolding record_event
Safe-record_event n event = Safe-bind new_id _ Safe-new_id λ id. Safe-bind now _ Safe-now λ t.
    Safe-bind (lift (new_notification_log (entry_input id n event) t)) _ (Safe-lift _) λ entry.
      Safe-bind (append_log entry) _ (Safe-append_log entry) λ _. Safe-publish n.id n.status

Safe-mark_delivered : (n : Notification) (t : ℕ) → Safe (mark_delivered n t)
unfolding mark_delivered apply target
Safe-mark_delivered n t =
    Safe-marked Mark.deliver t n processing
      (λ m. emit (notification_delivered m.channel) >> record_event m Log.delivered) (λ h. deliver)
      (λ m.
        Safe-bind (emit (notification_delivered m.channel)) (λ _. record_event m Log.delivered)
          (Safe-emit _) (λ _. Safe-record_event m Log.delivered))

Safe-mark_failed :
    (n : Notification) (result : DeliveryResult) (t : ℕ) → Safe (mark_failed n result t)
unfolding mark_failed apply target
Safe-mark_failed n result t =
    Safe-marked (Mark.fail result.reason) t n processing
      (λ m.
        emit (notification_failed m.channel (failure_label result.reason))
        >> record_event m Log.failed)
      (λ h. give_up) (λ m. Safe-bind (emit _) _ (Safe-emit _) (λ _. Safe-record_event m Log.failed))

Safe-mark_retrying :
    (n : Notification) (result : DeliveryResult) (t : ℕ) → Safe (mark_retrying n result t)
unfolding mark_retrying apply target
Safe-mark_retrying n result t =
    Safe-marked (Mark.retry result.reason (t + backoff_for n.attempts)) t n processing
      (λ m. record_event m Log.retrying >> fail provider_transient) (λ h. put_off)
      (λ m.
        Safe-bind (record_event m Log.retrying) _ (Safe-record_event m Log.retrying)
          (λ _. Safe-fail (Unit {0}) provider_transient))

Safe-reschedule_for_rate_limit : (n : Notification) → Safe (reschedule_for_rate_limit n)
unfolding reschedule_for_rate_limit apply target
Safe-reschedule_for_rate_limit n = Safe-bind now _ Safe-now λ t.
    Safe-marked (Mark.retry (codes "outbound rate limit exceeded") (t + rate_limit_backoff)) t n
      processing
      (λ m.
        emit (outbound_rate_limit_hit m.channel)
        >> (record_event m Log.retrying >> fail outbound_rate_limited))
      (λ h. put_off)
      (λ m. Safe-bind (emit _) _ (Safe-emit _) λ _.
        Safe-bind (record_event m Log.retrying) _ (Safe-record_event m Log.retrying)
          λ _. Safe-fail (Unit {0}) outbound_rate_limited)

Safe-finally : (m k : M (Unit {0})) → Safe m → Safe k → Safe (finally m k)
Safe-finally m k p q = record { run = λ e w. go e w (m e w) (p.run e w) }
  where
    go :
        (e : Env) (w : World) (o : Outcome (Unit {0}))
        → Advances w.rows (final o).rows
        → Advances w.rows
            (final (elim o [
              | returns a w' ↦ returns a (final (k e w'))
              | raises x w' ↦ raises x (final (k e w'))
            ])).rows
    go e w (returns a w') h = Advances-trans w.rows w'.rows _ h (q.run e w')
    go e w (raises x w') h = Advances-trans w.rows w'.rows _ h (q.run e w')

Safe-if {ℓ} : {A : Type ℓ} (b : Bool) (m k : M A) → Safe m → Safe k → Safe (if b then m else k)
Safe-if true m k p q = p
Safe-if false m k p q = q

Safe-settle : (n : Notification) (result : DeliveryResult) (t : ℕ) → Safe (settle n result t)
unfolding settle
Safe-settle n result t = Safe-if result.success _ _ (Safe-mark_delivered n t) (
    Safe-if (not result.retryable || leb max_attempts n.attempts) _ _ (Safe-mark_failed n result t)
      (Safe-mark_retrying n result t))

Safe-apply_result :
    (n : Notification) (result : DeliveryResult) (start : ℕ) → Safe (apply_result n result start)
unfolding apply_result
Safe-apply_result n result start = Safe-bind now _ Safe-now λ t.
    Safe-finally (settle n result t) (emit (observe_processing n.channel start t))
      (Safe-settle n result t) (Safe-emit _)

Safe-deliver : (n : Notification) (start : ℕ) → Safe (Process.deliver n start)
unfolding Process.deliver
Safe-deliver n start =
    Safe-bind (send n.channel n.recipient n.content) _ (Safe-send _ _ _) λ result.
      Safe-bind (emit (notification_attempt n.channel (attempt_outcome result))) _ (Safe-emit _)
        λ _. Safe-apply_result n result start

Safe-handle : (n : Notification) (start : ℕ) → Safe (handle n start)
unfolding handle
Safe-handle n start =
    Safe-bind (record_event n Log.processing) _ (Safe-record_event n Log.processing) λ _.
      Safe-bind (allow (codes "channel:" ++ channel_text n.channel)) _ (Safe-allow _)
        λ allowed. Safe-if allowed _ _ (Safe-deliver n start) (Safe-reschedule_for_rate_limit n)

claim_failed_rows : (x : Error) (w : World) → (final (claim_failed x w)).rows ≡ w.rows
claim_failed_rows already_claimed w = refl
claim_failed_rows _ w = refl

Safe-on_claim :
    (m : M Notification) (f : Notification → M (Unit {0}))
    → Safe m
    → ((n : Notification) → Safe (f n))
    → Safe (on_claim m f)
Safe-on_claim m f p q = record { run = λ e w. go e w (m e w) (p.run e w) }
  where
    go :
        (e : Env) (w : World) (o : Outcome Notification)
        → Advances w.rows (final o).rows
        → Advances w.rows
            (final (elim o [ returns n w' ↦ f n e w' | raises x w' ↦ claim_failed x w' ])).rows
    go e w (returns n w') h = Advances-trans w.rows w'.rows _ h ((q n).run e w')
    go e w (raises x w') h = rw (claim_failed_rows x w') h

Safe-execute : (id : Text) → Safe (execute id)
unfolding execute
Safe-execute id = Safe-bind now _ Safe-now λ start.
    Safe-on_claim (repo_claim id start) (λ n. handle n start) (Safe-repo_claim id start)
      (λ n. Safe-handle n start)

-- One task of the worker, from any table with distinct ids and with any sequence of failures of
-- the database, the log, the limiter and the broadcaster, keeps the ids distinct, loses no row,
-- moves each row's status only to one that the arrows reach, and leaves what identifies each row.
pub execute_safe :
    (id : Text) (e : Env) (w : World) → IsKeyed w.rows → Moves w.rows (final (execute id e w)).rows
execute_safe id e w = (Safe-execute id).run e w
