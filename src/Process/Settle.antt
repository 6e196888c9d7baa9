-- ===== src/Process/Settle.antt =====
-- internal/application/process_notification.go: what one task achieves where no adapter fails.
use mathlib.Core.Option
use event_driven_notificatio.Base.{
  ℕ, ◌+◌, ◌≡◌, refl, ap, ◌∙◌, true, [], ◌∷◌, ◌++◌, Option, none, some, Text, codes,
}
use event_driven_notificatio.Domain.Errors.{Error, provider_transient, outbound_rate_limited}
use event_driven_notificatio.Domain.Status.{
  processing, delivered, failed, retrying, can_transition_to, status_eq,
}
use event_driven_notificatio.Domain.Notification
use event_driven_notificatio.Domain.Notification.{Notification}
use event_driven_notificatio.Domain.Log
use event_driven_notificatio.Domain.Log.{
  LogEvent, NotificationLog, entry_of, is_valid_event, new_notification_log,
}
use event_driven_notificatio.Domain.Delivery.{DeliveryResult}
use event_driven_notificatio.Store.{find_row, update_row}
use event_driven_notificatio.Store.Claims.{IsKeyed, affected, find_row-update_row_self}
use event_driven_notificatio.Ports.{
  Env, World, returns, raises, ticked, M, ◌>>=◌, ◌>>◌, fail, attempt, repo_update, append_log,
  publish, emit, entry_input, Metric, notification_delivered, notification_failed,
  outbound_rate_limit_hit,
}
use event_driven_notificatio.Ports.Calm.{
  calm, step, IsLoggable, new_notification_log_ok, repo_update-calm,
}
use event_driven_notificatio.Process.{
  record_event, mark_delivered, mark_failed, mark_retrying, reschedule_for_rate_limit,
  failure_label,
}
use event_driven_notificatio.Retry.{backoff_for, rate_limit_backoff}

-- The state after recordEvent.
abbrev pub recorded : Env → Notification → LogEvent → World → World
recorded e n event w = record w {
  logs = w.logs ++ entry_of (entry_input (e.fresh w.tick) n event) (e.time (w.tick + 1)) ∷ [];
  published = w.published ++ (n.id, n.status) ∷ [];
  tick = w.tick + 1 + 1 + 1 + 1;
}

pub record_event-calm :
    (n : Notification) (event : LogEvent) (e : Env) (w : World)
    → IsLoggable e n.id n.correlation_id
    → is_valid_event event ≡ true
    → record_event n event (calm e) w ≡ returns tt (recorded e n event w)
unfolding record_event append_log publish
record_event-calm n event e w v h =
    rw (new_notification_log_ok e n event w.tick (e.time (w.tick + 1)) v h)

-- The state after UpdateStatus from processing.
abbrev pub updated : Env → Notification → World → World
updated e m w = record w { rows = (update_row m processing w.rows).0; tick = w.tick + 1 }

update_processing :
    (m c : Notification) (e : Env) (w : World)
    → IsKeyed w.rows
    → find_row m.id w.rows ≡ some c
    → c.status ≡ processing
    → repo_update m processing (calm e) w ≡ returns tt (updated e m w)
unfolding status_eq
update_processing m c e w k h p =
    repo_update-calm m processing e w
      ((find_row-update_row_self m processing w.rows k).1 ∙ ap (affected processing) h ∙ rw p)

-- The state after a call of the recorder.
abbrev pub emitted : Metric → World → World
emitted m w = record w { metrics = Option.map (λ ms. ms ++ m ∷ []) w.metrics }

-- A row that a worker holds.
pub record IsHeld (e : Env) (w : World) (n : Notification) : Type 0 where
  pub keyed : IsKeyed w.rows
  pub found : find_row n.id w.rows ≡ some n
  pub held : n.status ≡ processing
  pub loggable : IsLoggable e n.id n.correlation_id

-- A marked entity, stored.
marked_calm :
    (q : Notification × Option Error) (m n : Notification) (k : Notification → M (Unit {0}))
    (e : Env) (w : World)
    → q ≡ (m, none)
    → m.id ≡ n.id
    → IsHeld e w n
    → (attempt q >>= λ m'. repo_update m' processing >> k m') (calm e) w
      ≡ k m (calm e) (updated e m w)
marked_calm q m n k e w h same v =
    ap
      (λ (p : Notification × Option Error).
        (attempt p >>= λ m'. repo_update m' processing >> k m') (calm e) w)
      h
    ∙ step (repo_update m processing) (λ _. k m) (calm e) w
        (update_processing m n e w v.keyed (rw same v.found) v.held)

abbrev pub as_delivered : ℕ → Notification → Notification
as_delivered t n = record n { status = delivered; updated_at = t; last_error = [] }

abbrev pub as_failed : ℕ → Text → Notification → Notification
as_failed t reason n = record n { status = failed; updated_at = t; last_error = reason }

abbrev pub as_retrying : ℕ → Text → ℕ → Notification → Notification
as_retrying t reason at n = record n {
  status = retrying;
  updated_at = t;
  last_error = reason;
  next_retry_at = some at;
}

delivered_ok :
    (t : ℕ) (n : Notification)
    → n.status ≡ processing
    → Notification.mark_delivered t n ≡ (as_delivered t n, none)
unfolding Notification.mark_delivered can_transition_to
delivered_ok t n h = rw h

failed_ok :
    (t : ℕ) (reason : Text) (n : Notification)
    → n.status ≡ processing
    → Notification.mark_failed t reason n ≡ (as_failed t reason n, none)
unfolding Notification.mark_failed can_transition_to
failed_ok t reason n h = rw h

retrying_ok :
    (t : ℕ) (reason : Text) (at : ℕ) (n : Notification)
    → n.status ≡ processing
    → Notification.mark_retrying t reason at n ≡ (as_retrying t reason at n, none)
unfolding Notification.mark_retrying can_transition_to
retrying_ok t reason at n h = rw h

pub mark_delivered-calm :
    (n : Notification) (t : ℕ) (e : Env) (w : World)
    → IsHeld e w n
    → let m = as_delivered t n in
      mark_delivered n t (calm e) w
      ≡ returns tt
          (recorded e m Log.delivered (emitted (notification_delivered n.channel) (updated e m w)))
unfolding mark_delivered emit
mark_delivered-calm n t e w v =
    let m = as_delivered t n in
    marked_calm (Notification.mark_delivered t n) m n
      (λ m'. emit (notification_delivered m'.channel) >> record_event m' Log.delivered) e w
      (delivered_ok t n v.held) refl v
    ∙ record_event-calm m Log.delivered e
        (emitted (notification_delivered n.channel) (updated e m w)) v.loggable refl

pub mark_failed-calm :
    (n : Notification) (result : DeliveryResult) (t : ℕ) (e : Env) (w : World)
    → IsHeld e w n
    → let m = as_failed t result.reason n in
      let x = notification_failed n.channel (failure_label result.reason) in
      mark_failed n result t (calm e) w
      ≡ returns tt (recorded e m Log.failed (emitted x (updated e m w)))
unfolding mark_failed emit
mark_failed-calm n result t e w v =
    let m = as_failed t result.reason n in
    let x = notification_failed n.channel (failure_label result.reason) in
    marked_calm (Notification.mark_failed t result.reason n) m n
      (λ m'.
        emit (notification_failed m'.channel (failure_label result.reason))
        >> record_event m' Log.failed)
      e w (failed_ok t result.reason n v.held) refl v
    ∙ record_event-calm m Log.failed e (emitted x (updated e m w)) v.loggable refl

pub mark_retrying-calm :
    (n : Notification) (result : DeliveryResult) (t : ℕ) (e : Env) (w : World)
    → IsHeld e w n
    → let m = as_retrying t result.reason (t + backoff_for n.attempts) n in
      mark_retrying n result t (calm e) w
      ≡ raises provider_transient (recorded e m Log.retrying (updated e m w))
unfolding mark_retrying
mark_retrying-calm n result t e w v =
    let at = t + backoff_for n.attempts in
    let m = as_retrying t result.reason at n in
    marked_calm (Notification.mark_retrying t result.reason at n) m n
      (λ m'. record_event m' Log.retrying >> fail provider_transient) e w
      (retrying_ok t result.reason at n v.held) refl v
    ∙ step (record_event m Log.retrying) (λ _. fail {A = Unit {0}} provider_transient) (calm e)
        (updated e m w) (record_event-calm m Log.retrying e (updated e m w) v.loggable refl)

pub reschedule_calm :
    (n : Notification) (e : Env) (w : World)
    → IsHeld e (ticked w) n
    → let t = e.time w.tick in
      let m = as_retrying t (codes "outbound rate limit exceeded") (t + rate_limit_backoff) n in
      reschedule_for_rate_limit n (calm e) w
      ≡ raises outbound_rate_limited (
          recorded e m Log.retrying
            (emitted (outbound_rate_limit_hit n.channel) (updated e m (ticked w))))
unfolding reschedule_for_rate_limit emit
reschedule_calm n e w v =
    let t = e.time w.tick in
    let reason = codes "outbound rate limit exceeded" in
    let at = t + rate_limit_backoff in
    let m = as_retrying t reason at n in
    let w' = emitted (outbound_rate_limit_hit n.channel) (updated e m (ticked w)) in
    marked_calm (Notification.mark_retrying t reason at n) m n
      (λ m'.
        emit (outbound_rate_limit_hit m'.channel)
        >> (record_event m' Log.retrying >> fail outbound_rate_limited))
      e (ticked w) (retrying_ok t reason at n v.held) refl v
    ∙ step (record_event m Log.retrying) (λ _. fail {A = Unit {0}} outbound_rate_limited) (calm e)
        w' (record_event-calm m Log.retrying e w' v.loggable refl)
