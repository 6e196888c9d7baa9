-- ===== src/Process/Results.antt =====
-- internal/application/process_notification.go: the result of one task on a row that is queued or
-- retrying, in an environment where no adapter fails, for each verdict of the limiter and of the
-- provider.
use mathlib.Core.List.{append-nil}
use event_driven_notificatio.Base.{
  ℕ, ◌+◌, ◌≤◌, ◌<◌, ◌≡◌, refl, sym, ap, ◌∙◌, ◌⊎◌, true, false, [], ◌∷◌, ◌++◌, some, codes,
}
use event_driven_notificatio.Domain.Errors.{provider_transient, outbound_rate_limited}
use event_driven_notificatio.Domain.Channel.{channel_text}
use event_driven_notificatio.Domain.Status.{delivered, failed, retrying}
use event_driven_notificatio.Domain.Notification.{Notification}
use event_driven_notificatio.Domain.Log
use event_driven_notificatio.Domain.Log.{LogEvent, NotificationLog, entry_of}
use event_driven_notificatio.Domain.Delivery.{DeliveryResult}
use event_driven_notificatio.Store.{find_row, claimable}
use event_driven_notificatio.Store.Claims.{IsKeyed, claim_row_refused}
use event_driven_notificatio.Ports.{Env, World, Outcome, returns, raises, ticked}
use event_driven_notificatio.Ports.Calm.{calm, repo_claim-lost}
use event_driven_notificatio.Process.{handle, claim_failed, execute}
use event_driven_notificatio.Process.Settle.{
  as_delivered, as_failed, as_retrying, mark_delivered-calm, mark_failed-calm, mark_retrying-calm,
  reschedule_calm,
}
use event_driven_notificatio.Retry.{backoff_for, rate_limit_backoff, max_attempts}
use event_driven_notificatio.Domain.Log.{trail, trail_two}
use event_driven_notificatio.Process.Tasks.{
  IsSettled, settled, taken, asked, tried, IsReady, ready_asked, ready-IsHeld, ended, closed,
  ready_sent, settle_accepted, settle_gives_up, settle_again, exhausted, remaining, same_taken,
}

-- Where no adapter fails, a ready row that the limiter admits and the provider accepts ends
-- delivered, and the task with no error: one attempt more, no last error, one message sent, the two
-- steps in the audit trail and on the broadcast, and no other row touched.
pub execute_delivers :
    (e : Env) (r : Notification) (w : World) (result : DeliveryResult)
    → IsReady e w r
    → ((k : ℕ) → e.allow k (codes "channel:" ++ channel_text r.channel) ≡ true)
    → ((k : ℕ) → e.send k r.channel r.recipient r.content ≡ result)
    → result.success ≡ true
    → (w' : World) × (execute r.id (calm e) w ≡ returns tt w')
      × IsSettled r w w' delivered Log.delivered []
          ((r.channel, r.recipient, r.content) ∷ [])
          r.next_retry_at
execute_delivers e r w result v a h s =
    let n = taken e r w in
    let t = ended e r w in
    let w₁ = tried e r result w in
    (
      _,
      ready_sent e r w result v a h
          ∙ ap (λ f. closed e r w (f (calm e) w₁)) (settle_accepted n result t s)
          ∙ ap (closed e r w) (mark_delivered-calm n t e w₁ (ready-IsHeld e r w w₁ v refl)),
      settled r (as_delivered t n) w _ _ _ _ Log.delivered _ v.keyed v.found v.free
          (same_taken r _ _ _ _ _) refl refl refl (refl, refl, refl, refl) refl refl,
    )

-- Where no adapter fails, a ready row that the limiter admits and whose delivery fails for good, by
-- a permanent failure or at its fifth attempt or later, ends failed with the provider's reason, and
-- the task with no error; one message was sent, both steps are in the audit trail and on the
-- broadcast, and no other row is touched.
pub execute_fails :
    (e : Env) (r : Notification) (w : World) (result : DeliveryResult)
    → IsReady e w r
    → ((k : ℕ) → e.allow k (codes "channel:" ++ channel_text r.channel) ≡ true)
    → ((k : ℕ) → e.send k r.channel r.recipient r.content ≡ result)
    → result.success ≡ false
    → (result.retryable ≡ false) ⊎ (max_attempts ≤ r.attempts + 1)
    → (w' : World) × (execute r.id (calm e) w ≡ returns tt w')
      × IsSettled r w w' failed Log.failed result.reason
          ((r.channel, r.recipient, r.content) ∷ [])
          r.next_retry_at
execute_fails e r w result v a h s x =
    let n = taken e r w in
    let t = ended e r w in
    let w₁ = tried e r result w in
    (
      _,
      ready_sent e r w result v a h
          ∙ ap (λ f. closed e r w (f (calm e) w₁))
              (settle_gives_up n result t s (exhausted result.retryable (r.attempts + 1) x))
          ∙ ap (closed e r w) (mark_failed-calm n result t e w₁ (ready-IsHeld e r w w₁ v refl)),
      settled r (as_failed t result.reason n) w _ _ _ _ Log.failed _ v.keyed v.found v.free
          (same_taken r _ _ _ _ _) refl refl refl (refl, refl, refl, refl) refl refl,
    )

-- Where no adapter fails, a ready row that the limiter admits and whose delivery fails for now,
-- before its fifth attempt, ends retrying with the provider's reason, and the task with the error
-- for a transient failure; the row's next attempt is the backoff of this attempt after the time of
-- some call, both steps are in the audit trail and on the broadcast, and no other row is touched.
pub execute_retries :
    (e : Env) (r : Notification) (w : World) (result : DeliveryResult)
    → IsReady e w r
    → ((k : ℕ) → e.allow k (codes "channel:" ++ channel_text r.channel) ≡ true)
    → ((k : ℕ) → e.send k r.channel r.recipient r.content ≡ result)
    → result.success ≡ false
    → result.retryable ≡ true
    → r.attempts + 1 < max_attempts
    → (w' : World) × (k : ℕ) × (execute r.id (calm e) w ≡ raises provider_transient w')
      × IsSettled r w w' retrying Log.retrying result.reason
          ((r.channel, r.recipient, r.content) ∷ [])
          (some (e.time k + backoff_for (r.attempts + 1)))
execute_retries e r w result v a h s x l =
    let n = taken e r w in
    let t = ended e r w in
    let w₁ = tried e r result w in
    (
      _,
      _,
      ready_sent e r w result v a h
          ∙ ap (λ f. closed e r w (f (calm e) w₁))
              (settle_again n result t s (remaining result.retryable (r.attempts + 1) x l))
          ∙ ap (closed e r w) (mark_retrying-calm n result t e w₁ (ready-IsHeld e r w w₁ v refl)),
      settled r (as_retrying t result.reason (t + backoff_for (r.attempts + 1)) n) w _ _ _ _
          Log.retrying _ v.keyed v.found v.free (same_taken r _ _ _ _ _) refl refl refl
          (refl, refl, refl, refl) refl refl,
    )

-- Where no adapter fails, a ready row that the limiter refuses ends retrying, and the task with the
-- error for the limiter; nothing is sent, the row's next attempt is the limiter's backoff after the
-- time of some call, both steps are in the audit trail and on the broadcast, and no other row is
-- touched.
pub execute_rate_limited :
    (e : Env) (r : Notification) (w : World)
    → IsReady e w r
    → ((k : ℕ) → e.allow k (codes "channel:" ++ channel_text r.channel) ≡ false)
    → (w' : World) × (k : ℕ) × (execute r.id (calm e) w ≡ raises outbound_rate_limited w')
      × IsSettled r w w' retrying Log.retrying
          (codes "outbound rate limit exceeded")
          []
          (some (e.time k + rate_limit_backoff))
execute_rate_limited e r w v a =
    let n = taken e r w in
    let w₁ = asked e r w in
    let t = e.time w₁.tick in
    let reason = codes "outbound rate limit exceeded" in
    (
      _,
      _,
      ready_asked e r w false v (a _)
          ∙ reschedule_calm n e w₁ (ready-IsHeld e r w (ticked w₁) v refl),
      settled r (as_retrying t reason (t + rate_limit_backoff) n) w _ _ _ _ Log.retrying [] v.keyed
          v.found v.free (same_taken r _ _ _ _ _) refl refl refl (refl, refl, refl, refl) refl
          (sym (append-nil w.sent)),
    )

-- Where no adapter fails, a task whose row is in the table but neither queued nor retrying does
-- nothing: it ends with no error, and of the state only the number of calls has changed.
pub execute_skips :
    (e : Env) (r : Notification) (w : World)
    → IsKeyed w.rows
    → find_row r.id w.rows ≡ some r
    → claimable r.status ≡ false
    → (k : ℕ) × (execute r.id (calm e) w ≡ returns tt (record w { tick = k }))
unfolding execute
execute_skips e r w k h c =
    let lost = claim_row_refused r.id (e.time w.tick) w.rows r k h c in
    (
      _,
      ap
          (λ (o : Outcome Notification). elim o [
            | returns n w' ↦ handle n (e.time w.tick) (calm e) w'
            | raises x w' ↦ claim_failed x w'
          ])
          (repo_claim-lost r.id (e.time w.tick) e (ticked w) r h lost),
    )
