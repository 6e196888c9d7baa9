-- ===== src/Ports/Calm.antt =====
-- internal/ports/ports.go: the ports in an environment where no call of an adapter fails. The
-- clocks, the ids, the limiter and the provider are still arbitrary.
use event_driven_notificatio.Base.{ℕ, ◌+◌, ◌≡◌, ap, ◌∙◌, true, false, none, some, Text, is_empty}
use event_driven_notificatio.Domain.Errors.{Error, ok, already_claimed}
use event_driven_notificatio.Domain.Status.{Status}
use event_driven_notificatio.Domain.Notification.{Notification}
use event_driven_notificatio.Domain.Log.{LogEvent, is_valid_event, entry_of, new_notification_log}
use event_driven_notificatio.Store.{find_row, claimable, claimed, claim_row, update_row}
use event_driven_notificatio.Store.Claims.{IsKeyed, claim_result, find_row-claim_row_self}
use event_driven_notificatio.Ports.{
  M, ◌>>=◌, Env, World, fine, returns, raises, ticked, repo_get, repo_take, repo_claim, repo_update,
  entry_input,
}

abbrev pub calm : Env → Env
calm e = record e { fault = λ _. fine }

-- Ids that the generator makes, and the row's own, are not empty.
pub record IsLoggable (e : Env) (id correlation_id : Text) : Type 0 where
  pub fresh : (k : ℕ) → is_empty (e.fresh k) ≡ false
  pub id_given : is_empty id ≡ false
  pub correlation_given : is_empty correlation_id ≡ false

pub new_notification_log_ok :
    (e : Env) (n : Notification) (event : LogEvent) (k t : ℕ)
    → IsLoggable e n.id n.correlation_id
    → is_valid_event event ≡ true
    → new_notification_log (entry_input (e.fresh k) n event) t
      ≡ ok (entry_of (entry_input (e.fresh k) n event) t)
unfolding new_notification_log
new_notification_log_ok e n event k t v h = rw (v.fresh k, v.id_given, v.correlation_given, h)

-- An action that returns, followed by another.
pub step {ℓ κ} :
    {A : Type ℓ} {B : Type κ} (m : M A) (f : A → M B) (e : Env) (w : World) {a : A} {w' : World}
    → m e w ≡ returns a w'
    → (m >>= f) e w ≡ f a e w'
step m f e w h = ap (λ o. elim o [ returns a w' ↦ f a e w' | raises x w' ↦ raises x w' ]) h

pub step_raises {ℓ κ} :
    {A : Type ℓ} {B : Type κ} (m : M A) (f : A → M B) (e : Env) (w : World) {x : Error} {w' : World}
    → m e w ≡ raises x w'
    → (m >>= f) e w ≡ raises x w'
step_raises m f e w h = ap (λ o. elim o [ returns a w' ↦ f a e w' | raises x w' ↦ raises x w' ]) h

pub repo_get-calm :
    (id : Text) (e : Env) (w : World) (r : Notification)
    → find_row id w.rows ≡ some r
    → repo_get id (calm e) w ≡ returns r (ticked w)
unfolding repo_get
repo_get-calm id e w r h = rw h

repo_take-calm :
    (id : Text) (t : ℕ) (e : Env) (w : World) (r : Notification)
    → IsKeyed w.rows
    → find_row id w.rows ≡ some r
    → claimable r.status ≡ true
    → repo_take id t (calm e) w
      ≡ returns (claimed t r) (record w { rows = (claim_row id t w.rows).0; tick = w.tick + 1 })
unfolding repo_take
repo_take-calm id t e w r k h c =
    rw ((find_row-claim_row_self id t w.rows k).1 ∙ ap (claim_result t) h, c)

-- A claim of a row that is not claimable.
pub repo_claim-lost :
    (id : Text) (t : ℕ) (e : Env) (w : World) (r : Notification)
    → find_row id w.rows ≡ some r
    → claim_row id t w.rows ≡ (w.rows, none)
    → repo_claim id t (calm e) w ≡ raises already_claimed (record w { tick = w.tick + 1 + 1 })
unfolding repo_claim repo_take
repo_claim-lost id t e w r h c =
    step (repo_get id) (λ _. repo_take id t) (calm e) w (repo_get-calm id e w r h) ∙ rw c

pub repo_claim-calm :
    (id : Text) (t : ℕ) (e : Env) (w : World) (r : Notification)
    → IsKeyed w.rows
    → find_row id w.rows ≡ some r
    → claimable r.status ≡ true
    → repo_claim id t (calm e) w
      ≡ returns (claimed t r) (record w { rows = (claim_row id t w.rows).0; tick = w.tick + 1 + 1 })
unfolding repo_claim
repo_claim-calm id t e w r k h c =
    step (repo_get id) (λ _. repo_take id t) (calm e) w (repo_get-calm id e w r h)
    ∙ repo_take-calm id t e (ticked w) r k h c

pub repo_update-calm :
    (n : Notification) (expected : Status) (e : Env) (w : World)
    → (update_row n expected w.rows).1 ≡ 1
    → repo_update n expected (calm e) w
      ≡ returns tt (record w { rows = (update_row n expected w.rows).0; tick = w.tick + 1 })
unfolding repo_update
repo_update-calm n expected e w c = rw c
