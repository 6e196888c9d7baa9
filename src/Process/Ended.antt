-- ===== src/Process/Ended.antt =====
-- internal/application/process_notification.go: a task on a row that it may not claim, in any
-- environment of faults.
use event_driven_notificatio.Base.{ℕ, ◌≡◌, ◌≢◌, refl, ap, ◌∙◌, Option, none, some, Text}
use event_driven_notificatio.Domain.Errors.{Error, adapter_failure, already_claimed}
use event_driven_notificatio.Domain.Status.{queued, retrying}
use event_driven_notificatio.Domain.Notification.{Notification}
use event_driven_notificatio.Store.{Table, find_row, claim_row}
use event_driven_notificatio.Store.Claims.{IsKeyed, claim_row_refused, claimable_otherwise}
use event_driven_notificatio.Ports.{
  Env, World, Fault, fine, lost, unconfirmed, Outcome, returns, raises, final, ticked, got, won,
  repo_get, repo_take, repo_claim,
}
use event_driven_notificatio.Process.{execute, handle, claim_failed}

-- A claim that fails and leaves the table and the messages.
data Idle (w : World) : Outcome Notification → Type 0 where
  idle : (x : Error) (w' : World) → w'.rows ≡ w.rows → w'.sent ≡ w.sent → Idle w (raises x w')

take-Idle :
    (id : Text) (t : ℕ) (e : Env) (w v : World)
    → v.rows ≡ w.rows
    → v.sent ≡ w.sent
    → claim_row id t w.rows ≡ (w.rows, none)
    → Idle w (repo_take id t e v)
unfolding repo_take
take-Idle id t e w v rows sent h = go (e.fault v.tick) (claim_row id t v.rows) refused
  where
    refused : claim_row id t v.rows ≡ (w.rows, none)
    refused = rw rows h

    go :
        (x : Fault) (q : Table × Option Notification)
        → q ≡ (w.rows, none)
        → Idle w (elim x [
          | fine ↦ won q.1 (record (ticked v) { rows = q.0 })
          | lost ↦ raises adapter_failure (ticked v)
          | unconfirmed ↦
              raises adapter_failure (final (won q.1 (record (ticked v) { rows = q.0 })))
        ])
    go fine (table, none) same = idle _ _ (ap (λ (q : Table × Option Notification). q.0) same) sent
    go fine (table, some n) same = cc
    go lost q same = idle _ _ rows sent
    go unconfirmed (table, none) same =
        idle _ _ (ap (λ (q : Table × Option Notification). q.0) same) sent
    go unconfirmed (table, some n) same = cc

claim-Idle :
    (id : Text) (t : ℕ) (e : Env) (w v : World) (r : Notification)
    → v.rows ≡ w.rows
    → v.sent ≡ w.sent
    → find_row id w.rows ≡ some r
    → claim_row id t w.rows ≡ (w.rows, none)
    → Idle w (repo_claim id t e v)
unfolding repo_claim repo_get
claim-Idle id t e w v r rows sent found h = go (e.fault v.tick) (find_row id v.rows) (rw rows found)
  where
    go :
        (x : Fault) (o : Option Notification)
        → o ≡ some r
        → let first : Outcome Notification = elim x [
          | fine ↦ got o (ticked v)
          | lost ↦ raises adapter_failure (ticked v)
          | unconfirmed ↦ raises adapter_failure (final (got o (ticked v)))
        ] in
          Idle w (elim first [ returns a w' ↦ repo_take id t e w' | raises y w' ↦ raises y w' ])
    go fine none same = cc
    go fine (some n) same = take-Idle id t e w (ticked v) rows sent h
    go lost o same = idle _ _ rows sent
    go unconfirmed none same = cc
    go unconfirmed (some n) same = idle _ _ rows sent

failed_final : (x : Error) (w : World) → final (claim_failed x w) ≡ w
failed_final already_claimed w = refl
failed_final _ w = refl

-- A task whose row is in the table but neither queued nor retrying, whatever failures it meets, sends
-- nothing and leaves the table as it is.
pub execute_ended :
    (id : Text) (e : Env) (w : World) (r : Notification)
    → IsKeyed w.rows
    → find_row id w.rows ≡ some r
    → r.status ≢ queued
    → r.status ≢ retrying
    → ((final (execute id e w)).sent ≡ w.sent) × ((final (execute id e w)).rows ≡ w.rows)
unfolding execute
execute_ended id e w r k h p q =
    let t = e.time w.tick in
    go (repo_claim id t e (ticked w)) (
      claim-Idle id t e w (ticked w) r refl refl h
        (claim_row_refused id t w.rows r k h (claimable_otherwise r.status p q)))
  where
    go :
        (o : Outcome Notification)
        → Idle w o
        → let done : Outcome (Unit {0}) = elim o [
          | returns n w' ↦ handle n (e.time w.tick) e w'
          | raises x w' ↦ claim_failed x w'
        ] in
          ((final done).sent ≡ w.sent) × ((final done).rows ≡ w.rows)
    go _ (idle x w' rows sent) = (
      ap (λ (v : World). v.sent) (failed_final x w') ∙ sent,
      ap (λ (v : World). v.rows) (failed_final x w') ∙ rows,
    )
