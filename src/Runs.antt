-- ===== src/Runs.antt =====
-- internal/application: the use cases that write rows, run one after the other, each in an environment
-- of faults of its own.
use event_driven_notificatio.Base.{
  ℕ, ◌≤◌, ◌≡◌, ◌⊎◌, inl, inr, false, List, [], ◌∷◌, Option, none, some, Text, Bool-cases, arith,
}
use event_driven_notificatio.Domain.Status.{
  Status, pending, queued, processing, retrying, is_terminal,
}
use event_driven_notificatio.Domain.Status.Machine.{
  ◌⟶◌, ◌⟶*◌, here, next, enqueue, pick, pick_again, put_off, terminal-⟶*,
}
use event_driven_notificatio.Domain.Notification.{Notification}
use event_driven_notificatio.Domain.Notification.Marks.{SameIdentity}
use event_driven_notificatio.Store.{Table, find_row}
use event_driven_notificatio.Store.Claims.{IsKeyed}
use event_driven_notificatio.Ports.{Env, World, final}
use event_driven_notificatio.Ports.Rows.{RowMoves, Advances, Advances-refl, Advances-trans}
use event_driven_notificatio.Process.{execute}
use event_driven_notificatio.Process.Safety.{execute_safe}
use event_driven_notificatio.Create.{
  CreateNotificationInput, create_notification, schedule_notification,
}
use event_driven_notificatio.Create.Safety.{creation_safe}
use event_driven_notificatio.Cancel.{cancel_notification}
use event_driven_notificatio.Cancel.Stops.{cancel_notification_safe}
use event_driven_notificatio.Reconcile.{reconcile}
use event_driven_notificatio.Reconcile.Sweeps.{reconcile_safe}
use event_driven_notificatio.Batching.{CreateBatchInput, create_batch}
use event_driven_notificatio.Batching.Safety.{Safe-create_batch}

pub data UseCase : Type 0 where
  creates : CreateNotificationInput → UseCase
  schedules : CreateNotificationInput → ℕ → UseCase
  creates_batch : CreateBatchInput → UseCase
  cancels : Text → UseCase
  delivers : Text → UseCase
  reconciles : UseCase

-- Its Execute.
unfoldable pub run : UseCase → Env → World → World
run (creates input) e w = final (create_notification input e w)
run (schedules input at) e w = final (schedule_notification input at e w)
run (creates_batch input) e w = final (create_batch input e w)
run (cancels id) e w = final (cancel_notification id e w)
run (delivers id) e w = final (execute id e w)
run reconciles e w = final (reconcile e w)

unfoldable pub run_all : List (UseCase × Env) → World → World
unfolding run
run_all [] w = w
run_all ((c, e) ∷ calls) w = run_all calls (run c e w)

run-Advances : (c : UseCase) (e : Env) (w : World) → Advances w.rows (run c e w).rows
unfolding run
run-Advances (creates input) e w k = (creation_safe input 0 e w k).0
run-Advances (schedules input at) e w k = (creation_safe input at e w k).1
run-Advances (creates_batch input) e w k = (Safe-create_batch input).run e w k
run-Advances (cancels id) e w k = cancel_notification_safe id e w k
run-Advances (delivers id) e w k = execute_safe id e w k
run-Advances reconciles e w k = reconcile_safe e w k

run_all-Advances :
    (calls : List (UseCase × Env)) (w : World) → Advances w.rows (run_all calls w).rows
unfolding run_all
run_all-Advances [] w = Advances-refl w.rows
run_all-Advances ((c, e) ∷ calls) w =
    Advances-trans w.rows (run c e w).rows (run_all calls (run c e w)).rows (run-Advances c e w)
      (run_all-Advances calls (run c e w))

-- How far a status is on its way: accepted, handed to the queue, taken by a worker, ended.
abbrev pub phase : Status → ℕ
phase pending = 0
phase queued = 1
phase processing = 2
phase retrying = 2
phase _ = 3

-- A row that was there is still there, with what identifies it; its status is no earlier on its way,
-- and the same as before if that had ended.
abbrev pub RowLasts : Option Notification → Option Notification → Type 0
RowLasts none o = Unit
RowLasts (some r) none = ⊥
RowLasts (some r) (some s) =
    (phase r.status ≤ phase s.status)
    × ((is_terminal r.status ≡ false) ⊎ (s.status ≡ r.status))
    × SameIdentity s r

pub record Lasts (rows rows' : Table) : Type 0 where
  pub keyed : IsKeyed rows'
  pub row : (j : Text) → RowLasts (find_row j rows) (find_row j rows')

phase-⟶ : {s t : Status} → s ⟶ t → phase s ≤ phase t
phase-⟶ enqueue = omega arith
phase-⟶ pick = omega arith
phase-⟶ pick_again = omega arith
phase-⟶ put_off = omega arith
phase-⟶ _ = omega arith

phase-⟶* : {s t : Status} → s ⟶* t → phase s ≤ phase t
phase-⟶* here = omega arith
phase-⟶* (next p e) = omega (arith, phase-⟶* p, phase-⟶ e)

ended_stays : (s t : Status) → s ⟶* t → (is_terminal s ≡ false) ⊎ (t ≡ s)
ended_stays s t p = elim (Bool-cases (is_terminal s)) [
  | inl e ↦ inr (terminal-⟶* e p)
  | inr e ↦ inl e
]

moves_last : (o o' : Option Notification) → RowMoves o o' → RowLasts o o'
moves_last none o' m = tt
moves_last (some r) none m = m
moves_last (some r) (some s) m = (phase-⟶* m.0, ended_stays r.status s.status m.0, m.1)

-- Any sequence of creations, schedulings, creations of batches, cancellations, deliveries and runs of
-- the reconciler, each with any calls failing before or after their effect, keeps the ids of the table
-- distinct and loses no row; each row keeps what identifies it, its status never goes back to an earlier
-- phase (pending, then queued, then processing or retrying, then an end), and an end is never left.
pub run_all_safe :
    (calls : List (UseCase × Env)) (w : World)
    → IsKeyed w.rows
    → Lasts w.rows (run_all calls w).rows
run_all_safe calls w k =
    let moves = run_all-Advances calls w k in
    record {
      keyed = moves.keyed;
      row = λ j. moves_last (find_row j w.rows) (find_row j (run_all calls w).rows) (moves.row j);
    }
