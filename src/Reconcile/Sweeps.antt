-- ===== src/Reconcile/Sweeps.antt =====
-- internal/application/reconcile_stuck_notifications.go: what a run of the reconciler does to the table.
use event_driven_notificatio.Base.{ℕ, suc, [], ◌∷◌, Option, none, some, codes}
use event_driven_notificatio.Domain.Errors.{Error}
use event_driven_notificatio.Domain.Status.{pending, processing}
use event_driven_notificatio.Domain.Status.Machine.{give_up}
use event_driven_notificatio.Domain.Status.Machine
use event_driven_notificatio.Domain.Notification.{Notification, Mark, apply, target}
use event_driven_notificatio.Domain.Log
use event_driven_notificatio.Store.{Table}
use event_driven_notificatio.Store.Claims.{IsKeyed}
use event_driven_notificatio.Ports.{
  Env, World, Outcome, returns, raises, final, M, ◌>>◌, now, repo_find, append_event, enqueue,
}
use event_driven_notificatio.Ports.Rows.{Advances, Advances-trans, Moves}
use event_driven_notificatio.Ports.Safe.{
  Safe, Safe-bind, Safe-return, Safe-now, Safe-marked, Safe-append_event, Safe-enqueue,
  Safe-repo_find,
}
use event_driven_notificatio.Reconcile.{
  Output, output, handle_orphaned_pending, handle_stuck_processing, handle_overdue_retrying,
  handle_stuck_queued, caught, proceed, handle_each, sweep, sweep_orphaned_pending,
  sweep_stuck_processing, sweep_overdue_retrying, sweep_stuck_queued, next_sweep, reconcile,
}

Safe-handle_orphaned_pending : (t : ℕ) (n : Notification) → Safe (handle_orphaned_pending t n)
unfolding handle_orphaned_pending apply target
Safe-handle_orphaned_pending t n =
    Safe-marked Mark.queue t n pending
      (λ m. append_event m Log.queued t >> enqueue m.id m.priority m.idempotency_key)
      (λ h. Machine.enqueue)
      (λ m.
        Safe-bind (append_event m Log.queued t) _ (Safe-append_event m Log.queued t)
          (λ _. Safe-enqueue m.id m.priority m.idempotency_key))

Safe-handle_stuck_processing : (t : ℕ) (n : Notification) → Safe (handle_stuck_processing t n)
unfolding handle_stuck_processing apply target
Safe-handle_stuck_processing t n =
    Safe-marked (Mark.fail (codes "worker_timeout")) t n processing
      (λ m. append_event m Log.failed t) (λ h. give_up) (λ m. Safe-append_event m Log.failed t)

Safe-caught : (m : M (Unit {0})) → Safe m → Safe (caught m)
Safe-caught m p = record { run = λ e w. go w (m e w) (p.run e w) }
  where
    go :
        (w : World) (o : Outcome (Unit {0}))
        → Advances w.rows (final o).rows
        → Advances w.rows
            (final {A = Option Error}
              (elim o [ returns a w' ↦ returns none w' | raises x w' ↦ returns (some x) w' ])).rows
    go w (returns a w') h = h
    go w (raises x w') h = h

Safe-proceed :
    (x : Option Error) (count : ℕ) (rest : M (ℕ × Option Error))
    → Safe rest
    → Safe (proceed x count rest)
Safe-proceed none count rest p = p
Safe-proceed (some x) count rest p = Safe-return (count, some x)

Safe-handle_each :
    (f : Notification → M (Unit {0})) (rows : Table) (count : ℕ)
    → ((n : Notification) → Safe (f n))
    → Safe (handle_each f rows count)
unfolding handle_each
Safe-handle_each f [] count p = Safe-return (count, none)
Safe-handle_each f (n ∷ rows) count p =
    Safe-bind (caught (f n)) (λ x. proceed x count (handle_each f rows (suc count)))
      (Safe-caught (f n) (p n))
      (λ x. Safe-proceed x count _ (Safe-handle_each f rows (suc count) p))

Safe-sweep :
    (query : Table → Table) (f : Notification → M (Unit {0}))
    → ((n : Notification) → Safe (f n))
    → Safe (sweep query f)
unfolding sweep
Safe-sweep query f p = record {
  run = λ e w. go e w (repo_find query e w) ((Safe-repo_find query).run e w);
}
  where
    go :
        (e : Env) (w : World) (o : Outcome Table)
        → Advances w.rows (final o).rows
        → Advances w.rows
            (final {A = ℕ × Option Error} (elim o [
              | returns rows w' ↦ handle_each f rows 0 e w'
              | raises x w' ↦ returns (0, some x) w'
            ])).rows
    go e w (returns rows w') h =
        Advances-trans w.rows w'.rows _ h ((Safe-handle_each f rows 0 p).run e w')
    go e w (raises x w') h = h

Safe-next_sweep :
    (out : Output) (x : Option Error) (rest : M (Output × Option Error))
    → Safe rest
    → Safe (next_sweep out x rest)
Safe-next_sweep out none rest p = p
Safe-next_sweep out (some x) rest p = Safe-return (out, some x)

Safe-sweep_orphaned_pending : (t : ℕ) → Safe (sweep_orphaned_pending t)
unfolding sweep_orphaned_pending
Safe-sweep_orphaned_pending t =
    Safe-sweep _ (handle_orphaned_pending t) (Safe-handle_orphaned_pending t)

Safe-sweep_stuck_processing : (t : ℕ) → Safe (sweep_stuck_processing t)
unfolding sweep_stuck_processing
Safe-sweep_stuck_processing t =
    Safe-sweep _ (handle_stuck_processing t) (Safe-handle_stuck_processing t)

Safe-sweep_overdue_retrying : (t : ℕ) → Safe (sweep_overdue_retrying t)
unfolding sweep_overdue_retrying handle_overdue_retrying
Safe-sweep_overdue_retrying t =
    Safe-sweep _ handle_overdue_retrying (λ n. Safe-enqueue n.id n.priority n.idempotency_key)

Safe-sweep_stuck_queued : (t : ℕ) → Safe (sweep_stuck_queued t)
unfolding sweep_stuck_queued handle_stuck_queued
Safe-sweep_stuck_queued t =
    Safe-sweep _ handle_stuck_queued (λ n. Safe-enqueue n.id n.priority n.idempotency_key)

Safe-reconcile : Safe reconcile
unfolding reconcile
Safe-reconcile = Safe-bind now _ Safe-now λ t.
    Safe-bind (sweep_orphaned_pending t) _ (Safe-sweep_orphaned_pending t) λ a.
      Safe-next_sweep (output a.0 0 0 0) a.1 _ (
        Safe-bind (sweep_stuck_processing t) _ (Safe-sweep_stuck_processing t) λ b.
          Safe-next_sweep (output a.0 b.0 0 0) b.1 _ (
            Safe-bind (sweep_overdue_retrying t) _ (Safe-sweep_overdue_retrying t) λ c.
              Safe-next_sweep (output a.0 b.0 c.0 0) c.1 _ (
                Safe-bind (sweep_stuck_queued t) _ (Safe-sweep_stuck_queued t)
                  λ d. Safe-return (output a.0 b.0 c.0 d.0, d.1))))

-- One run of the reconciler, from any table with distinct ids and with any sequence of failures,
-- keeps the ids distinct, loses no row, moves each row's status only to one that the arrows
-- reach, and leaves what identifies each row.
pub reconcile_safe :
    (e : Env) (w : World) → IsKeyed w.rows → Moves w.rows (final (reconcile e w)).rows
reconcile_safe e w = Safe-reconcile.run e w
