-- ===== src/Reconcile.antt =====
-- internal/application/reconcile_stuck_notifications.go: the four sweeps. The output is returned
-- next to the error, so an error is a value here. `t - threshold` stops at 0, and no time is below 0
-- in either case.
pub mod Sweeps
use event_driven_notificatio.Base.{ℕ, suc, ◌+◌, ◌-◌, ◌*◌, List, [], ◌∷◌, Option, none, some, codes}
use event_driven_notificatio.Domain.Errors.{Error}
use event_driven_notificatio.Domain.Status.{pending, processing}
use event_driven_notificatio.Domain.Notification
use event_driven_notificatio.Domain.Notification.{Notification}
use event_driven_notificatio.Domain.Log
use event_driven_notificatio.Store.{
  Table, find_orphaned_pending, find_stuck_processing, find_overdue_retrying, find_stuck_queued,
}
use event_driven_notificatio.Ports.{
  M, ◌>>=◌, ◌>>◌, returns, raises, return, attempt, now, repo_update, repo_find, append_event,
  enqueue,
}
use event_driven_notificatio.Retry.{second}

abbrev pub orphaned_pending_threshold : ℕ
orphaned_pending_threshold = 5 * (60 * second)

abbrev pub stuck_processing_threshold : ℕ
stuck_processing_threshold = 5 * (60 * second)

abbrev pub overdue_retrying_threshold : ℕ
overdue_retrying_threshold = 10 * (60 * second)

abbrev pub stuck_queued_threshold : ℕ
stuck_queued_threshold = 5 * (60 * second)

abbrev pub reconciler_batch_size : ℕ
reconciler_batch_size = 100

-- ReconcileStuckNotificationsOutput.
pub record Output : Type 0 where
  pub orphaned_pending_reenqueued : ℕ
  pub stuck_processing_failed : ℕ
  pub overdue_retrying_reenqueued : ℕ
  pub stuck_queued_reenqueued : ℕ

-- handleOrphanedPending.
unfoldable pub handle_orphaned_pending : ℕ → Notification → M (Unit {0})
handle_orphaned_pending t n = do
  m ← attempt (Notification.mark_queued t n)
  repo_update m pending
  append_event m Log.queued t
  enqueue m.id m.priority m.idempotency_key

-- handleStuckProcessing.
unfoldable pub handle_stuck_processing : ℕ → Notification → M (Unit {0})
handle_stuck_processing t n = do
  m ← attempt (Notification.mark_failed t (codes "worker_timeout") n)
  repo_update m processing
  append_event m Log.failed t

-- handleOverdueRetrying.
unfoldable pub handle_overdue_retrying : Notification → M (Unit {0})
handle_overdue_retrying n = enqueue n.id n.priority n.idempotency_key

-- handleStuckQueued.
unfoldable pub handle_stuck_queued : Notification → M (Unit {0})
handle_stuck_queued n = enqueue n.id n.priority n.idempotency_key

-- A call whose error is looked at.
abbrev pub caught : M (Unit {0}) → M (Option Error)
caught m e w = elim (m e w) [ returns a w' ↦ returns none w' | raises x w' ↦ returns (some x) w' ]

abbrev pub proceed : Option Error → ℕ → M (ℕ × Option Error) → M (ℕ × Option Error)
proceed none count rest = rest
proceed (some x) count rest = return (count, some x)

-- The loop of a sweep: it counts the rows handled and stops at the first error.
unfoldable pub handle_each : (Notification → M (Unit {0})) → Table → ℕ → M (ℕ × Option Error)
handle_each f [] count = return (count, none)
handle_each f (n ∷ rows) count = do
  x ← caught (f n)
  proceed x count (handle_each f rows (suc count))

abbrev pub on_found : M Table → (Table → M (ℕ × Option Error)) → M (ℕ × Option Error)
on_found m f e w = elim (m e w) [
  | returns rows w' ↦ f rows e w'
  | raises x w' ↦ returns (0, some x) w'
]

-- A sweep.
unfoldable pub sweep : (Table → Table) → (Notification → M (Unit {0})) → M (ℕ × Option Error)
unfolding handle_each
sweep query f = on_found (repo_find query) (λ rows. handle_each f rows 0)

unfoldable pub sweep_orphaned_pending : ℕ → M (ℕ × Option Error)
unfolding sweep
sweep_orphaned_pending t =
    sweep (find_orphaned_pending (t - orphaned_pending_threshold) reconciler_batch_size)
      (handle_orphaned_pending t)

unfoldable pub sweep_stuck_processing : ℕ → M (ℕ × Option Error)
unfolding sweep
sweep_stuck_processing t =
    sweep (find_stuck_processing (t - stuck_processing_threshold) reconciler_batch_size)
      (handle_stuck_processing t)

unfoldable pub sweep_overdue_retrying : ℕ → M (ℕ × Option Error)
unfolding sweep
sweep_overdue_retrying t =
    sweep (find_overdue_retrying (t - overdue_retrying_threshold) reconciler_batch_size)
      handle_overdue_retrying

unfoldable pub sweep_stuck_queued : ℕ → M (ℕ × Option Error)
unfolding sweep
sweep_stuck_queued t =
    sweep (find_stuck_queued (t - stuck_queued_threshold) reconciler_batch_size) handle_stuck_queued

-- `if err != nil { return out, err }` after a sweep.
abbrev pub next_sweep :
    Output → Option Error → M (Output × Option Error) → M (Output × Option Error)
next_sweep out none rest = rest
next_sweep out (some x) rest = return (out, some x)

abbrev pub output : ℕ → ℕ → ℕ → ℕ → Output
output a b c d = record {
  orphaned_pending_reenqueued = a;
  stuck_processing_failed = b;
  overdue_retrying_reenqueued = c;
  stuck_queued_reenqueued = d;
}

-- Execute.
unfoldable pub reconcile : M (Output × Option Error)
reconcile = do
  t ← now
  orphaned ← sweep_orphaned_pending t
  next_sweep (output orphaned.0 0 0 0) orphaned.1 do
    stuck ← sweep_stuck_processing t
    next_sweep (output orphaned.0 stuck.0 0 0) stuck.1 do
      overdue ← sweep_overdue_retrying t
      next_sweep (output orphaned.0 stuck.0 overdue.0 0) overdue.1 do
        stranded ← sweep_stuck_queued t
        return (output orphaned.0 stuck.0 overdue.0 stranded.0, stranded.1)
