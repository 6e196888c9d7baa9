-- ===== src/Cancel/Stops.antt =====
-- internal/application/cancel_notification.go: a cancellation and the task that may come after it.
use event_driven_notificatio.Base.{
  ℕ, ◌≡◌, refl, sym, ap, subst, ◌∙◌, true, false, Option, none, some, Text, inl, inr,
}
use event_driven_notificatio.Domain.Errors.{Error}
use event_driven_notificatio.Store.{Table, find_row, claimable, update_row, written}
use event_driven_notificatio.Domain.Notification
use event_driven_notificatio.Ports.{◌>>=◌, attempt}
use event_driven_notificatio.Process.{execute}
use event_driven_notificatio.Process.Ended.{execute_ended}
use event_driven_notificatio.Domain.Notification.{Notification}
use event_driven_notificatio.Ports.{M, Outcome, returns, repo_update}
use event_driven_notificatio.Ports.Rows.{RowMoves}
use event_driven_notificatio.Ports.Returns.{bind_returns, call_returns, got_returns, update_returns}
use event_driven_notificatio.Base.{◌⊎◌}
use event_driven_notificatio.Domain.Errors.{invalid_transition}
use event_driven_notificatio.Domain.Notification.Marks.{Marked, apply_lem}
use event_driven_notificatio.Domain.Status.{is_terminal, can_transition_to}
use event_driven_notificatio.Domain.Status.Machine.{terminal-⟶*, status_eq_refl}
use event_driven_notificatio.Store.Claims.{
  update_row-IsKeyed, find_row-update_row_self, find_row_id, after_update,
}
use event_driven_notificatio.Domain.Status.{cancelled}
use event_driven_notificatio.Domain.Status.Machine.{can_transition_to_iff}
use event_driven_notificatio.Domain.Notification.{Mark, apply, target}
use event_driven_notificatio.Domain.Log
use event_driven_notificatio.Store.Claims.{IsKeyed}
use event_driven_notificatio.Ports.{
  Env, World, Outcome, returns, final, ticked, got, ◌>>◌, return, now, repo_get, append_event,
  queue_cancel,
}
use event_driven_notificatio.Ports.Rows.{Moves}
use event_driven_notificatio.Ports.Safe.{
  Safe, Safe-bind, Safe-return, Safe-now, Safe-repo_get, Safe-marked, Safe-append_event,
  Safe-queue_cancel,
}
use event_driven_notificatio.Cancel.{cancel_notification}

refused : claimable cancelled ≡ false
unfolding claimable
refused = refl

cancelled_ends : is_terminal cancelled ≡ true
unfolding is_terminal
cancelled_ends = refl

Safe-cancel_notification : (id : Text) → Safe (cancel_notification id)
unfolding cancel_notification apply target
Safe-cancel_notification id = Safe-bind (repo_get id) _ (Safe-repo_get id) λ n.
    Safe-bind now _ Safe-now λ t.
      Safe-marked Mark.withdraw t n n.status
        (λ m. append_event m Log.cancelled t >> (queue_cancel m.id >> return m))
        (λ h. (can_transition_to_iff n.status cancelled).0 h)
        (λ m.
          Safe-bind (append_event m Log.cancelled t) _ (Safe-append_event m Log.cancelled t)
            λ _. Safe-bind (queue_cancel m.id) _ (Safe-queue_cancel m.id) λ _. Safe-return m)

-- One cancellation, from any table with distinct ids and with any sequence of failures, keeps the
-- ids distinct, loses no row, moves each row's status only to one that the arrows reach, and
-- leaves what identifies each row.
pub cancel_notification_safe :
    (id : Text) (e : Env) (w : World)
    → IsKeyed w.rows
    → Moves w.rows (final (cancel_notification id e w)).rows
cancel_notification_safe id e w = (Safe-cancel_notification id).run e w

-- A cancelled row stays cancelled in any later table.
ended_stays :
    (id : Text) (rows rows' : Table) (r : Notification)
    → find_row id rows ≡ some r
    → r.status ≡ cancelled
    → Moves rows rows'
    → (r' : Notification) × (find_row id rows' ≡ some r') × (r'.status ≡ cancelled)
ended_stays id rows rows' r h c v =
    go (find_row id rows') refl (subst (λ o. RowMoves o (find_row id rows')) h (v.row id))
  where
    go :
        (o : Option Notification)
        → find_row id rows' ≡ o
        → RowMoves (some r) o
        → (r' : Notification) × (find_row id rows' ≡ some r') × (r'.status ≡ cancelled)
    go none same p = absurd p
    go (some r') same p = (r', same, terminal-⟶* (rw c cancelled_ends) p.0 ∙ c)

-- The marked entity, where Cancel was legal.
cancelled_mark :
    (t : ℕ) (n m : Notification)
    → Notification.cancel t n ≡ (m, none)
    → (m.status ≡ cancelled) × (m.id ≡ n.id)
unfolding apply target
cancelled_mark t n m h = go (apply_lem Mark.withdraw t n)
  where
    go :
        ((can_transition_to n.status cancelled ≡ true)
            × ((Notification.cancel t n).1 ≡ none)
            × Marked Mark.withdraw t n (Notification.cancel t n).0)
          ⊎ ((can_transition_to n.status cancelled ≡ false)
              × (Notification.cancel t n ≡ (n, some invalid_transition)))
        → (m.status ≡ cancelled) × (m.id ≡ n.id)
    go (inl (_edge, _done, marked)) =
        let same = ap (λ (q : Notification × Option Error). q.0) h in
        (
          ap (λ (x : Notification). x.status) (sym same) ∙ marked.status,
          ap (λ (x : Notification). x.id) (sym same) ∙ marked.same.id,
        )
    go (inr (_edge, same)) = cc (sym same ∙ h)

-- The table after the guarded update of a cancellation.
cancelled_row :
    (id : Text) (n m : Notification) (rows : Table)
    → IsKeyed rows
    → find_row id rows ≡ some n
    → m.id ≡ n.id
    → find_row id (update_row m n.status rows).0 ≡ some (written m n)
cancelled_row id n m rows k h i =
    let same = i ∙ find_row_id id rows n h in
    ap (λ j. find_row j (update_row m n.status rows).0) (sym same)
    ∙ (find_row-update_row_self m n.status rows k).0
    ∙ ap (λ j. after_update m n.status (find_row j rows)) same
    ∙ ap (after_update m n.status) h
    ∙ rw (status_eq_refl n.status) refl

-- The calls behind the update.
abbrev behind : ℕ → Notification → M Notification
behind t m = do append_event m Log.cancelled t; queue_cancel m.id; return m

Safe-behind : (t : ℕ) (m : Notification) → Safe (behind t m)
Safe-behind t m =
    Safe-bind (append_event m Log.cancelled t) _ (Safe-append_event m Log.cancelled t)
      λ _. Safe-bind (queue_cancel m.id) _ (Safe-queue_cancel m.id) λ _. Safe-return m

update_ends :
    (id : Text) (n m : Notification) (t : ℕ) (e : Env) (w w' : World) (x : Notification)
    → IsKeyed w.rows
    → find_row id w.rows ≡ some n
    → (m.status ≡ cancelled) × (m.id ≡ n.id)
    → (repo_update m n.status >> behind t m) e w ≡ returns x w'
    → (r' : Notification) × (find_row id w'.rows ≡ some r') × (r'.status ≡ cancelled)
unfolding repo_update
update_ends id n m t e w w' x k found (c, i) h =
    let (u, w₂, upd, rest) = bind_returns (repo_update m n.status) (λ _. behind t m) e w w' x h in
    let rows = update_returns m n.status e w w₂ u upd in
    let keyed : IsKeyed w₂.rows = rw rows (update_row-IsKeyed m n.status w.rows k) in
    let found' : find_row id w₂.rows ≡ some (written m n) =
      rw rows (cancelled_row id n m w.rows k found i) in
    let moved = (Safe-behind t m).run e w₂ keyed in
    ended_stays id w₂.rows w'.rows (written m n) found' c
      (subst (λ (o : Outcome Notification). Moves w₂.rows (final o).rows) rest moved)

attempt_ends :
    (id : Text) (n : Notification) (t : ℕ) (e : Env) (w w' : World) (x : Notification)
    → IsKeyed w.rows
    → find_row id w.rows ≡ some n
    → (attempt (Notification.cancel t n) >>= λ m. repo_update m n.status >> behind t m) e w
      ≡ returns x w'
    → (r' : Notification) × (find_row id w'.rows ≡ some r') × (r'.status ≡ cancelled)
attempt_ends id n t e w w' x k found h = go (Notification.cancel t n) refl h
  where
    go :
        (q : Notification × Option Error)
        → Notification.cancel t n ≡ q
        → (attempt q >>= λ m. repo_update m n.status >> behind t m) e w ≡ returns x w'
        → (r' : Notification) × (find_row id w'.rows ≡ some r') × (r'.status ≡ cancelled)
    go (m, none) same h = update_ends id n m t e w w' x k found (cancelled_mark t n m same) h
    go (m, some y) same h = cc

-- A cancellation that returns leaves the row cancelled, whatever failures of other calls it met.
cancel_notification_ends :
    (id : Text) (e : Env) (w w' : World) (m : Notification)
    → IsKeyed w.rows
    → cancel_notification id e w ≡ returns m w'
    → (r' : Notification) × (find_row id w'.rows ≡ some r') × (r'.status ≡ cancelled)
unfolding cancel_notification repo_get
cancel_notification_ends id e w w' m k h =
    let (n, w₁, first, rest) =
      bind_returns (repo_get id)
        (λ n. now >>= λ t.
          attempt (Notification.cancel t n) >>= λ m. repo_update m n.status >> behind t m)
        e w w' m h in
    let (found, rows) =
      got_returns (find_row id w.rows) (ticked w) w₁ n
        (call_returns (λ e w. got (find_row id w.rows) w) e w w₁ n first) in
    let keyed : IsKeyed w₁.rows = rw rows k in
    let there : find_row id w₁.rows ≡ some n = rw rows found in
    attempt_ends id n (e.time w₁.tick) e (ticked w₁) w' m keyed there rest

-- A cancellation that returns, whatever failures it met, leaves the row cancelled, and a task for the
-- row that runs after it, whatever failures that one meets, sends nothing and leaves the table as it
-- is.
pub cancel_stops :
    (id : Text) (e e' : Env) (w w' : World) (m : Notification)
    → IsKeyed w.rows
    → cancel_notification id e w ≡ returns m w'
    → ((r : Notification) × (find_row id w'.rows ≡ some r) × (r.status ≡ cancelled))
      × ((final (execute id e' w')).sent ≡ w'.sent)
      × ((final (execute id e' w')).rows ≡ w'.rows)
cancel_stops id e e' w w' m k h =
    let moved : Moves w.rows w'.rows =
      subst (λ (o : Outcome Notification). Moves w.rows (final o).rows) h
        (cancel_notification_safe id e w k) in
    let (r, found, ends) = cancel_notification_ends id e w w' m k h in
    let (sent, rows) =
      execute_ended id e' w' r moved.keyed found (rw ends λ q. cc) (rw ends λ q. cc) in
    ((r, found, ends), sent, rows)
