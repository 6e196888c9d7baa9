-- ===== src/Create/Safety.antt =====
-- internal/application/{create,schedule}_notification.go: what a creation does to the table, in any
-- environment of faults.
use event_driven_notificatio.Base.{
  ℕ, ◌≡◌, refl, sym, subst, Bool, true, false, not, [], ◌∷◌, ◌++◌, Option, none, some, Text,
  text_eq, is_empty, ltb, if◌then◌else◌, Bool-cases, inl, inr,
}
use event_driven_notificatio.Domain.Errors.{Result, ok, err, scheduled_in_past}
use event_driven_notificatio.Domain.Channel.{new_channel, new_priority}
use event_driven_notificatio.Domain.Status.{pending}
use event_driven_notificatio.Domain.Status.Machine
use event_driven_notificatio.Domain.Status.Machine.{◌⟶*◌, here}
use event_driven_notificatio.Domain.Notification.{
  Notification, NewNotificationInput, new_notification, Mark, apply, target,
}
use event_driven_notificatio.Domain.Notification.Creation.{new_notification_iff}
use event_driven_notificatio.Domain.Log
use event_driven_notificatio.Store.{Table, find_row, insert_row, conflicts}
use event_driven_notificatio.Store.Claims.{
  IsKeyed, insert_row-IsKeyed, find_row-append, find_row-append_some,
}
use event_driven_notificatio.Ports.{
  Env, World, final, ◌>>=◌, ◌>>◌, return, fail, lift, now, new_id, inserted, append_event,
  repo_create, emit, render_template, notification_created,
}
use event_driven_notificatio.Ports.Rows.{RowMoves, RowMoves-refl, Advances, Advances-refl, Moves}
use event_driven_notificatio.Ports.Safe.{
  Safe, Safe-bind, Safe-return, Safe-fail, Safe-call, Safe-now, Safe-new_id, Safe-lift, Safe-marked,
  Safe-append_event, Safe-enqueue, Safe-enqueue_scheduled, Safe-emit, Safe-render_template,
}
use event_driven_notificatio.Create.{
  CreateNotificationInput, correlation_for, content_for, entity_input, enqueue_at, store_created,
  create_notification, schedule_notification,
}

append-RowMoves :
    (j : Text) (n : Notification) (rows : Table) (o : Option Notification)
    → n.status ≡ pending
    → find_row j rows ≡ o
    → RowMoves o (find_row j (rows ++ n ∷ []))
append-RowMoves j n rows none p h = elim (Bool-cases (text_eq n.id j)) [
  | inl e ↦ rw (find_row-append j n rows h, e) (subst (λ s. pending ⟶* s) (sym p) here)
  | inr e ↦ rw (find_row-append j n rows h, e) tt
]
append-RowMoves j n rows (some r) p h =
    rw (find_row-append_some j n r rows h) (RowMoves-refl (some r))

insert_row-Advances :
    (n : Notification) (rows : Table) (w : World)
    → n.status ≡ pending
    → Advances rows (final (inserted (insert_row n rows) (record w { rows = rows }))).rows
unfolding insert_row
insert_row-Advances n rows w p = go (conflicts n rows) refl
  where
    go :
        (b : Bool)
        → conflicts n rows ≡ b
        → Advances rows
            (final (
              inserted (if b then none else some (rows ++ n ∷ [])) (record w { rows = rows }))).rows
    go true c = Advances-refl rows
    go false c = λ k. record {
      keyed = insert_row-IsKeyed n rows (rows ++ n ∷ []) (rw c refl) k;
      row = λ j. append-RowMoves j n rows (find_row j rows) p refl;
    }

Safe-repo_create : (n : Notification) → n.status ≡ pending → Safe (repo_create n)
unfolding repo_create
Safe-repo_create n p =
    Safe-call (λ e w. inserted (insert_row n w.rows) w) (λ e w. insert_row-Advances n w.rows w p)

Safe-enqueue_at : (o : Option ℕ) (n : Notification) → Safe (enqueue_at o n)
unfolding enqueue_at
Safe-enqueue_at none n = Safe-enqueue n.id n.priority n.idempotency_key
Safe-enqueue_at (some at) n = Safe-enqueue_scheduled n.id n.priority at

Safe-store_created : (n : Notification) (t : ℕ) → n.status ≡ pending → Safe (store_created n t)
unfolding store_created apply target
Safe-store_created n t p = Safe-bind (repo_create n) _ (Safe-repo_create n p) λ _.
    Safe-bind (append_event n Log.created t) _ (Safe-append_event n Log.created t) λ _.
      Safe-bind (enqueue_at n.scheduled_at n) _ (Safe-enqueue_at n.scheduled_at n) λ _.
        Safe-marked Mark.queue t n pending
          (λ m.
            append_event m Log.queued t
            >> (emit (notification_created m.channel m.priority) >> return m))
          (λ h. Machine.enqueue)
          (λ m. Safe-bind (append_event m Log.queued t) _ (Safe-append_event m Log.queued t) λ _.
            Safe-bind (emit (notification_created m.channel m.priority)) _ (Safe-emit _)
              λ _. Safe-return m)

pub Safe-correlation_for : (t : Text) → Safe (correlation_for t)
unfolding correlation_for
Safe-correlation_for t = go (is_empty t)
  where
    go : (b : Bool) → Safe (if b then new_id else return t)
    go true = Safe-new_id
    go false = Safe-return t

Safe-content_for : (o : Option Text) (t : Text) → Safe (content_for o t)
unfolding content_for
Safe-content_for none t = Safe-return t
Safe-content_for (some id) t = go (is_empty id)
  where
    go : (b : Bool) → Safe (if not b then render_template id else return t)
    go true = Safe-return t
    go false = Safe-render_template id

Safe-store_new :
    (r : Result Notification) (t : ℕ)
    → ((n : Notification) → r ≡ ok n → n.status ≡ pending)
    → Safe (lift r >>= λ n. store_created n t)
Safe-store_new (ok n) t p = Safe-store_created n t (p n refl)
Safe-store_new (err x) t p = Safe-fail Notification x

pub new_is_pending :
    (input : NewNotificationInput) (t : ℕ) (n : Notification)
    → new_notification input t ≡ ok n
    → n.status ≡ pending
new_is_pending input t n h = rw ((new_notification_iff input t n).0 h).1 refl

Safe-create_notification : (input : CreateNotificationInput) → Safe (create_notification input)
unfolding create_notification
Safe-create_notification input = Safe-bind (lift (new_channel input.channel)) _ (Safe-lift _) λ c.
    Safe-bind (lift (new_priority input.priority)) _ (Safe-lift _) λ p.
      Safe-bind (correlation_for input.correlation_id) _ (Safe-correlation_for input.correlation_id)
        λ cid. Safe-bind now _ Safe-now λ t.
          Safe-bind (content_for input.template_id input.content) _
            (Safe-content_for input.template_id input.content)
            λ content. Safe-bind new_id _ Safe-new_id λ id.
              Safe-store_new (new_notification (entity_input input c p cid content id) t) t
                (new_is_pending (entity_input input c p cid content id) t)

Safe-schedule_notification :
    (input : CreateNotificationInput) (at : ℕ) → Safe (schedule_notification input at)
unfolding schedule_notification
Safe-schedule_notification input at = Safe-bind now _ Safe-now λ t. go (ltb t at)
  where
    go :
        (b : Bool)
        → Safe (
            if not b
            then fail scheduled_in_past
            else create_notification (record input { scheduled_at = some at }))
    go true = Safe-create_notification (record input { scheduled_at = some at })
    go false = Safe-fail Notification scheduled_in_past

-- One creation, at once or scheduled, from any table with distinct ids and with any sequence of
-- failures, keeps the ids distinct, loses no row, moves each row's status only to one that the
-- arrows reach, and leaves what identifies each row.
pub creation_safe :
    (input : CreateNotificationInput) (at : ℕ) (e : Env) (w : World)
    → IsKeyed w.rows
    → Moves w.rows (final (create_notification input e w)).rows
      × Moves w.rows (final (schedule_notification input at e w)).rows
creation_safe input at e w k =
    ((Safe-create_notification input).run e w k, (Safe-schedule_notification input at).run e w k)
