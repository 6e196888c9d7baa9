-- ===== src/Ports/Safe.antt =====
-- internal/ports/ports.go: actions that only advance the table, whatever calls of an adapter fail.
use event_driven_notificatio.Base.{
  ℕ, ◌≡◌, refl, inl, inr, true, List, [], ◌∷◌, ◌++◌, Option, none, some, Text, Bool-cases, ◌==◌,
}
use event_driven_notificatio.Domain.Errors.{Error, Result, ok, err, adapter_failure}
use event_driven_notificatio.Domain.Channel.{Channel, Priority}
use event_driven_notificatio.Domain.Log.{NotificationLog}
use event_driven_notificatio.Queue.{
  QueueCall, enqueues, deletes, new_process_notification_task, scheduled_task, queue_names,
  task_id_for,
}
use event_driven_notificatio.Domain.Status.{Status, can_transition_to}
use event_driven_notificatio.Domain.Status.Machine.{◌⟶◌, ◌⟶*◌, here, next}
use event_driven_notificatio.Domain.Notification.{Notification, Mark, target, apply}
use event_driven_notificatio.Domain.Notification.Marks.{apply_lem}
use event_driven_notificatio.Store.{Table, find_row, claim_row, update_row}
use event_driven_notificatio.Domain.Log.{LogEvent, new_notification_log}
use event_driven_notificatio.Ports.{append_event, repo_find, render_template, entry_input}
use event_driven_notificatio.Ports.{
  Env, World, Fault, fine, lost, unconfirmed, Outcome, returns, raises, final, M, ◌>>=◌, ◌>>◌,
  return, fail, now, new_id, lift, attempt, ticked, call, got, won, stored, repo_get, repo_take,
  repo_claim, repo_update, append_log, publish, allow, send, emit, Metric, request, enqueue,
  enqueue_scheduled, delete_from, queue_cancel,
}
use event_driven_notificatio.Ports.Rows.{
  Advances, Advances-refl, Advances-trans, claim_row-Advances, update_row-Advances,
}

-- An action that only advances the table, in every environment and state.
pub record Safe {ℓ} {A : Type ℓ} (m : M A) : Type 0 where
  pub run : (e : Env) (w : World) → Advances w.rows (final (m e w)).rows

pub Safe-bind {ℓ κ} :
    {A : Type ℓ} {B : Type κ} (m : M A) (f : A → M B)
    → Safe m
    → ((a : A) → Safe (f a))
    → Safe (m >>= f)
Safe-bind {A = A} m f p q = record { run = λ e w. go e w (m e w) (p.run e w) }
  where
    go :
        (e : Env) (w : World) (o : Outcome A)
        → Advances w.rows (final o).rows
        → Advances w.rows
            (final (elim o [ returns a w' ↦ f a e w' | raises x w' ↦ raises x w' ])).rows
    go e w (returns a w') h = Advances-trans w.rows w'.rows _ h ((q a).run e w')
    go e w (raises x w') h = h

pub Safe-call {ℓ} :
    {A : Type ℓ} (f : Env → World → Outcome A)
    → ((e : Env) (w : World) → Advances w.rows (final (f e w)).rows)
    → Safe (call f)
Safe-call f p = record { run = λ e w. go e w (e.fault w.tick) }
  where
    go :
        (e : Env) (w : World) (x : Fault)
        → Advances w.rows
            (final (elim x [
              | fine ↦ f e (ticked w)
              | lost ↦ raises adapter_failure (ticked w)
              | unconfirmed ↦ raises adapter_failure (final (f e (ticked w)))
            ])).rows
    go e w fine = p e (ticked w)
    go e w lost = Advances-refl w.rows
    go e w unconfirmed = p e (ticked w)

pub Safe-return {ℓ} : {A : Type ℓ} (a : A) → Safe (return a)
Safe-return a = record { run = λ e w. Advances-refl w.rows }

pub Safe-fail {ℓ} : (A : Type ℓ) (x : Error) → Safe (fail {A = A} x)
Safe-fail A x = record { run = λ e w. Advances-refl w.rows }

pub Safe-now : Safe now
Safe-now = record { run = λ e w. Advances-refl w.rows }

pub Safe-new_id : Safe new_id
Safe-new_id = record { run = λ e w. Advances-refl w.rows }

pub Safe-lift {ℓ} : {A : Type ℓ} (r : Result A) → Safe (lift r)
Safe-lift (ok a) = Safe-return a
Safe-lift {A = A} (err x) = Safe-fail A x

pub Safe-repo_get : (id : Text) → Safe (repo_get id)
unfolding repo_get
Safe-repo_get id = Safe-call (λ e w. got (find_row id w.rows) w) (λ e w. go w (find_row id w.rows))
  where
    go : (w : World) (o : Option Notification) → Advances w.rows (final (got o w)).rows
    go w none = Advances-refl w.rows
    go w (some n) = Advances-refl w.rows

Safe-repo_take : (id : Text) (t : ℕ) → Safe (repo_take id t)
unfolding repo_take
Safe-repo_take id t =
    Safe-call
      (λ e w. let (rows, result) = claim_row id t w.rows in won result (record w { rows = rows }))
      (λ e w. go w (claim_row id t w.rows) (claim_row-Advances id t w.rows))
  where
    go :
        (w : World) (p : Table × Option Notification)
        → Advances w.rows p.0
        → Advances w.rows (final (won p.1 (record w { rows = p.0 }))).rows
    go w (rows, none) h = h
    go w (rows, some n) h = h

pub Safe-repo_claim : (id : Text) (t : ℕ) → Safe (repo_claim id t)
unfolding repo_claim
Safe-repo_claim id t =
    Safe-bind (repo_get id) (λ _. repo_take id t) (Safe-repo_get id) (λ _. Safe-repo_take id t)

pub Safe-repo_update :
    (n : Notification) (expected : Status) → expected ⟶* n.status → Safe (repo_update n expected)
unfolding repo_update
Safe-repo_update n expected p =
    Safe-call
      (λ e w.
        let (rows, count) = update_row n expected w.rows in stored count (record w { rows = rows }))
      (λ e w. go w (update_row n expected w.rows) (update_row-Advances n expected w.rows p))
  where
    go :
        (w : World) (q : Table × ℕ)
        → Advances w.rows q.0
        → Advances w.rows (final (stored q.1 (record w { rows = q.0 }))).rows
    go w (rows, count) h = elim (Bool-cases (count == 0)) [ inl e ↦ rw e h | inr e ↦ rw e h ]

pub Safe-append_log : (entry : NotificationLog) → Safe (append_log entry)
unfolding append_log
Safe-append_log entry =
    Safe-call (λ e w. returns tt (record w { logs = w.logs ++ entry ∷ [] }))
      (λ e w. Advances-refl w.rows)

pub Safe-publish : (id : Text) (s : Status) → Safe (publish id s)
unfolding publish
Safe-publish id s =
    Safe-call (λ e w. returns tt (record w { published = w.published ++ (id, s) ∷ [] }))
      (λ e w. Advances-refl w.rows)

pub Safe-allow : (bucket : Text) → Safe (allow bucket)
unfolding allow
Safe-allow bucket =
    Safe-call (λ e w. returns (e.allow w.tick bucket) w) (λ e w. Advances-refl w.rows)

pub Safe-send : (c : Channel) (to body : Text) → Safe (send c to body)
unfolding send
Safe-send c to body = record { run = λ e w. Advances-refl w.rows }

pub Safe-emit : (m : Metric) → Safe (emit m)
unfolding emit
Safe-emit m = record { run = λ e w. Advances-refl w.rows }

Safe-request : (c : QueueCall) → Safe (request c)
unfolding request
Safe-request c =
    Safe-call (λ e w. returns tt (record w { calls = w.calls ++ c ∷ [] }))
      (λ e w. Advances-refl w.rows)

pub Safe-enqueue : (id : Text) (p : Priority) (key : Text) → Safe (enqueue id p key)
unfolding enqueue
Safe-enqueue id p key = Safe-request (enqueues (new_process_notification_task id p key))

pub Safe-enqueue_scheduled : (id : Text) (p : Priority) (at : ℕ) → Safe (enqueue_scheduled id p at)
unfolding enqueue_scheduled
Safe-enqueue_scheduled id p at = Safe-request (enqueues (scheduled_task id p at))

Safe-delete_from : (names : List Text) (id : Text) → Safe (delete_from names id)
unfolding delete_from
Safe-delete_from [] id = Safe-return {0} tt
Safe-delete_from (name ∷ names) id =
    Safe-bind (request (deletes name id)) (λ _. delete_from names id)
      (Safe-request (deletes name id)) (λ _. Safe-delete_from names id)

pub Safe-queue_cancel : (id : Text) → Safe (queue_cancel id)
unfolding queue_cancel
Safe-queue_cancel id = Safe-delete_from queue_names (task_id_for id [])

pub Safe-append_event :
    (n : Notification) (event : LogEvent) (t : ℕ) → Safe (append_event n event t)
unfolding append_event
Safe-append_event n event t = Safe-bind new_id _ Safe-new_id λ id.
    Safe-bind (lift (new_notification_log (entry_input id n event) t)) _ (Safe-lift _)
      λ entry. Safe-append_log entry

pub Safe-repo_find : (query : Table → Table) → Safe (repo_find query)
unfolding repo_find
Safe-repo_find query = Safe-call (λ e w. returns (query w.rows) w) (λ e w. Advances-refl w.rows)

pub Safe-render_template : (id : Text) → Safe (render_template id)
unfolding render_template
Safe-render_template id =
    Safe-call (λ e w. lift (e.rendered w.tick id) e w)
      (λ e w. (Safe-lift (e.rendered w.tick id)).run e w)

-- A marked entity, stored where its status was `expected`.
pub Safe-marked {ℓ} :
    {A : Type ℓ} (mark : Mark) (t : ℕ) (n : Notification) (expected : Status)
    (k : Notification → M A)
    → (can_transition_to n.status (target mark) ≡ true → expected ⟶ target mark)
    → ((m : Notification) → Safe (k m))
    → Safe (attempt (apply mark t n) >>= λ m. repo_update m expected >> k m)
Safe-marked {A = A} mark t n expected k edge p = go (apply mark t n) legal
  where
    legal : (apply mark t n).1 ≡ none → expected ⟶* (apply mark t n).0.status
    legal done = elim (apply_lem mark t n) [
      | inl (ok_edge, _, marked) ↦ rw marked.status (next here (edge ok_edge))
      | inr (_, same) ↦ cc (rw same at done)
    ]

    go :
        (q : Notification × Option Error)
        → (q.1 ≡ none → expected ⟶* q.0.status)
        → Safe (attempt q >>= λ m. repo_update m expected >> k m)
    go (m, none) h =
        Safe-bind (repo_update m expected) (λ _. k m) (Safe-repo_update m expected (h refl))
          (λ _. p m)
    go (m, some x) h = Safe-fail A x
