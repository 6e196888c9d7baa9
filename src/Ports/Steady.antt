-- ===== src/Ports/Steady.antt =====
-- internal/ports/ports.go: actions that neither add nor remove a row, whatever calls fail, with what is
-- known of the value that they return.
use event_driven_notificatio.Base.{
  ℕ, ◌≡◌, refl, ◌∙◌, inl, inr, [], ◌∷◌, ◌++◌, Option, none, some, Text, length, Bool-cases, ◌==◌,
  arith,
}
use event_driven_notificatio.Domain.Errors.{Error, Result, ok, err, adapter_failure}
use event_driven_notificatio.Domain.Channel.{Priority}
use event_driven_notificatio.Domain.Status.{Status}
use event_driven_notificatio.Domain.Notification.{Notification}
use event_driven_notificatio.Domain.Log.{LogEvent, new_notification_log}
use event_driven_notificatio.Queue.{enqueues, new_process_notification_task}
use event_driven_notificatio.Store.{Table, update_row}
use event_driven_notificatio.Ports.{
  Env, World, Fault, fine, lost, unconfirmed, Outcome, returns, raises, final, M, ◌>>=◌, return,
  fail, lift, attempt, ticked, call, now, new_id, stored, entry_input, append_log, append_event,
  request, enqueue, repo_update, emit, Metric,
}

-- As many rows as before.
abbrev pub SameSize : World → World → Type 0
SameSize w w' = length w'.rows ≡ length w.rows

abbrev pub IsSteady {ℓ} : {A : Type ℓ} → (A → Type 0) → World → Outcome A → Type 0
IsSteady P w (returns a w') = P a × SameSize w w'
IsSteady P w (raises x w') = SameSize w w'

pub record Steady {ℓ} {A : Type ℓ} (P : A → Type 0) (m : M A) : Type ℓ where
  pub run : (e : Env) (w : World) → IsSteady P w (m e w)

abbrev pub Any {ℓ} : {A : Type ℓ} → A → Type 0
Any a = Unit

widen {ℓ} :
    {A : Type ℓ} (P : A → Type 0) (w w' : World) (o : Outcome A)
    → SameSize w w'
    → IsSteady P w' o
    → IsSteady P w o
widen P w w' (returns a u) s h = (h.0, h.1 ∙ s)
widen P w w' (raises x u) s h = h ∙ s

pub Steady-bind {ℓ κ} :
    {A : Type ℓ} {B : Type κ} (P : A → Type 0) (Q : B → Type 0) (m : M A) (f : A → M B)
    → Steady P m
    → ((a : A) → P a → Steady Q (f a))
    → Steady Q (m >>= f)
Steady-bind {A = A} P Q m f p q = record { run = λ e w. go e w (m e w) (p.run e w) }
  where
    go :
        (e : Env) (w : World) (o : Outcome A)
        → IsSteady P w o
        → IsSteady Q w (elim o [ returns a w' ↦ f a e w' | raises x w' ↦ raises x w' ])
    go e w (returns a w') h = widen Q w w' (f a e w') h.1 ((q a h.0).run e w')
    go e w (raises x w') h = h

pub Steady-return {ℓ} : {A : Type ℓ} (P : A → Type 0) (a : A) → P a → Steady P (return a)
Steady-return P a h = record { run = λ e w. (h, refl) }

pub Steady-fail {ℓ} : {A : Type ℓ} (P : A → Type 0) (x : Error) → Steady P (fail {A = A} x)
Steady-fail P x = record { run = λ e w. refl }

pub Steady-lift {ℓ} :
    {A : Type ℓ} (P : A → Type 0) (r : Result A) → ((a : A) → r ≡ ok a → P a) → Steady P (lift r)
Steady-lift P (ok a) h = Steady-return P a (h a refl)
Steady-lift P (err x) h = Steady-fail P x

pub Steady-now : Steady Any now
Steady-now = record { run = λ e w. (tt, refl) }

pub Steady-new_id : Steady Any new_id
Steady-new_id = record { run = λ e w. (tt, refl) }

pub Steady-call {ℓ} :
    {A : Type ℓ} (f : Env → World → Outcome A)
    → ((e : Env) (w : World) → IsSteady Any w (f e w))
    → Steady Any (call f)
Steady-call {A = A} f p = record { run = λ e w. go e w (e.fault w.tick) }
  where
    after : (w : World) (o : Outcome A) → IsSteady Any w o → SameSize w (final o)
    after w (returns a u) h = h.1
    after w (raises x u) h = h

    go :
        (e : Env) (w : World) (x : Fault)
        → IsSteady Any w (elim x [
          | fine ↦ f e (ticked w)
          | lost ↦ raises adapter_failure (ticked w)
          | unconfirmed ↦ raises adapter_failure (final (f e (ticked w)))
        ])
    go e w fine = p e (ticked w)
    go e w lost = refl
    go e w unconfirmed = after (ticked w) (f e (ticked w)) (p e (ticked w))

pub Steady-append_event :
    (n : Notification) (event : LogEvent) (t : ℕ) → Steady Any (append_event n event t)
unfolding append_event append_log
Steady-append_event n event t = Steady-bind Any Any new_id _ Steady-new_id λ id _.
    Steady-bind Any Any (lift (new_notification_log (entry_input id n event) t)) _
      (Steady-lift Any _ (λ _ _. tt))
      λ entry _.
        Steady-call (λ e w. returns tt (record w { logs = w.logs ++ entry ∷ [] }))
          (λ e w. (tt, refl))

pub Steady-enqueue : (id : Text) (p : Priority) (key : Text) → Steady Any (enqueue id p key)
unfolding enqueue request
Steady-enqueue id p key =
    Steady-call
      (λ e w.
        returns tt
          (record w { calls = w.calls ++ enqueues (new_process_notification_task id p key) ∷ [] }))
      (λ e w. (tt, refl))

length-update_row :
    (n : Notification) (expected : Status) (rows : Table)
    → length (update_row n expected rows).0 ≡ length rows
unfolding update_row
length-update_row n expected [] = refl
length-update_row n expected (r ∷ rows) = ground (arith, length-update_row n expected rows)

pub Steady-repo_update :
    (n : Notification) (expected : Status) → Steady Any (repo_update n expected)
unfolding repo_update
Steady-repo_update n expected =
    Steady-call
      (λ e w.
        let (rows, count) = update_row n expected w.rows in stored count (record w { rows = rows }))
      (λ e w. go w (update_row n expected w.rows) (length-update_row n expected w.rows))
  where
    go :
        (w : World) (q : Table × ℕ)
        → length q.0 ≡ length w.rows
        → IsSteady Any w (stored q.1 (record w { rows = q.0 }))
    go w (rows, count) h = elim (Bool-cases (count == 0)) [ inl e ↦ rw e h | inr e ↦ rw e (tt, h) ]

pub Steady-emit : (m : Metric) → Steady Any (emit m)
unfolding emit
Steady-emit m = record { run = λ e w. (tt, refl) }

pub Steady-attempt : (q : Notification × Option Error) → Steady Any (attempt q)
Steady-attempt (n, none) = Steady-return Any n tt
Steady-attempt (n, some x) = Steady-fail Any x
