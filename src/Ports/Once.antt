-- ===== src/Ports/Once.antt =====
-- internal/ports/ports.go: actions that leave the rows of the table, and actions that write one row at
-- most, with at most one guarded update, whatever calls fail.
use event_driven_notificatio.Base.{
  ℕ, ◌≡◌, refl, sym, ap, subst, ◌∙◌, ◌⊎◌, inl, inr, Bool, true, false, [], ◌∷◌, ◌++◌, Option, none,
  some, arith, Text, if◌then◌else◌,
}
use event_driven_notificatio.Domain.Errors.{
  Error, Result, ok, err, adapter_failure, invalid_transition,
}
use event_driven_notificatio.Domain.Channel.{Channel}
use event_driven_notificatio.Domain.Status.{Status, processing}
use event_driven_notificatio.Domain.Status.Machine.{◌⟶◌, can_transition_to→⟶}
use event_driven_notificatio.Domain.Notification.{Notification, Mark, apply, target}
use event_driven_notificatio.Domain.Notification.Marks.{SameIdentity, apply_lem, attempts_after}
use event_driven_notificatio.Domain.Log.{NotificationLog}
use event_driven_notificatio.Store.{Table, update_row}
use event_driven_notificatio.Ports.{
  Env, World, Fault, fine, lost, unconfirmed, Outcome, returns, raises, final, M, ◌>>=◌, ◌>>◌, fail,
  now, new_id, lift, attempt, ticked, call, stored, repo_update, append_log, publish, allow, send,
  emit, Metric,
}

pub record Quiet {ℓ} {A : Type ℓ} (m : M A) : Type 0 where
  pub run : (e : Env) (w : World) → (final (m e w)).rows ≡ w.rows

pub Quiet-bind {ℓ κ} :
    {A : Type ℓ} {B : Type κ} (m : M A) (f : A → M B)
    → Quiet m
    → ((a : A) → Quiet (f a))
    → Quiet (m >>= f)
Quiet-bind {A = A} m f p q = record { run = λ e w. go e w (m e w) (p.run e w) }
  where
    go :
        (e : Env) (w : World) (o : Outcome A)
        → (final o).rows ≡ w.rows
        → (final (elim o [ returns a w' ↦ f a e w' | raises x w' ↦ raises x w' ])).rows ≡ w.rows
    go e w (returns a w') h = (q a).run e w' ∙ h
    go e w (raises x w') h = h

Quiet-call {ℓ} :
    {A : Type ℓ} (f : Env → World → Outcome A)
    → ((e : Env) (w : World) → (final (f e w)).rows ≡ w.rows)
    → Quiet (call f)
Quiet-call f p = record { run = λ e w. go e w (e.fault w.tick) }
  where
    go :
        (e : Env) (w : World) (x : Fault)
        → (final (elim x [
          | fine ↦ f e (ticked w)
          | lost ↦ raises adapter_failure (ticked w)
          | unconfirmed ↦ raises adapter_failure (final (f e (ticked w)))
        ])).rows
          ≡ w.rows
    go e w fine = p e (ticked w)
    go e w lost = refl
    go e w unconfirmed = p e (ticked w)

pub Quiet-fail {ℓ} : (A : Type ℓ) (x : Error) → Quiet (fail {A = A} x)
Quiet-fail A x = record { run = λ e w. refl }

pub Quiet-now : Quiet now
Quiet-now = record { run = λ e w. refl }

pub Quiet-new_id : Quiet new_id
Quiet-new_id = record { run = λ e w. refl }

pub Quiet-lift {ℓ} : {A : Type ℓ} (r : Result A) → Quiet (lift r)
Quiet-lift (ok a) = record { run = λ e w. refl }
Quiet-lift (err x) = record { run = λ e w. refl }

pub Quiet-append_log : (entry : NotificationLog) → Quiet (append_log entry)
unfolding append_log
Quiet-append_log entry =
    Quiet-call (λ e w. returns tt (record w { logs = w.logs ++ entry ∷ [] })) λ e w. refl

pub Quiet-publish : (id : Text) (status : Status) → Quiet (publish id status)
unfolding publish
Quiet-publish id status =
    Quiet-call (λ e w. returns tt (record w { published = w.published ++ (id, status) ∷ [] }))
      λ e w. refl

pub Quiet-allow : (bucket : Text) → Quiet (allow bucket)
unfolding allow
Quiet-allow bucket = Quiet-call (λ e w. returns (e.allow w.tick bucket) w) λ e w. refl

pub Quiet-send : (c : Channel) (recipient content : Text) → Quiet (send c recipient content)
unfolding send
Quiet-send c recipient content = record { run = λ e w. refl }

pub Quiet-emit : (m : Metric) → Quiet (emit m)
unfolding emit
Quiet-emit m = record { run = λ e w. refl }

-- What a worker that holds `n` may write: the table stays, or one update, guarded by processing, moves
-- the row along one arrow and leaves its attempts and what identifies it.
abbrev pub Wrote : Notification → Table → Table → Type 0
Wrote n rows rows' =
    (rows' ≡ rows)
    ⊎ ((m : Notification) × (processing ⟶ m.status)
        × (m.attempts ≡ n.attempts)
        × SameIdentity m n
        × (rows' ≡ (update_row m processing rows).0))

pub record Once {ℓ} {A : Type ℓ} (n : Notification) (m : M A) : Type 0 where
  pub run : (e : Env) (w : World) → Wrote n w.rows (final (m e w)).rows

-- Equal tables before and after a write.
pub wrote_around : (n : Notification) (a b c d : Table) → b ≡ a → Wrote n b c → d ≡ c → Wrote n a d
wrote_around n a b c d p h q = subst (λ x. Wrote n x d) p (subst (λ x. Wrote n b x) (sym q) h)

pub Once-after {ℓ κ} :
    {A : Type ℓ} {B : Type κ} (n : Notification) (m : M A) (f : A → M B)
    → Quiet m
    → ((a : A) → Once n (f a))
    → Once n (m >>= f)
Once-after {A = A} n m f p q = record { run = λ e w. go e w (m e w) (p.run e w) }
  where
    go :
        (e : Env) (w : World) (o : Outcome A)
        → (final o).rows ≡ w.rows
        → Wrote n w.rows
            (final (elim o [ returns a w' ↦ f a e w' | raises x w' ↦ raises x w' ])).rows
    go e w (returns a w') h =
        wrote_around n w.rows w'.rows _ (final (f a e w')).rows h ((q a).run e w') refl
    go e w (raises x w') h = inl h

pub Once-then {ℓ κ} :
    {A : Type ℓ} {B : Type κ} (n : Notification) (m : M A) (f : A → M B)
    → Once n m
    → ((a : A) → Quiet (f a))
    → Once n (m >>= f)
Once-then {A = A} n m f p q = record { run = λ e w. go e w (m e w) (p.run e w) }
  where
    go :
        (e : Env) (w : World) (o : Outcome A)
        → Wrote n w.rows (final o).rows
        → Wrote n w.rows
            (final (elim o [ returns a w' ↦ f a e w' | raises x w' ↦ raises x w' ])).rows
    go e w (returns a w') h = wrote_around n w.rows w.rows w'.rows _ refl h ((q a).run e w')
    go e w (raises x w') h = h

pub Once-if {ℓ} :
    {A : Type ℓ} (n : Notification) (b : Bool) (m k : M A)
    → Once n m
    → Once n k
    → Once n (if b then m else k)
Once-if n true m k p q = p
Once-if n false m k p q = q

Once-repo_update :
    (n m : Notification)
    → processing ⟶ m.status
    → m.attempts ≡ n.attempts
    → SameIdentity m n
    → Once n (repo_update m processing)
unfolding repo_update
Once-repo_update n m arrow same_attempts same = record {
  run = λ e w. go w (e.fault w.tick) (update_row m processing w.rows) refl;
}
  where
    count_kept : (k : ℕ) (w : World) → (final (stored k w)).rows ≡ w.rows
    count_kept k w = ground arith

    go :
        (w : World) (x : Fault) (q : Table × ℕ)
        → q ≡ update_row m processing w.rows
        → Wrote n w.rows
            (final (elim x [
              | fine ↦ stored q.1 (record (ticked w) { rows = q.0 })
              | lost ↦ raises adapter_failure (ticked w)
              | unconfirmed ↦
                  raises adapter_failure (final (stored q.1 (record (ticked w) { rows = q.0 })))
            ])).rows
    go w fine q h = inr (
      m,
      arrow,
      same_attempts,
      same,
      count_kept q.1 (record (ticked w) { rows = q.0 }) ∙ ap (λ (p : Table × ℕ). p.0) h,
    )
    go w lost q h = inl refl
    go w unconfirmed q h = inr (
      m,
      arrow,
      same_attempts,
      same,
      count_kept q.1 (record (ticked w) { rows = q.0 }) ∙ ap (λ (p : Table × ℕ). p.0) h,
    )

-- A mark, its guarded update, and what follows.
pub Once-marked {ℓ} :
    {A : Type ℓ} (mark : Mark) (t : ℕ) (n : Notification) (k : Notification → M A)
    → n.status ≡ processing
    → attempts_after mark n.attempts ≡ n.attempts
    → ((m : Notification) → Quiet (k m))
    → Once n (attempt (apply mark t n) >>= λ m. repo_update m processing >> k m)
Once-marked {A = A} mark t n k held kept p = elim (apply_lem mark t n) [
  | inl (edge, done, marked) ↦
      go (apply mark t n) done
        (subst (λ s. processing ⟶ s) (sym marked.status)
          (subst (λ s. s ⟶ target mark) held (can_transition_to→⟶ n.status (target mark) edge)))
        (marked.attempts ∙ kept) marked.same
  | inr (edge, same) ↦ refused (apply mark t n) same
]
  where
    go :
        (q : Notification × Option Error)
        → q.1 ≡ none
        → processing ⟶ q.0.status
        → q.0.attempts ≡ n.attempts
        → SameIdentity q.0 n
        → Once n (attempt q >>= λ m. repo_update m processing >> k m)
    go (m, none) h arrow a same =
        Once-then n (repo_update m processing) (λ _. k m) (Once-repo_update n m arrow a same)
          (λ _. p m)
    go (m, some x) h arrow a same = cc

    refused :
        (q : Notification × Option Error)
        → q ≡ (n, some invalid_transition)
        → Once n (attempt q >>= λ m. repo_update m processing >> k m)
    refused (m, none) h = cc
    refused (m, some x) h = record { run = λ e w. inl refl }
