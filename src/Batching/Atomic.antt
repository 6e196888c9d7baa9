-- ===== src/Batching/Atomic.antt =====
-- internal/application/create_batch.go: a batch is stored whole or not at all.
use event_driven_notificatio.Base.{
  ℕ, suc, ◌+◌, ◌≡◌, refl, sym, ap, subst, ◌∙◌, ◌⊎◌, inl, inr, Bool, true, false, List, [], ◌∷◌,
  Option, none, some, Text, All, length, length-append, is_empty, Bool-cases, if◌then◌else◌, arith,
}
use event_driven_notificatio.Domain.Errors.{Result, ok, err, adapter_failure}
use event_driven_notificatio.Domain.Channel.{new_channel, new_priority}
use event_driven_notificatio.Domain.Status.{pending}
use event_driven_notificatio.Domain.Notification.{Notification, new_notification, mark_queued}
use event_driven_notificatio.Domain.Batch.{Batch, NewBatchInput, new_batch}
use event_driven_notificatio.Domain.Batch.Summary.{new_batch_linked, length-link}
use event_driven_notificatio.Domain.Log
use event_driven_notificatio.Store.{Table, insert_row}
use event_driven_notificatio.Ports.{
  Env, World, Fault, fine, lost, unconfirmed, Outcome, returns, raises, final, M, ◌>>=◌, return,
  lift, attempt, ticked, now, new_id, append_event, enqueue, repo_update, emit,
  notification_created,
}
use event_driven_notificatio.Ports.Steady.{
  Steady, IsSteady, SameSize, Any, Steady-bind, Steady-return, Steady-lift, Steady-now,
  Steady-new_id, Steady-append_event, Steady-enqueue, Steady-repo_update, Steady-emit,
  Steady-attempt,
}
use event_driven_notificatio.Create.{correlation_for}
use event_driven_notificatio.Create.Safety.{new_is_pending}
use event_driven_notificatio.Batching.{
  CreateBatchItem, CreateBatchInput, insert_all, batch_tables, committed, has_batch,
  repo_create_batch, item_input, build_notification, build_notifications, enqueue_member,
  enqueue_members, store_batch, create_batch,
}

-- No row is new, or k rows are.
abbrev pub AllOrNone : ℕ → World → World → Type 0
AllOrNone k w w' = (length w'.rows ≡ length w.rows) ⊎ (length w'.rows ≡ length w.rows + k)

-- All of them where the action returns.
abbrev pub IsAtomic {ℓ} : {A : Type ℓ} → ℕ → World → Outcome A → Type 0
IsAtomic k w (returns a w') = length w'.rows ≡ length w.rows + k
IsAtomic k w (raises x w') = AllOrNone k w w'

record Atomic {ℓ} {A : Type ℓ} (k : ℕ) (m : M A) : Type ℓ where
  run : (e : Env) (w : World) → IsAtomic k w (m e w)

shift {ℓ} :
    {A : Type ℓ} (k : ℕ) (w w' : World) (o : Outcome A)
    → SameSize w w'
    → IsAtomic k w' o
    → IsAtomic k w o
shift k w w' (returns a u) s h = h ∙ ap (λ n. n + k) s
shift k w w' (raises x u) s (inl h) = inl (h ∙ s)
shift k w w' (raises x u) s (inr h) = inr (h ∙ ap (λ n. n + k) s)

stays {ℓ} :
    {A : Type ℓ} (k : ℕ) (w w' : World) (o : Outcome A)
    → length w'.rows ≡ length w.rows + k
    → IsSteady Any w' o
    → IsAtomic k w o
stays k w w' (returns a u) s h = h.1 ∙ s
stays k w w' (raises x u) s h = inr (h ∙ s)

-- A steady action, and then an atomic one; or the other way.
Atomic-after {ℓ κ} :
    {A : Type ℓ} {B : Type κ} (k : ℕ) (P : A → Type 0) (m : M A) (f : A → M B)
    → Steady P m
    → ((a : A) → P a → Atomic k (f a))
    → Atomic k (m >>= f)
Atomic-after {A = A} k P m f p q = record { run = λ e w. go e w (m e w) (p.run e w) }
  where
    go :
        (e : Env) (w : World) (o : Outcome A)
        → IsSteady P w o
        → IsAtomic k w (elim o [ returns a w' ↦ f a e w' | raises x w' ↦ raises x w' ])
    go e w (returns a w') h = shift k w w' (f a e w') h.1 ((q a h.0).run e w')
    go e w (raises x w') h = inl h

Atomic-before {ℓ κ} :
    {A : Type ℓ} {B : Type κ} (k : ℕ) (m : M A) (f : A → M B)
    → Atomic k m
    → ((a : A) → Steady Any (f a))
    → Atomic k (m >>= f)
Atomic-before {A = A} k m f p q = record { run = λ e w. go e w (m e w) (p.run e w) }
  where
    go :
        (e : Env) (w : World) (o : Outcome A)
        → IsAtomic k w o
        → IsAtomic k w (elim o [ returns a w' ↦ f a e w' | raises x w' ↦ raises x w' ])
    go e w (returns a w') h = stays k w w' (f a e w') h ((q a).run e w')
    go e w (raises x w') h = h

-- The transaction.
length-insert_all :
    (ns : List Notification) (rows rows' : Table)
    → insert_all ns rows ≡ some rows'
    → length rows' ≡ length rows + length ns
unfolding insert_all insert_row
length-insert_all [] rows rows' h = ground arith
length-insert_all (n ∷ ns) rows rows' h =
    go (insert_row n rows) refl h (λ q. length-insert_all ns q rows')
  where
    one : (q : Table) → insert_row n rows ≡ some q → length q ≡ length rows + 1
    one q e = ground (arith, length-append rows (n ∷ []))

    go :
        (o : Option Table)
        → insert_row n rows ≡ o
        → elim o [ none ↦ none | some q ↦ insert_all ns q ] ≡ some rows'
        → ((q : Table) → insert_all ns q ≡ some rows' → length rows' ≡ length q + length ns)
        → length rows' ≡ length rows + suc (length ns)
    go none e k ih = cc
    go (some q) e k ih = omega (arith, one q e, ih q k)

Atomic-repo_create_batch : (b : Batch) → Atomic (length b.notifications) (repo_create_batch b)
unfolding repo_create_batch batch_tables
Atomic-repo_create_batch b = record { run = λ e w. go e w (e.fault w.tick) }
  where
    stored :
        (w : World) (o : Option Table)
        → ((rows : Table) → o ≡ some rows → length rows ≡ length w.rows + length b.notifications)
        → IsAtomic (length b.notifications) w (committed b o w)
    stored w none h = inl refl
    stored w (some rows) h = h rows refl

    unheard :
        (w : World) (o : Option Table)
        → IsAtomic (length b.notifications) w (committed b o w)
        → AllOrNone (length b.notifications) w (final (committed b o w))
    unheard w none h = h
    unheard w (some rows) h = inr h

    sized :
        (w : World) (rows : Table)
        → (if has_batch b.id w.batches then none else insert_all b.notifications w.rows) ≡ some rows
        → length rows ≡ length w.rows + length b.notifications
    sized w rows h = elim (Bool-cases (has_batch b.id w.batches)) [
      | inl e ↦ cc (rw e at h)
      | inr e ↦ length-insert_all b.notifications w.rows rows (rw e at h)
    ]

    go :
        (e : Env) (w : World) (x : Fault)
        → IsAtomic (length b.notifications) w (elim x [
          | fine ↦ committed b (batch_tables b w) (ticked w)
          | lost ↦ raises adapter_failure (ticked w)
          | unconfirmed ↦ raises adapter_failure (final (committed b (batch_tables b w) (ticked w)))
        ])
    go e w fine = stored (ticked w) (batch_tables b w) (sized w)
    go e w lost = inl refl
    go e w unconfirmed =
        unheard (ticked w) (batch_tables b w) (stored (ticked w) (batch_tables b w) (sized w))

-- What follows it.
Steady-enqueue_member : (n : Notification) (t : ℕ) → Steady Any (enqueue_member n t)
unfolding enqueue_member
Steady-enqueue_member n t =
    Steady-bind Any Any (append_event n Log.created t) _ (Steady-append_event n Log.created t)
      λ _ _.
        Steady-bind Any Any (enqueue n.id n.priority n.idempotency_key) _
          (Steady-enqueue n.id n.priority n.idempotency_key)
          λ _ _.
            Steady-bind Any Any (attempt (mark_queued t n)) _ (Steady-attempt (mark_queued t n))
              λ m _.
                Steady-bind Any Any (repo_update m pending) _ (Steady-repo_update m pending) λ _ _.
                  Steady-bind Any Any (append_event m Log.queued t) _
                    (Steady-append_event m Log.queued t)
                    λ _ _.
                      Steady-bind Any Any (emit (notification_created m.channel m.priority)) _
                        (Steady-emit _) λ _ _. Steady-return Any m tt

Steady-enqueue_members : (ns : List Notification) (t : ℕ) → Steady Any (enqueue_members ns t)
unfolding enqueue_members
Steady-enqueue_members [] t = Steady-return Any [] tt
Steady-enqueue_members (n ∷ ns) t =
    Steady-bind Any Any (enqueue_member n t) _ (Steady-enqueue_member n t) λ m _.
      Steady-bind Any Any (enqueue_members ns t) _ (Steady-enqueue_members ns t)
        λ ms _. Steady-return Any (m ∷ ms) tt

Atomic-store_batch : (b : Batch) (t : ℕ) → Atomic (length b.notifications) (store_batch b t)
unfolding store_batch
Atomic-store_batch b t =
    Atomic-before (length b.notifications) (repo_create_batch b) _ (Atomic-repo_create_batch b) λ _.
      Steady-bind Any Any (enqueue_members b.notifications t) _
        (Steady-enqueue_members b.notifications t)
        λ ms _. Steady-return Any (record b { notifications = ms }) tt

-- What comes before it.
abbrev pub IsPending : Notification → Type 0
IsPending n = n.status ≡ pending

abbrev pub IsBuilt : ℕ → List Notification → Type 0
IsBuilt k ns = (length ns ≡ k) × All IsPending ns

Steady-build_notification :
    (item : CreateBatchItem) (correlation_id : Text) (t : ℕ)
    → Steady IsPending (build_notification item correlation_id t)
unfolding build_notification
Steady-build_notification item correlation_id t =
    Steady-bind Any IsPending (lift (new_channel item.channel)) _ (Steady-lift Any _ (λ _ _. tt))
      λ channel _.
        Steady-bind Any IsPending (lift (new_priority item.priority)) _
          (Steady-lift Any _ (λ _ _. tt))
          λ priority _. Steady-bind Any IsPending new_id _ Steady-new_id λ id _.
            Steady-lift IsPending
              (new_notification (item_input item channel priority correlation_id id) t)
              (new_is_pending (item_input item channel priority correlation_id id) t)

pub Steady-build_notifications :
    (items : List CreateBatchItem) (correlation_id : Text) (t : ℕ)
    → Steady (IsBuilt (length items)) (build_notifications items correlation_id t)
unfolding build_notifications
Steady-build_notifications [] correlation_id t = Steady-return (IsBuilt 0) [] (refl, tt)
Steady-build_notifications (item ∷ items) correlation_id t =
    let k = length items in
    Steady-bind IsPending (IsBuilt (suc k)) (build_notification item correlation_id t) _
      (Steady-build_notification item correlation_id t)
      λ n is_pending.
        Steady-bind (IsBuilt k) (IsBuilt (suc k)) (build_notifications items correlation_id t) _
          (Steady-build_notifications items correlation_id t)
          λ ns built.
            Steady-return (IsBuilt (suc k)) (n ∷ ns) (ap suc built.0, (is_pending, built.1))

Steady-correlation_for : (t : Text) → Steady Any (correlation_for t)
unfolding correlation_for
Steady-correlation_for t = go (is_empty t)
  where
    go : (b : Bool) → Steady Any (if b then new_id else return t)
    go true = Steady-new_id
    go false = Steady-return Any t tt

new_batch-size :
    (input : NewBatchInput) (t : ℕ) (b : Batch)
    → new_batch input t ≡ ok b
    → length b.notifications ≡ length input.notifications
new_batch-size input t b h =
    ap (λ (b : Batch). length b.notifications) (sym (new_batch_linked input t b h))
    ∙ length-link input.id input.notifications

Atomic-store_new :
    (r : Result Batch) (t k : ℕ)
    → ((b : Batch) → r ≡ ok b → length b.notifications ≡ k)
    → Atomic k (lift r >>= λ b. store_batch b t)
Atomic-store_new (ok b) t k h =
    subst (λ n. Atomic n (store_batch b t)) (h b refl) (Atomic-store_batch b t)
Atomic-store_new (err x) t k h = record { run = λ e w. inl refl }

Atomic-create_batch :
    (input : CreateBatchInput) → Atomic (length input.notifications) (create_batch input)
unfolding create_batch
Atomic-create_batch input =
    let k = length input.notifications in
    Atomic-after k Any (correlation_for input.correlation_id) _
      (Steady-correlation_for input.correlation_id)
      λ cid _. Atomic-after k Any now _ Steady-now λ t _.
        Atomic-after k (IsBuilt k) (build_notifications input.notifications cid t) _
          (Steady-build_notifications input.notifications cid t)
          λ ns built. Atomic-after k Any new_id _ Steady-new_id λ id _.
            Atomic-store_new
              (new_batch (record { id = id; correlation_id = cid; notifications = ns }) t) t k
              (λ b made.
                new_batch-size (record { id = id; correlation_id = cid; notifications = ns }) t b
                  made
                ∙ built.0)

-- One creation of a batch, in any state and with any sequence of failures. Where it returns, the table
-- has a row more for each item of the request. Where it fails, the table has as many rows as before,
-- or a row more for each item; never a part of them.
pub create_batch_atomic :
    (input : CreateBatchInput) (e : Env) (w : World)
    → IsAtomic (length input.notifications) w (create_batch input e w)
create_batch_atomic input e w = (Atomic-create_batch input).run e w
