-- ===== src/Batching/Safety.antt =====
-- internal/application/create_batch.go: what the creation of a batch does to the rows of the table.
use event_driven_notificatio.Base.{
  ℕ, ◌≡◌, refl, subst, List, [], ◌∷◌, Option, none, some, Text, All, if◌then◌else◌, Bool-cases, inl,
  inr,
}
use event_driven_notificatio.Domain.Errors.{Result, ok, err}
use event_driven_notificatio.Domain.Channel.{new_channel, new_priority}
use event_driven_notificatio.Domain.Status.{pending}
use event_driven_notificatio.Domain.Status.Machine
use event_driven_notificatio.Domain.Notification.{
  Notification, Mark, apply, target, new_notification,
}
use event_driven_notificatio.Domain.Batch.{Batch, new_batch, link}
use event_driven_notificatio.Domain.Batch.Summary.{new_batch_linked}
use event_driven_notificatio.Domain.Log
use event_driven_notificatio.Store.{Table, insert_row}
use event_driven_notificatio.Ports.{
  Env, World, Outcome, returns, raises, final, M, ◌>>=◌, ◌>>◌, return, lift, now, new_id,
  append_event, enqueue, emit, notification_created,
}
use event_driven_notificatio.Ports.Rows.{Advances, Advances-refl, Advances-trans}
use event_driven_notificatio.Ports.Safe.{
  Safe, Safe-bind, Safe-return, Safe-fail, Safe-call, Safe-now, Safe-new_id, Safe-lift, Safe-marked,
  Safe-append_event, Safe-enqueue, Safe-emit,
}
use event_driven_notificatio.Ports.Steady.{Steady, IsSteady}
use event_driven_notificatio.System.Tables.{insert-Advances}
use event_driven_notificatio.Create.{correlation_for}
use event_driven_notificatio.Create.Safety.{Safe-correlation_for}
use event_driven_notificatio.Batching.{
  CreateBatchItem, CreateBatchInput, insert_all, has_batch, batch_tables, committed,
  repo_create_batch, item_input, build_notification, build_notifications, enqueue_member,
  enqueue_members, store_batch, create_batch,
}
use event_driven_notificatio.Batching.Atomic.{IsPending, IsBuilt, Steady-build_notifications}
use event_driven_notificatio.Base.{length}

-- What is known of a returned value is known to what follows.
Safe-bind_knowing {ℓ κ} :
    {A : Type ℓ} {B : Type κ} (P : A → Type 0) (m : M A) (f : A → M B)
    → Safe m
    → Steady P m
    → ((a : A) → P a → Safe (f a))
    → Safe (m >>= f)
Safe-bind_knowing {A = A} P m f p s q = record {
  run = λ e w. go e w (m e w) (p.run e w) (s.run e w);
}
  where
    go :
        (e : Env) (w : World) (o : Outcome A)
        → Advances w.rows (final o).rows
        → IsSteady P w o
        → Advances w.rows
            (final (elim o [ returns a w' ↦ f a e w' | raises x w' ↦ raises x w' ])).rows
    go e w (returns a w') h k = Advances-trans w.rows w'.rows _ h ((q a k.0).run e w')
    go e w (raises x w') h k = h

some-injective {ℓ} : {A : Type ℓ} {x y : A} → some x ≡ some y → x ≡ y
some-injective h = cc

insert_all-Advances :
    (ns : List Notification) (rows rows' : Table)
    → All IsPending ns
    → insert_all ns rows ≡ some rows'
    → Advances rows rows'
unfolding insert_all
insert_all-Advances [] rows rows' v h =
    subst (Advances rows) (some-injective h) (Advances-refl rows)
insert_all-Advances (n ∷ ns) rows rows' v h =
    go (insert_row n rows) refl h (λ q. insert_all-Advances ns q rows' v.1)
  where
    go :
        (o : Option Table)
        → insert_row n rows ≡ o
        → elim o [ none ↦ none | some q ↦ insert_all ns q ] ≡ some rows'
        → ((q : Table) → insert_all ns q ≡ some rows' → Advances q rows')
        → Advances rows rows'
    go none e k ih = cc
    go (some q) e k ih = Advances-trans rows q rows' (insert-Advances n rows q e v.0) (ih q k)

Safe-repo_create_batch : (b : Batch) → All IsPending b.notifications → Safe (repo_create_batch b)
unfolding repo_create_batch batch_tables
Safe-repo_create_batch b v =
    Safe-call (λ e w. committed b (batch_tables b w) w)
      (λ e w. go w (batch_tables b w) (advances w))
  where
    advances :
        (w : World) (rows : Table)
        → (if has_batch b.id w.batches then none else insert_all b.notifications w.rows) ≡ some rows
        → Advances w.rows rows
    advances w rows h = elim (Bool-cases (has_batch b.id w.batches)) [
      | inl e ↦ cc (rw e at h)
      | inr e ↦ insert_all-Advances b.notifications w.rows rows v (rw e at h)
    ]

    go :
        (w : World) (o : Option Table)
        → ((rows : Table) → o ≡ some rows → Advances w.rows rows)
        → Advances w.rows (final (committed b o w)).rows
    go w none h = Advances-refl w.rows
    go w (some rows) h = h rows refl

Safe-enqueue_member : (n : Notification) (t : ℕ) → Safe (enqueue_member n t)
unfolding enqueue_member apply target
Safe-enqueue_member n t =
    Safe-bind (append_event n Log.created t) _ (Safe-append_event n Log.created t) λ _.
      Safe-bind (enqueue n.id n.priority n.idempotency_key) _
        (Safe-enqueue n.id n.priority n.idempotency_key)
        λ _.
          Safe-marked Mark.queue t n pending
            (λ m.
              append_event m Log.queued t
              >> (emit (notification_created m.channel m.priority) >> return m))
            (λ h. Machine.enqueue)
            (λ m. Safe-bind (append_event m Log.queued t) _ (Safe-append_event m Log.queued t) λ _.
              Safe-bind (emit (notification_created m.channel m.priority)) _ (Safe-emit _)
                λ _. Safe-return m)

Safe-enqueue_members : (ns : List Notification) (t : ℕ) → Safe (enqueue_members ns t)
unfolding enqueue_members
Safe-enqueue_members [] t = Safe-return []
Safe-enqueue_members (n ∷ ns) t =
    Safe-bind (enqueue_member n t) _ (Safe-enqueue_member n t)
      λ m. Safe-bind (enqueue_members ns t) _ (Safe-enqueue_members ns t) λ ms. Safe-return (m ∷ ms)

Safe-store_batch : (b : Batch) (t : ℕ) → All IsPending b.notifications → Safe (store_batch b t)
unfolding store_batch
Safe-store_batch b t v = Safe-bind (repo_create_batch b) _ (Safe-repo_create_batch b v) λ _.
    Safe-bind (enqueue_members b.notifications t) _ (Safe-enqueue_members b.notifications t)
      λ ms. Safe-return (record b { notifications = ms })

Safe-build_notifications :
    (items : List CreateBatchItem) (correlation_id : Text) (t : ℕ)
    → Safe (build_notifications items correlation_id t)
unfolding build_notifications build_notification
Safe-build_notifications [] correlation_id t = Safe-return []
Safe-build_notifications (item ∷ items) correlation_id t =
    Safe-bind (build_notification item correlation_id t) _ built λ n.
      Safe-bind (build_notifications items correlation_id t) _
        (Safe-build_notifications items correlation_id t) λ ns. Safe-return (n ∷ ns)
  where
    built : Safe (build_notification item correlation_id t)
    built = Safe-bind (lift (new_channel item.channel)) _ (Safe-lift _) λ c.
        Safe-bind (lift (new_priority item.priority)) _ (Safe-lift _) λ p.
          Safe-bind new_id _ Safe-new_id
            λ id. Safe-lift (new_notification (item_input item c p correlation_id id) t)

link-IsPending :
    (id : Text) (ns : List Notification) → All IsPending ns → All IsPending (link id ns)
link-IsPending id [] v = tt
link-IsPending id (n ∷ ns) v = (v.0, link-IsPending id ns v.1)

Safe-store_new :
    (r : Result Batch) (t : ℕ)
    → ((b : Batch) → r ≡ ok b → All IsPending b.notifications)
    → Safe (lift r >>= λ b. store_batch b t)
Safe-store_new (ok b) t h = Safe-store_batch b t (h b refl)
Safe-store_new (err x) t h = Safe-fail Batch x

pub Safe-create_batch : (input : CreateBatchInput) → Safe (create_batch input)
unfolding create_batch
Safe-create_batch input =
    Safe-bind (correlation_for input.correlation_id) _ (Safe-correlation_for input.correlation_id)
      λ cid. Safe-bind now _ Safe-now λ t.
        Safe-bind_knowing (IsBuilt (length input.notifications))
          (build_notifications input.notifications cid t) _
          (Safe-build_notifications input.notifications cid t)
          (Steady-build_notifications input.notifications cid t)
          λ ns built. Safe-bind new_id _ Safe-new_id λ id.
            Safe-store_new
              (new_batch (record { id = id; correlation_id = cid; notifications = ns }) t) t
              (λ b e.
                subst (λ (b : Batch). All IsPending b.notifications)
                  (new_batch_linked (record { id = id; correlation_id = cid; notifications = ns }) t
                    b e)
                  (link-IsPending id ns built.1))
