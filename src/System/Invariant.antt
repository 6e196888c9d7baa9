-- ===== src/System/Invariant.antt =====
-- internal/application: the invariant of the interleaved service, kept by every step.
use event_driven_notificatio.Base.{
  ℕ, ◌+◌, ◌≤◌, ◌≡◌, refl, sym, ap, subst, ◌∙◌, inl, inr, Bool, true, false, not, ◌||◌, List, [],
  ◌∷◌, Option, none, some, Text, text_eq, text_eq→eq, text_eq_refl, All, Bool-cases, if◌then◌else◌,
  leb, arith,
}
use event_driven_notificatio.Domain.Status.{
  Status, pending, queued, processing, retrying, can_transition_to,
}
use event_driven_notificatio.Domain.Delivery.{DeliveryResult}
use event_driven_notificatio.Domain.Notification.{
  Notification, NewNotificationInput, initial, Mark, queue, target, apply,
}
use event_driven_notificatio.Domain.Notification.Marks.{Marked, apply_lem, attempts_after}
use event_driven_notificatio.Domain.Notification.Creation.{new_notification_iff}
use event_driven_notificatio.Store.{find_row, claim_row, update_row}
use event_driven_notificatio.Store.Claims.{
  IsKeyed, claim_row-IsKeyed, update_row-IsKeyed, insert_row-IsKeyed,
}
use event_driven_notificatio.Retry.{max_attempts}
use event_driven_notificatio.System.{
  Worker, Writer, State, Takes, IsOutside, enqueued, withdrawn, timed_out, verdict, Step, creates,
  reads, writes, leaves, claims, claims_unheard, sends, settles, dies, empty, Steps, done,
  then_step, held, unasked, unsent, count,
}
use event_driven_notificatio.System.Lists.{Takes-All, held-Takes, unsent-Takes, held_none}
use event_driven_notificatio.System.Slots.{
  Carries, Counts, Counted, Legal, IsVerdict, Counted-write, Counted-settle,
}
use event_driven_notificatio.System.Tables.{
  Holds, CountsOf, insert-Holds, insert-CountsOf, claim_id, claim-Holds, claim-held,
  claim-Holds_self, claim-CountsOf, update-Holds, update-CountsOf,
}

abbrev pub IsLegal : Writer → Type 0
IsLegal w = Legal w.expected w.entity.status w.entity.attempts

pub record Inv (s : State) : Type 0 where
  pub keyed : IsKeyed s.rows
  -- A worker's row is as it claimed it, or was given up.
  pub carried : All (Holds s.rows) s.workers
  -- One worker holds a row.
  pub alone : (j : Text) → held j s.workers ≤ 1
  -- A message is paid for by a claim.
  pub paid : (j : Text) → unsent j s.workers + count j s.sent ≤ count j s.claimed
  pub counted : CountsOf s.rows s.claimed
  pub legal : All IsLegal s.writers

empty-Inv : Inv empty
unfolding find_row
empty-Inv = record {
  keyed = tt;
  carried = tt;
  alone = λ j. omega arith;
  paid = λ j. omega arith;
  counted = λ j. refl;
  legal = tt;
}

All-map {ℓ κ κ'} :
    {A : Type ℓ} {P : A → Type κ} {Q : A → Type κ'}
    → ((x : A) → P x → Q x)
    → (xs : List A) → All P xs
    → All Q xs
All-map f [] h = tt
All-map f (x ∷ xs) h = (f x h.0, All-map f xs h.1)

-- A mark that was made.
pub marked :
    (mark : Mark) (t : ℕ) (n : Notification)
    → (apply mark t n).1 ≡ none
    → (can_transition_to n.status (target mark) ≡ true) × Marked mark t n (apply mark t n).0
marked mark t n h = elim (apply_lem mark t n) [
  | inl (arrow, made, m) ↦ (arrow, m)
  | inr (refused, same) ↦ absurd (cc (ap (λ (x : Notification × Option _). x.1) same))
]

outside-Legal :
    {mark : Mark} (s : Status) (a k : ℕ)
    → IsOutside mark
    → can_transition_to s (target mark) ≡ true
    → Counts s a k
    → Legal s (target mark) (attempts_after mark a)
unfolding can_transition_to target
outside-Legal pending a k enqueued arrow c = c.0
outside-Legal _ a k enqueued arrow c = cc
outside-Legal pending a k withdrawn arrow c = tt
outside-Legal queued a k withdrawn arrow c = tt
outside-Legal retrying a k withdrawn arrow c = tt
outside-Legal _ a k withdrawn arrow c = cc
outside-Legal processing a k timed_out arrow c = tt
outside-Legal _ a k timed_out arrow c = cc

-- A mark of a worker.
abbrev IsSettling : Mark → ℕ → Type 0
IsSettling mark a = IsVerdict (target mark) × (attempts_after mark a ≡ a)

if-IsSettling :
    (b : Bool) (x y : Mark) (a : ℕ)
    → IsSettling x a
    → IsSettling y a
    → IsSettling (if b then x else y) a
if-IsSettling true x y a h k = h
if-IsSettling false x y a h k = k

verdict-IsSettling : (w : Worker) (t a : ℕ) → IsSettling (verdict w t) a
unfolding target
verdict-IsSettling w t a =
    elim w.answer as (λ o. IsSettling (verdict (record w { answer = o }) t) a) [
      | none ↦ (tt, refl)
      | some r ↦
          if-IsSettling r.success _ _ a (tt, refl)
            (if-IsSettling (not r.retryable || leb max_attempts w.copy.attempts) _ _ a (tt, refl)
              (tt, refl))
    ]

-- The mark that a step of another use case makes, on a row of a state with the invariant.
reads-IsLegal :
    (s : State) (id : Text) (mark : Mark) (t : ℕ) (n : Notification)
    → Inv s
    → find_row id s.rows ≡ some n
    → IsOutside mark
    → (apply mark t n).1 ≡ none
    → IsLegal (record { entity = (apply mark t n).0; expected = n.status })
reads-IsLegal s id mark t n v found outside made =
    let (arrow, m) = marked mark t n made in
    let c : Counted (some n) (count id s.claimed) =
      subst (λ o. Counted o (count id s.claimed)) found (v.counted id) in
    rw (m.status, m.attempts)
      (outside-Legal n.status n.attempts (count id s.claimed) outside arrow c)

creates-IsLegal :
    (input : NewNotificationInput) (t : ℕ)
    → IsLegal (record { entity = (apply queue t (initial input t)).0; expected = pending })
unfolding apply can_transition_to
creates-IsLegal input t = refl

module _ (s : State) (id : Text) (t : ℕ) (n : Notification) (v : Inv s)
    (got : (claim_row id t s.rows).1 ≡ some n) where
  claims_alone : (j : Text) → held j (record { copy = n; answer = none } ∷ s.workers) ≤ 1
  claims_alone j = elim (Bool-cases (text_eq n.id j)) [
    | inl same ↦
        let is : id ≡ j = sym (claim_id id t n s.rows v.keyed got) ∙ text_eq→eq n.id j same in
        let free : held j s.workers ≡ 0 =
          subst (λ x. held x s.workers ≡ 0) is
            (claim-held id t n s.rows v.keyed got s.workers v.carried) in
        rw (same, free) (omega arith)
    | inr other ↦ rw other (omega (arith, v.alone j))
  ]

  claims_paid :
      (j : Text)
      → unsent j (record { copy = n; answer = none } ∷ s.workers) + count j s.sent
        ≤ count j (id ∷ s.claimed)
  claims_paid j = ground (arith, claim_id id t n s.rows v.keyed got, v.paid j)

module _ (s : State) (w : Worker) (ws : List Worker) (result : DeliveryResult) (v : Inv s) where
  sends_paid :
      Takes w s.workers ws
      → w.answer ≡ none
      → (j : Text)
      → unsent j (record w { answer = some result } ∷ ws) + count j (w.copy.id ∷ s.sent)
        ≤ count j s.claimed
  sends_paid took asked j =
      let fresh : unasked w ≡ true = rw asked in ground (arith, unsent-Takes j took, v.paid j)

module _ (s : State) (w : Worker) (ws : List Worker) (t : ℕ) (v : Inv s)
    (took : Takes w s.workers ws) where
  -- No other worker holds the row.
  others_apart : All (λ (x : Worker). text_eq x.copy.id w.copy.id ≡ false) ws
  others_apart =
      held_none w.copy.id ws (omega (arith, v.alone w.copy.id, held-Takes w.copy.id took, self))
    where
      self : ◌≡◌ {A = ℕ} (if text_eq w.copy.id w.copy.id then 1 else 0) 1
      self = rw (text_eq_refl w.copy.id)

  settle_others :
      (m : Notification)
      → m.id ≡ w.copy.id
      → (xs : List Worker) → All (λ (x : Worker). text_eq x.copy.id w.copy.id ≡ false) xs
      → All (Holds s.rows) xs
      → All (Holds (update_row m processing s.rows).0) xs
  settle_others m is [] apart h = tt
  settle_others m is (x ∷ xs) apart h = (
    update-Holds m processing s.rows v.keyed x
        (λ e.
          absurd (cc (apart.0, ap (λ i. text_eq i w.copy.id) (sym e ∙ is), text_eq_refl w.copy.id)))
        h.0,
    settle_others m is xs apart.1 h.1,
  )

  settles-Inv :
      (apply (verdict w t) t w.copy).1 ≡ none
      → Inv (record s {
        rows = (update_row (apply (verdict w t) t w.copy).0 processing s.rows).0;
        workers = ws;
      })
  settles-Inv made =
      let m = (apply (verdict w t) t w.copy).0 in
      let (arrow, mk) = marked (verdict w t) t w.copy made in
      let (own, others) = Takes-All (Holds s.rows) took v.carried in
      let (final, kept) = verdict-IsSettling w t w.copy.attempts in
      record {
        keyed = update_row-IsKeyed m processing s.rows v.keyed;
        carried = settle_others m mk.same.id ws others_apart others;
        alone = λ j. omega (arith, v.alone j, held-Takes j took);
        paid = λ j. omega (arith, v.paid j, unsent-Takes j took);
        counted =
            update-CountsOf m processing s.rows v.keyed s.claimed
              (λ c.
                Counted-settle m w.copy (find_row m.id s.rows) (count m.id s.claimed)
                  (subst IsVerdict (sym mk.status) final) (mk.attempts ∙ kept)
                  (subst (λ i. Carries (find_row i s.rows) w.copy) (sym mk.same.id) own.0) c)
              v.counted;
        legal = v.legal;
      }

pub Step-Inv : {s u : State} → Step s u → Inv s → Inv u
Step-Inv {s} (creates input t n rows made stored) v =
    let fresh : n ≡ initial input t = ((new_notification_iff input t n).0 made).1 in
    record {
      keyed = insert_row-IsKeyed n s.rows rows stored v.keyed;
      carried = insert-Holds n s.rows rows stored s.workers v.carried;
      alone = v.alone;
      paid = v.paid;
      counted = insert-CountsOf n s.rows rows stored s.claimed (rw fresh) (rw fresh) v.counted;
      legal = (rw fresh (creates-IsLegal input t), v.legal);
    }
Step-Inv {s} (reads id mark t n found outside made) v = record {
  keyed = v.keyed;
  carried = v.carried;
  alone = v.alone;
  paid = v.paid;
  counted = v.counted;
  legal = (reads-IsLegal s id mark t n v found outside made, v.legal);
}
Step-Inv {s} (writes w ws took) v =
    let (allowed, others) = Takes-All IsLegal took v.legal in
    record {
      keyed = update_row-IsKeyed w.entity w.expected s.rows v.keyed;
      carried =
          All-map (λ x h. update-Holds w.entity w.expected s.rows v.keyed x (λ _. allowed) h)
            s.workers v.carried;
      alone = v.alone;
      paid = v.paid;
      counted =
          update-CountsOf w.entity w.expected s.rows v.keyed s.claimed
            (λ c.
              Counted-write w.entity w.expected (find_row w.entity.id s.rows)
                (count w.entity.id s.claimed) allowed c)
            v.counted;
      legal = others;
    }
Step-Inv {s} (leaves w ws took) v = record {
  keyed = v.keyed;
  carried = v.carried;
  alone = v.alone;
  paid = v.paid;
  counted = v.counted;
  legal = (Takes-All IsLegal took v.legal).1;
}
Step-Inv {s} (claims id t n got) v = record {
  keyed = claim_row-IsKeyed id t s.rows v.keyed;
  carried = (
    claim-Holds_self id t n s.rows v.keyed got,
    claim-Holds id t n s.rows v.keyed got s.workers v.carried,
  );
  alone = λ j. claims_alone s id t n v got j;
  paid = λ j. claims_paid s id t n v got j;
  counted = claim-CountsOf id t n s.rows v.keyed got s.claimed v.counted;
  legal = v.legal;
}
Step-Inv {s} (claims_unheard id t n got) v = record {
  keyed = claim_row-IsKeyed id t s.rows v.keyed;
  carried = claim-Holds id t n s.rows v.keyed got s.workers v.carried;
  alone = v.alone;
  paid = λ j. omega (arith, v.paid j);
  counted = claim-CountsOf id t n s.rows v.keyed got s.claimed v.counted;
  legal = v.legal;
}
Step-Inv {s} (sends w ws result took asked) v =
    let (own, others) = Takes-All (Holds s.rows) took v.carried in
    record {
      keyed = v.keyed;
      carried = (own, others);
      alone = λ j. omega (arith, v.alone j, held-Takes j took);
      paid = λ j. sends_paid s w ws result v took asked j;
      counted = v.counted;
      legal = v.legal;
    }
Step-Inv {s} (settles w ws t took made) v = settles-Inv s w ws t v took made
Step-Inv {s} (dies w ws took) v = record {
  keyed = v.keyed;
  carried = (Takes-All (Holds s.rows) took v.carried).1;
  alone = λ j. omega (arith, v.alone j, held-Takes j took);
  paid = λ j. omega (arith, v.paid j, unsent-Takes j took);
  counted = v.counted;
  legal = v.legal;
}

pub Steps-Inv : {s u : State} → Steps s u → Inv s → Inv u
Steps-Inv done v = v
Steps-Inv (then_step path step) v = Step-Inv step (Steps-Inv path v)

pub reachable-Inv : {s : State} → Steps empty s → Inv s
reachable-Inv path = Steps-Inv path empty-Inv
