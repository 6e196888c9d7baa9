-- ===== src/System/Tables.antt =====
-- internal/adapters/postgres: what one statement leaves of the rows that workers hold and of the count
-- of claims.
use event_driven_notificatio.Base.{
  ℕ, ◌+◌, ◌≡◌, refl, sym, ap, subst, ◌∙◌, inl, inr, false, List, [], ◌∷◌, ◌++◌, Option, none, some,
  Text, text_eq, text_eq→eq, text_eq_refl, All, Bool-cases, arith,
}
use event_driven_notificatio.Domain.Status.{Status, pending, processing, status_eq}
use event_driven_notificatio.Domain.Notification.{Notification}
use event_driven_notificatio.Store.{Table, find_row, insert_row, claim_row, update_row, claimable}
use event_driven_notificatio.Store.Claims.{
  IsKeyed, insert_row-IsKeyed, after_claim, claim_result, after_update, find_row-claim_row_self,
  find_row-claim_row_other, find_row-update_row_self, find_row-update_row_other, find_row-append,
  find_row-append_some, conflicts→none, find_row_id,
}
use native.Mathlib.Nat.{zero-add}
use event_driven_notificatio.Domain.Status.Machine.{here}
use event_driven_notificatio.Ports.Rows.{Advances, RowMoves, RowMoves-refl}
use event_driven_notificatio.System.{Worker, held, count}
use event_driven_notificatio.System.Slots.{
  Carries, Counted, Legal, Carries-write, Carries-claim, Carries-busy, Counted-claim,
}

-- The row of a worker, and its copy.
abbrev pub Holds : Table → Worker → Type 0
Holds rows w = Carries (find_row w.copy.id rows) w.copy × (w.copy.status ≡ processing)

abbrev pub CountsOf : Table → List Text → Type 0
CountsOf rows ids = (j : Text) → Counted (find_row j rows) (count j ids)

-- What a copy says of the row with an id, at an equal id.
moved :
    {i j : Text} (rows : Table) (c : Notification)
    → i ≡ j
    → Carries (find_row i rows) c
    → Carries (find_row j rows) c
moved rows c e v = subst (λ x. Carries (find_row x rows) c) e v

text_eq_sym : (s t : Text) → text_eq t s ≡ false → text_eq s t ≡ false
text_eq_sym s t h = ground (arith, text_eq→eq s t, text_eq_refl t)

module _ (n : Notification) (rows rows' : Table) (inserted : insert_row n rows ≡ some rows') where
  insert_none : find_row n.id rows ≡ none
  unfolding insert_row
  insert_none = conflicts→none n rows (ground arith)

  pub insert_is : rows' ≡ rows ++ n ∷ []
  unfolding insert_row
  insert_is = ground arith

  kept :
      (c : Notification) (o : Option Notification)
      → find_row c.id rows ≡ o
      → Carries o c
      → Carries (find_row c.id rows') c
  kept c none e v = absurd v
  kept c (some r) e v = rw (insert_is, find_row-append_some c.id n r rows e) v

  counts :
      (j : Text) (o : Option Notification) (k : ℕ)
      → n.status ≡ pending
      → n.attempts ≡ 0
      → find_row j rows ≡ o
      → Counted o k
      → Counted (find_row j rows') k
  counts j (some r) k s a e c = rw (insert_is, find_row-append_some j n r rows e) c
  counts j none k s a e c =
      rw (insert_is, find_row-append j n rows e)
        (elim (Bool-cases (text_eq n.id j)) [
          | inl same ↦ rw (same, s) (a, c)
          | inr other ↦ rw other c
        ])

  pub insert_keeps :
      (j : Text) (r : Notification) → find_row j rows ≡ some r → find_row j rows' ≡ some r
  insert_keeps j r e = rw insert_is (find_row-append_some j n r rows e)

  pub insert-Holds : (ws : List Worker) → All (Holds rows) ws → All (Holds rows') ws
  insert-Holds [] h = tt
  insert-Holds (w ∷ ws) h =
      ((kept w.copy (find_row w.copy.id rows) refl h.0.0, h.0.1), insert-Holds ws h.1)

  pub insert-CountsOf :
      (ids : List Text)
      → n.status ≡ pending
      → n.attempts ≡ 0
      → CountsOf rows ids
      → CountsOf rows' ids
  insert-CountsOf ids s a c j = counts j (find_row j rows) (count j ids) s a refl (c j)

after_claim-result :
    (t : ℕ) (o : Option Notification) (n : Notification)
    → claim_result t o ≡ some n
    → after_claim t o ≡ some n
after_claim-result t none n h = cc
after_claim-result t (some r) n h = ground arith

module _ (id : Text) (t : ℕ) (n : Notification) (rows : Table) (k : IsKeyed rows)
    (got : (claim_row id t rows).1 ≡ some n) where
  claim_after : find_row id (claim_row id t rows).0 ≡ after_claim t (find_row id rows)
  claim_after = (find_row-claim_row_self id t rows k).0

  claim_got : claim_result t (find_row id rows) ≡ some n
  claim_got = sym (find_row-claim_row_self id t rows k).1 ∙ got

  claim_found : find_row id (claim_row id t rows).0 ≡ some n
  claim_found = claim_after ∙ after_claim-result t (find_row id rows) n claim_got

  pub claim_id : n.id ≡ id
  claim_id = find_row_id id (claim_row id t rows).0 n claim_found

  claim_apart : (w : Worker) → Holds rows w → text_eq w.copy.id id ≡ false
  claim_apart w h = elim (Bool-cases (text_eq w.copy.id id)) [
    | inl same ↦ absurd (
        Carries-busy t (find_row id rows) n w.copy claim_got
          (moved rows w.copy (text_eq→eq w.copy.id id same) h.0))
    | inr other ↦ other
  ]

  apart : (w : Worker) → Holds rows w → text_eq id w.copy.id ≡ false
  apart w h = text_eq_sym id w.copy.id (claim_apart w h)

  pub claim-Holds :
      (ws : List Worker) → All (Holds rows) ws → All (Holds (claim_row id t rows).0) ws
  claim-Holds [] h = tt
  claim-Holds (w ∷ ws) h = (
    ((rw (find_row-claim_row_other id w.copy.id t rows (apart w h.0)) h.0.0), h.0.1),
    claim-Holds ws h.1,
  )

  pub claim-held : (ws : List Worker) → All (Holds rows) ws → held id ws ≡ 0
  claim-held [] h = refl
  claim-held (w ∷ ws) h = rw (claim_apart w h.0) (omega (arith, claim-held ws h.1))

  pub claim-Holds_self : Holds (claim_row id t rows).0 (record { copy = n; answer = none })
  claim-Holds_self =
      let (busy, status) = Carries-claim t (find_row id rows) n claim_got in
      let here : Carries (find_row id (claim_row id t rows).0) n = rw claim_after busy in
      (moved (claim_row id t rows).0 n (sym claim_id) here, status)

  pub claim-CountsOf :
      (ids : List Text) → CountsOf rows ids → CountsOf (claim_row id t rows).0 (id ∷ ids)
  claim-CountsOf ids c j = elim (Bool-cases (text_eq id j)) [
    | inl same ↦
        let now : Counted (find_row id (claim_row id t rows).0) (1 + count id ids) =
          rw claim_after (Counted-claim t (count id ids) (find_row id rows) n claim_got (c id)) in
        let there : Counted (find_row j (claim_row id t rows).0) (1 + count j ids) =
          subst (λ x. Counted (find_row x (claim_row id t rows).0) (1 + count x ids))
            (text_eq→eq id j same) now in
        rw same there
    | inr other ↦ rw (other, zero-add, find_row-claim_row_other id j t rows other) (c j)
  ]

module _ (m : Notification) (e : Status) (rows : Table) (k : IsKeyed rows) where
  written :
      (w : Worker)
      → (m.id ≡ w.copy.id → Legal e m.status m.attempts)
      → Holds rows w
      → m.id ≡ w.copy.id
      → Carries (find_row w.copy.id (update_row m e rows).0) w.copy
  written w l h is =
      let before : Carries (find_row m.id rows) w.copy = moved rows w.copy (sym is) h.0 in
      let after : Carries (find_row m.id (update_row m e rows).0) w.copy =
        rw (find_row-update_row_self m e rows k).0
          (Carries-write m w.copy e (find_row m.id rows) (l is) before) in
      moved (update_row m e rows).0 w.copy is after

  pub update-Holds :
      (w : Worker)
      → (m.id ≡ w.copy.id → Legal e m.status m.attempts)
      → Holds rows w
      → Holds (update_row m e rows).0 w
  update-Holds w l h = elim (Bool-cases (text_eq m.id w.copy.id)) [
    | inl same ↦ (written w l h (text_eq→eq m.id w.copy.id same), h.1)
    | inr other ↦ (rw (find_row-update_row_other m e w.copy.id rows other) h.0, h.1)
  ]

  pub update-CountsOf :
      (ids : List Text)
      → (Counted (find_row m.id rows) (count m.id ids)
          → Counted (after_update m e (find_row m.id rows)) (count m.id ids))
      → CountsOf rows ids
      → CountsOf (update_row m e rows).0 ids
  update-CountsOf ids step c j = elim (Bool-cases (text_eq m.id j)) [
    | inl same ↦
        let now : Counted (find_row m.id (update_row m e rows).0) (count m.id ids) =
          rw (find_row-update_row_self m e rows k).0 (step (c m.id)) in
        subst (λ x. Counted (find_row x (update_row m e rows).0) (count x ids))
          (text_eq→eq m.id j same) now
    | inr other ↦ rw (find_row-update_row_other m e j rows other) (c j)
  ]

-- A statement leaves a row that it does not match.
pub claim_refused :
    (id : Text) (t : ℕ) (n : Notification) (rows : Table) (j : Text) (r : Notification)
    → IsKeyed rows
    → (claim_row id t rows).1 ≡ some n
    → find_row j rows ≡ some r
    → claimable r.status ≡ false
    → (text_eq id j ≡ false) × (find_row j (claim_row id t rows).0 ≡ some r)
claim_refused id t n rows j r k got found no_claim = elim (Bool-cases (text_eq id j)) [
  | inr other ↦ (other, find_row-claim_row_other id j t rows other ∙ found)
  | inl same ↦
      let there : find_row id rows ≡ some r = rw (text_eq→eq id j same) found in
      let result : some n ≡ claim_result t (some r) =
        sym got ∙ (find_row-claim_row_self id t rows k).1 ∙ ap (claim_result t) there in
      absurd (ground arith)
]

pub update_refused :
    (m : Notification) (e : Status) (rows : Table) (j : Text) (r : Notification)
    → IsKeyed rows
    → find_row j rows ≡ some r
    → status_eq r.status e ≡ false
    → find_row j (update_row m e rows).0 ≡ some r
update_refused m e rows j r k found differs = elim (Bool-cases (text_eq m.id j)) [
  | inr other ↦ find_row-update_row_other m e j rows other ∙ found
  | inl same ↦
      let is = text_eq→eq m.id j same in
      let there : find_row m.id rows ≡ some r =
        subst (λ x. find_row x rows ≡ some r) (sym is) found in
      let after : find_row m.id (update_row m e rows).0 ≡ some r =
        (find_row-update_row_self m e rows k).0 ∙ ap (after_update m e) there ∙ stays in
      subst (λ x. find_row x (update_row m e rows).0 ≡ some r) is after
]
  where
    stays : after_update m e (some r) ≡ some r
    stays = rw differs

-- A new row is pending.
pub insert-Advances :
    (n : Notification) (rows rows' : Table)
    → insert_row n rows ≡ some rows'
    → n.status ≡ pending
    → Advances rows rows'
insert-Advances n rows rows' stored s k = record {
  keyed = insert_row-IsKeyed n rows rows' stored k;
  row = λ j. moves j (find_row j rows) refl;
}
  where
    moves :
        (j : Text) (o : Option Notification) → find_row j rows ≡ o → RowMoves o (find_row j rows')
    moves j none e =
        rw (insert_is n rows rows' stored, find_row-append j n rows e)
          (elim (Bool-cases (text_eq n.id j)) [
            | inl same ↦ rw (same, s) here
            | inr other ↦ rw other tt
          ])
    moves j (some r) e = rw (insert_keeps n rows rows' stored j r e) (RowMoves-refl (some r))
