-- ===== src/System/Arrows.antt =====
-- internal/application: what one statement of the interleaved service does to the rows of the table.
use event_driven_notificatio.Base.{
  ℕ, ◌≡◌, refl, sym, subst, ◌⊎◌, inl, inr, true, Option, none, some, Text, text_eq, Bool-cases,
}
use event_driven_notificatio.Domain.Status.{
  Status, pending, queued, processing, failed, retrying, cancelled, status_eq,
}
use event_driven_notificatio.Domain.Status.Machine.{
  ◌⟶◌, can_transition_to→⟶, enqueue, pick, pick_again, give_up, withdraw_pending, withdraw_queued,
  withdraw_retrying, status_eq→eq,
}
use event_driven_notificatio.Domain.Notification.{Notification, target, apply}
use event_driven_notificatio.Domain.Notification.Marks.{SameIdentity}
use event_driven_notificatio.Domain.Notification.Creation.{new_notification_iff}
use event_driven_notificatio.Store.{Table, find_row, claimable, claim_row, update_row, insert_row}
use event_driven_notificatio.Store.Claims.{
  IsKeyed, after_claim, after_update, claim_row-IsKeyed, update_row-IsKeyed, insert_row-IsKeyed,
  find_row-append,
}
use event_driven_notificatio.Ports.Rows.{
  SameIdentity-refl, claimed-same, written-same, claim_pointwise, update_pointwise,
}
use event_driven_notificatio.System.{
  State, verdict, Step, creates, reads, writes, leaves, claims, claims_unheard, sends, settles,
  dies, empty, Steps,
}
use event_driven_notificatio.System.Lists.{Takes-All}
use event_driven_notificatio.System.Slots.{Legal}
use event_driven_notificatio.System.Tables.{Holds, insert_is, insert_keeps}
use event_driven_notificatio.System.Invariant.{Inv, IsLegal, marked, reachable-Inv}

-- A row that is new is pending; one that was there stays as it is or takes one arrow of the diagram,
-- and keeps what identifies it.
abbrev pub RowStep : Option Notification → Option Notification → Type 0
RowStep none none = Unit
RowStep none (some r) = r.status ≡ pending
RowStep (some r) none = ⊥
RowStep (some r) (some s) = ((s ≡ r) ⊎ (r.status ⟶ s.status)) × SameIdentity s r

pub record Arrows (rows rows' : Table) : Type 0 where
  pub keyed : IsKeyed rows'
  pub row : (j : Text) → RowStep (find_row j rows) (find_row j rows')

RowStep-refl : (o : Option Notification) → RowStep o o
RowStep-refl none = tt
RowStep-refl (some r) = (inl refl, SameIdentity-refl r)

stays-Arrows : (rows : Table) → IsKeyed rows → Arrows rows rows
stays-Arrows rows k = record { keyed = k; row = λ j. RowStep-refl (find_row j rows) }

claimable-⟶ : (s : Status) → claimable s ≡ true → s ⟶ processing
unfolding claimable
claimable-⟶ queued h = pick
claimable-⟶ retrying h = pick_again
claimable-⟶ _ h = cc

claim-RowStep : (stamp : ℕ) (o : Option Notification) → RowStep o (after_claim stamp o)
claim-RowStep stamp none = tt
claim-RowStep stamp (some r) = elim (Bool-cases (claimable r.status)) [
  | inl c ↦ rw c (inr (claimable-⟶ r.status c), claimed-same stamp r)
  | inr c ↦ rw c (RowStep-refl (some r))
]

update-RowStep :
    (n : Notification) (expected : Status) (o : Option Notification)
    → expected ⟶ n.status
    → RowStep o (after_update n expected o)
update-RowStep n expected none p = tt
update-RowStep n expected (some r) p = elim (Bool-cases (status_eq r.status expected)) [
  | inl c ↦
      rw c (
        inr (subst (λ s. s ⟶ n.status) (sym (status_eq→eq r.status expected c)) p),
        written-same n r,
      )
  | inr c ↦ rw c (RowStep-refl (some r))
]

claim_row-Arrows :
    (id : Text) (stamp : ℕ) (rows : Table) → IsKeyed rows → Arrows rows (claim_row id stamp rows).0
claim_row-Arrows id stamp rows k = record {
  keyed = claim_row-IsKeyed id stamp rows k;
  row = claim_pointwise RowStep RowStep-refl id stamp rows k (claim-RowStep stamp);
}

update_row-Arrows :
    (n : Notification) (expected : Status) (rows : Table)
    → expected ⟶ n.status
    → IsKeyed rows
    → Arrows rows (update_row n expected rows).0
update_row-Arrows n expected rows p k = record {
  keyed = update_row-IsKeyed n expected rows k;
  row = update_pointwise RowStep RowStep-refl n expected rows k λ o. update-RowStep n expected o p;
}

insert-Arrows :
    (n : Notification) (rows rows' : Table)
    → insert_row n rows ≡ some rows'
    → n.status ≡ pending
    → IsKeyed rows
    → Arrows rows rows'
insert-Arrows n rows rows' stored s k = record {
  keyed = insert_row-IsKeyed n rows rows' stored k;
  row = λ j. go j (find_row j rows) refl;
}
  where
    go : (j : Text) (o : Option Notification) → find_row j rows ≡ o → RowStep o (find_row j rows')
    go j none e =
        rw (insert_is n rows rows' stored, find_row-append j n rows e)
          (elim (Bool-cases (text_eq n.id j)) [ inl same ↦ rw same s | inr other ↦ rw other tt ])
    go j (some r) e = rw (insert_keeps n rows rows' stored j r e) (RowStep-refl (some r))

Legal-⟶ : (e t : Status) (a : ℕ) → Legal e t a → e ⟶ t
Legal-⟶ pending queued a l = enqueue
Legal-⟶ pending cancelled a l = withdraw_pending
Legal-⟶ queued cancelled a l = withdraw_queued
Legal-⟶ retrying cancelled a l = withdraw_retrying
Legal-⟶ processing failed a l = give_up
Legal-⟶ _ _ a l = absurd l

Step-Arrows_from : {s u : State} → Step s u → Inv s → Arrows s.rows u.rows
Step-Arrows_from {s} (creates input t n rows made stored) v =
    insert-Arrows n s.rows rows stored (rw ((new_notification_iff input t n).0 made).1) v.keyed
Step-Arrows_from {s} (reads id mark t n found outside made) v = stays-Arrows s.rows v.keyed
Step-Arrows_from {s} (writes w ws took) v =
    update_row-Arrows w.entity w.expected s.rows
      (Legal-⟶ w.expected w.entity.status w.entity.attempts (Takes-All IsLegal took v.legal).0)
      v.keyed
Step-Arrows_from {s} (leaves w ws took) v = stays-Arrows s.rows v.keyed
Step-Arrows_from {s} (claims id t n got) v = claim_row-Arrows id t s.rows v.keyed
Step-Arrows_from {s} (claims_unheard id t n got) v = claim_row-Arrows id t s.rows v.keyed
Step-Arrows_from {s} (sends w ws result took asked) v = stays-Arrows s.rows v.keyed
Step-Arrows_from {s} (settles w ws t took made) v =
    let (arrow, mk) = marked (verdict w t) t w.copy made in
    let own = (Takes-All (Holds s.rows) took v.carried).0 in
    let way = can_transition_to→⟶ w.copy.status (target (verdict w t)) arrow in
    update_row-Arrows (apply (verdict w t) t w.copy).0 processing s.rows
      (subst (λ x. processing ⟶ x) (sym mk.status)
        (subst (λ x. x ⟶ target (verdict w t)) own.1 way))
      v.keyed
Step-Arrows_from {s} (dies w ws took) v = stays-Arrows s.rows v.keyed

-- From any state that the interleaved service can reach, each single statement of the API, a worker or
-- the reconciler, whatever older copies they hold, leaves every row as it is or moves it along exactly
-- one arrow of the documented diagram, keeps what identifies it, loses no row, keeps ids distinct, and
-- adds a row only as pending.
pub Step-Arrows : {s u : State} → Steps empty s → Step s u → Arrows s.rows u.rows
Step-Arrows path step = Step-Arrows_from step (reachable-Inv path)
