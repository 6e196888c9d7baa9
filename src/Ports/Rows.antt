-- ===== src/Ports/Rows.antt =====
-- internal/ports/ports.go: how one action may change the notifications table. `Safe` actions move
-- each row only to a status that the arrows of the state machine reach, keep what identifies it, and keep the ids distinct, whatever
-- calls fail; the rules below say so of each port and of their composition.
use event_driven_notificatio.Base.{
  ℕ, ◌≡◌, refl, sym, subst, ◌∙◌, inl, inr, true, Option, none, some, Text, text_eq, text_eq→eq,
  Bool-cases, arith,
}
use event_driven_notificatio.Domain.Status.{
  Status, pending, queued, processing, retrying, status_eq,
}
use event_driven_notificatio.Domain.Status.Machine.{
  ◌⟶*◌, here, next, ⟶*-trans, pick, pick_again, status_eq→eq,
}
use event_driven_notificatio.Domain.Notification.{Notification}
use event_driven_notificatio.Domain.Notification.Marks.{SameIdentity}
use event_driven_notificatio.Store.{
  Table, find_row, claimable, claimed, claim_row, written, update_row,
}
use event_driven_notificatio.Store.Claims.{
  IsKeyed, after_claim, after_update, find_row-claim_row_self, find_row-claim_row_other,
  find_row-update_row_self, find_row-update_row_other, claim_row-IsKeyed, update_row-IsKeyed,
}

-- What may become of one row.
abbrev pub RowMoves : Option Notification → Option Notification → Type 0
RowMoves none none = Unit
RowMoves none (some r) = pending ⟶* r.status
RowMoves (some r) none = ⊥
RowMoves (some r) (some s) = (r.status ⟶* s.status) × SameIdentity s r

pub SameIdentity-refl : (n : Notification) → SameIdentity n n
SameIdentity-refl n = record {
  id = refl;
  batch_id = refl;
  idempotency_key = refl;
  correlation_id = refl;
  channel = refl;
  priority = refl;
  recipient = refl;
  content = refl;
  scheduled_at = refl;
  template_id = refl;
  created_at = refl;
}

pub SameIdentity-trans :
    (l m n : Notification) → SameIdentity m l → SameIdentity n m → SameIdentity n l
SameIdentity-trans l m n p q = record {
  id = q.id ∙ p.id;
  batch_id = q.batch_id ∙ p.batch_id;
  idempotency_key = q.idempotency_key ∙ p.idempotency_key;
  correlation_id = q.correlation_id ∙ p.correlation_id;
  channel = q.channel ∙ p.channel;
  priority = q.priority ∙ p.priority;
  recipient = q.recipient ∙ p.recipient;
  content = q.content ∙ p.content;
  scheduled_at = q.scheduled_at ∙ p.scheduled_at;
  template_id = q.template_id ∙ p.template_id;
  created_at = q.created_at ∙ p.created_at;
}

pub RowMoves-refl : (o : Option Notification) → RowMoves o o
RowMoves-refl none = tt
RowMoves-refl (some r) = (here, SameIdentity-refl r)

RowMoves-trans : (a b c : Option Notification) → RowMoves a b → RowMoves b c → RowMoves a c
RowMoves-trans none none none p q = tt
RowMoves-trans none none (some t) p q = q
RowMoves-trans none (some s) none p q = absurd q
RowMoves-trans none (some s) (some t) p q = ⟶*-trans p q.0
RowMoves-trans (some r) none c p q = absurd p
RowMoves-trans (some r) (some s) none p q = absurd q
RowMoves-trans (some r) (some s) (some t) p q = (⟶*-trans p.0 q.0, SameIdentity-trans r s t p.1 q.1)

pub record Moves (rows rows' : Table) : Type 0 where
  pub keyed : IsKeyed rows'
  pub row : (j : Text) → RowMoves (find_row j rows) (find_row j rows')

abbrev pub Advances : Table → Table → Type 0
Advances rows rows' = IsKeyed rows → Moves rows rows'

pub Advances-refl : (rows : Table) → Advances rows rows
Advances-refl rows k = record { keyed = k; row = λ j. RowMoves-refl (find_row j rows) }

pub Advances-trans : (a b c : Table) → Advances a b → Advances b c → Advances a c
Advances-trans a b c p q k = record {
  keyed = (q (p k).keyed).keyed;
  row = λ j.
      RowMoves-trans (find_row j a) (find_row j b) (find_row j c) ((p k).row j)
        ((q (p k).keyed).row j);
}

claimable-⟶* : (s : Status) → claimable s ≡ true → s ⟶* processing
unfolding claimable
claimable-⟶* queued h = next here pick
claimable-⟶* retrying h = next here pick_again
claimable-⟶* _ h = cc

pub claimed-same : (stamp : ℕ) (r : Notification) → SameIdentity (claimed stamp r) r
claimed-same stamp r = ground arith

pub written-same : (n r : Notification) → SameIdentity (written n r) r
written-same n r = ground arith

claim-RowMoves : (stamp : ℕ) (o : Option Notification) → RowMoves o (after_claim stamp o)
claim-RowMoves stamp none = tt
claim-RowMoves stamp (some r) = elim (Bool-cases (claimable r.status)) [
  | inl c ↦ rw c (claimable-⟶* r.status c, claimed-same stamp r)
  | inr c ↦ rw c (RowMoves-refl (some r))
]

update-RowMoves :
    (n : Notification) (expected : Status) (o : Option Notification)
    → expected ⟶* n.status
    → RowMoves o (after_update n expected o)
update-RowMoves n expected none p = tt
update-RowMoves n expected (some r) p = elim (Bool-cases (status_eq r.status expected)) [
  | inl c ↦
      rw c (subst (λ s. s ⟶* n.status) (sym (status_eq→eq r.status expected c)) p, written-same n r)
  | inr c ↦ rw c (RowMoves-refl (some r))
]

-- What holds of the row of the id, before and after, and of every row that stays, holds of all.
pub claim_pointwise :
    (R : Option Notification → Option Notification → Type 0)
    → ((o : Option Notification) → R o o)
    → (id : Text) (stamp : ℕ) (rows : Table) → IsKeyed rows
    → ((o : Option Notification) → R o (after_claim stamp o))
    → (j : Text) → R (find_row j rows) (find_row j (claim_row id stamp rows).0)
claim_pointwise R same id stamp rows k f j = elim (Bool-cases (text_eq id j)) [
  | inl e ↦
      subst (λ i. R (find_row i rows) (find_row i (claim_row id stamp rows).0)) (text_eq→eq id j e)
        (rw (find_row-claim_row_self id stamp rows k).0 (f (find_row id rows)))
  | inr e ↦ rw (find_row-claim_row_other id j stamp rows e) (same (find_row j rows))
]

pub update_pointwise :
    (R : Option Notification → Option Notification → Type 0)
    → ((o : Option Notification) → R o o)
    → (n : Notification) (expected : Status) (rows : Table) → IsKeyed rows
    → ((o : Option Notification) → R o (after_update n expected o))
    → (j : Text) → R (find_row j rows) (find_row j (update_row n expected rows).0)
update_pointwise R same n expected rows k f j = elim (Bool-cases (text_eq n.id j)) [
  | inl e ↦
      subst (λ i. R (find_row i rows) (find_row i (update_row n expected rows).0))
        (text_eq→eq n.id j e)
        (rw (find_row-update_row_self n expected rows k).0 (f (find_row n.id rows)))
  | inr e ↦ rw (find_row-update_row_other n expected j rows e) (same (find_row j rows))
]

pub claim_row-Advances :
    (id : Text) (stamp : ℕ) (rows : Table) → Advances rows (claim_row id stamp rows).0
claim_row-Advances id stamp rows k = record {
  keyed = claim_row-IsKeyed id stamp rows k;
  row = claim_pointwise RowMoves RowMoves-refl id stamp rows k (claim-RowMoves stamp);
}

pub update_row-Advances :
    (n : Notification) (expected : Status) (rows : Table)
    → expected ⟶* n.status
    → Advances rows (update_row n expected rows).0
update_row-Advances n expected rows p k = record {
  keyed = update_row-IsKeyed n expected rows k;
  row =
      update_pointwise RowMoves RowMoves-refl n expected rows k λ o. update-RowMoves n expected o p;
}
