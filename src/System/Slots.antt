-- ===== src/System/Slots.antt =====
-- internal/application and internal/adapters/postgres: what the invariant says of one row, and how a
-- statement on it keeps that.
use event_driven_notificatio.Base.{
  ℕ, ◌+◌, ◌≡◌, refl, sym, ◌∙◌, ◌⊎◌, inl, inr, true, Option, none, some, Bool-cases, arith,
}
use event_driven_notificatio.Domain.Status.{
  Status, pending, queued, processing, delivered, failed, retrying, cancelled, other_status,
  status_eq,
}
use event_driven_notificatio.Domain.Status.Machine.{status_eq→eq}
use event_driven_notificatio.Domain.Notification.{Notification}
use event_driven_notificatio.Store.{claimable, claimed}
use event_driven_notificatio.Store.Claims.{after_claim, claim_result, after_update}

-- The row of a worker with this copy: still the one that it claimed, or given up by the reconciler.
abbrev pub Carries : Option Notification → Notification → Type 0
Carries none c = ⊥
Carries (some r) c = (r.status ≡ failed) ⊎ ((r.status ≡ processing) × (r.attempts ≡ c.attempts))

-- The attempts of a row are the claims made of it, until it ends.
abbrev pub Counts : Status → ℕ → ℕ → Type 0
Counts pending a k = (a ≡ 0) × (k ≡ 0)
Counts queued a k = k ≡ a
Counts processing a k = k ≡ a
Counts retrying a k = k ≡ a
Counts delivered a k = Unit
Counts failed a k = Unit
Counts cancelled a k = Unit
Counts (other_status t) a k = ⊥

abbrev pub Counted : Option Notification → ℕ → Type 0
Counted none k = k ≡ 0
Counted (some r) k = Counts r.status r.attempts k

-- The updates that a writer may hold: from this status to that one, with these attempts.
abbrev pub Legal : Status → Status → ℕ → Type 0
Legal pending queued a = a ≡ 0
Legal pending cancelled a = Unit
Legal queued cancelled a = Unit
Legal retrying cancelled a = Unit
Legal processing failed a = Unit
Legal _ _ a = ⊥

-- The updates that a worker makes.
abbrev pub IsVerdict : Status → Type 0
IsVerdict delivered = Unit
IsVerdict failed = Unit
IsVerdict retrying = Unit
IsVerdict _ = ⊥

Legal-Counts : (e s : Status) (a b k : ℕ) → Legal e s a → Counts e b k → Counts s a k
Legal-Counts pending queued a b k h c = omega arith
Legal-Counts pending cancelled a b k h c = tt
Legal-Counts queued cancelled a b k h c = tt
Legal-Counts retrying cancelled a b k h c = tt
Legal-Counts processing failed a b k h c = tt
Legal-Counts _ _ a b k h c = absurd h

IsVerdict-Counts : (s : Status) (a k : ℕ) → IsVerdict s → k ≡ a → Counts s a k
IsVerdict-Counts delivered a k h e = tt
IsVerdict-Counts failed a k h e = tt
IsVerdict-Counts retrying a k h e = e
IsVerdict-Counts _ a k h e = absurd h

pub Counted-write :
    (m : Notification) (e : Status) (o : Option Notification) (k : ℕ)
    → Legal e m.status m.attempts
    → Counted o k
    → Counted (after_update m e o) k
Counted-write m e none k h c = c
Counted-write m e (some r) k h c = elim (Bool-cases (status_eq r.status e)) [
  | inl same ↦
      rw same
        (Legal-Counts e m.status m.attempts r.attempts k h (rw (status_eq→eq r.status e same) at c))
  | inr other ↦ rw other c
]

Legal-failed : (s : Status) (a : ℕ) → Legal processing s a → s ≡ failed
Legal-failed failed a h = refl
Legal-failed _ a h = absurd h

Legal-open : (s : Status) (a : ℕ) → Legal failed s a → ⊥
Legal-open _ a h = h

pub Carries-write :
    (m c : Notification) (e : Status) (o : Option Notification)
    → Legal e m.status m.attempts
    → Carries o c
    → Carries (after_update m e o) c
Carries-write m c e none h v = absurd v
Carries-write m c e (some r) h v = elim (Bool-cases (status_eq r.status e)) [
  | inr other ↦ rw other v
  | inl same ↦
      let is : r.status ≡ e = status_eq→eq r.status e same in
      elim v [
        | inl over ↦ absurd (Legal-open m.status m.attempts (rw (sym is ∙ over) at h))
        | inr busy ↦ rw same (inl (Legal-failed m.status m.attempts (rw (sym is ∙ busy.0) at h)))
      ]
]

claim_count : (s : Status) (a k : ℕ) → claimable s ≡ true → Counts s a k → 1 + k ≡ a + 1
unfolding claimable status_eq
claim_count queued a k h c = omega arith
claim_count retrying a k h c = omega arith
claim_count _ a k h c = cc

pub Counted-claim :
    (t k : ℕ) (o : Option Notification) (n : Notification)
    → claim_result t o ≡ some n
    → Counted o k
    → Counted (after_claim t o) (1 + k)
unfolding claimable status_eq
Counted-claim t k none n h c = cc
Counted-claim t k (some r) n h c = elim (Bool-cases (claimable r.status)) [
  | inr cannot ↦ absurd (ground arith)
  | inl can ↦ rw can (claim_count r.status r.attempts k can c)
]

pub Carries-claim :
    (t : ℕ) (o : Option Notification) (n : Notification)
    → claim_result t o ≡ some n
    → Carries (after_claim t o) n × (n.status ≡ processing)
Carries-claim t none n h = cc
Carries-claim t (some r) n h = elim (Bool-cases (claimable r.status)) [
  | inr cannot ↦ absurd (ground arith)
  | inl can ↦ let is : claimed t r ≡ n = ground arith in rw (can, sym is) (inr (refl, refl), refl)
]

pub Carries-busy :
    (t : ℕ) (o : Option Notification) (n c : Notification)
    → claim_result t o ≡ some n
    → Carries o c
    → ⊥
unfolding claimable status_eq
Carries-busy t none n c h v = cc
Carries-busy t (some r) n c h v = ground arith

pub Counted-settle :
    (m c : Notification) (o : Option Notification) (k : ℕ)
    → IsVerdict m.status
    → m.attempts ≡ c.attempts
    → Carries o c
    → Counted o k
    → Counted (after_update m processing o) k
unfolding status_eq
Counted-settle m c none k h a v n = absurd v
Counted-settle m c (some r) k h a v n = elim v [
  | inl over ↦ rw over (rw over at n)
  | inr busy ↦ ground (arith, IsVerdict-Counts m.status m.attempts k h)
]
