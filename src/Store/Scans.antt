-- ===== src/Store/Scans.antt =====
-- internal/adapters/postgres/sqlc/notifications.sql.go: what the four scans of the reconciler return.
use event_driven_notificatio.Base.{
  ℕ, zero, suc, ◌≤◌, ◌<◌, ◌≡◌, refl, sym, ap, ◌⊎◌, inl, inr, Bool, true, not, [], ◌∷◌, none, some,
  ◌++◌, take, select, length, length-take, All, All-mono, subst, leb, Bool-cases, arith,
}
use mathlib.Core.List.{Perm, perm_middle}
use mathlib.Core.List.Perm
use event_driven_notificatio.Domain.Status.{pending, queued, processing, retrying, status_eq}
use event_driven_notificatio.Domain.Notification.{Notification}
use event_driven_notificatio.Store.{
  Table, insert_by, order_by, is_orphaned_pending, is_stuck_processing, is_overdue_retrying,
  is_stuck_queued, retry_key, find_orphaned_pending, find_stuck_processing, find_overdue_retrying,
  find_stuck_queued,
}

abbrev pub AtLeast : (Notification → ℕ) → ℕ → Table → Type 0
AtLeast key k = All (λ r. k ≤ key r)

-- Ascending by a time.
abbrev pub IsOrdered : (Notification → ℕ) → Table → Type 0
IsOrdered key [] = Unit
IsOrdered key (r ∷ rows) = AtLeast key (key r) rows × IsOrdered key rows

AtLeast-mono :
    (key : Notification → ℕ) (j k : ℕ) (rows : Table)
    → j ≤ k
    → AtLeast key k rows
    → AtLeast key j rows
AtLeast-mono key j k [] h v = tt
AtLeast-mono key j k (r ∷ rows) h v = (omega (arith, v.0), AtLeast-mono key j k rows h v.1)

insert_by-AtLeast :
    (key : Notification → ℕ) (k : ℕ) (n : Notification) (rows : Table)
    → k ≤ key n
    → AtLeast key k rows
    → AtLeast key k (insert_by key n rows)
unfolding insert_by
insert_by-AtLeast key k n [] h v = (h, tt)
insert_by-AtLeast key k n (r ∷ rows) h v = ground (arith, insert_by-AtLeast key k n rows h v.1)

insert_by-IsOrdered :
    (key : Notification → ℕ) (n : Notification) (rows : Table)
    → IsOrdered key rows
    → IsOrdered key (insert_by key n rows)
unfolding insert_by
insert_by-IsOrdered key n [] v = (tt, tt)
insert_by-IsOrdered key n (r ∷ rows) v = elim (Bool-cases (leb (key n) (key r))) [
  | inl e ↦ rw e ((ground arith, AtLeast-mono key (key n) (key r) rows (ground arith) v.0), v)
  | inr e ↦
      rw e (
        insert_by-AtLeast key (key r) n rows (ground arith) v.0,
        insert_by-IsOrdered key n rows v.1,
      )
]

order_by-IsOrdered : (key : Notification → ℕ) (rows : Table) → IsOrdered key (order_by key rows)
unfolding order_by
order_by-IsOrdered key [] = tt
order_by-IsOrdered key (r ∷ rows) =
    insert_by-IsOrdered key r (order_by key rows) (order_by-IsOrdered key rows)

insert_by-All :
    (P : Notification → Type 0) (key : Notification → ℕ) (n : Notification) (rows : Table)
    → P n
    → All P rows
    → All P (insert_by key n rows)
unfolding insert_by
insert_by-All P key n [] p v = (p, tt)
insert_by-All P key n (r ∷ rows) p v = elim (Bool-cases (leb (key n) (key r))) [
  | inl e ↦ rw e (p, v)
  | inr e ↦ rw e (v.0, insert_by-All P key n rows p v.1)
]

order_by-All :
    (P : Notification → Type 0) (key : Notification → ℕ) (rows : Table)
    → All P rows
    → All P (order_by key rows)
unfolding order_by
order_by-All P key [] v = tt
order_by-All P key (r ∷ rows) v =
    insert_by-All P key r (order_by key rows) v.0 (order_by-All P key rows v.1)

select-All : (p : Notification → Bool) (rows : Table) → All (λ r. p r ≡ true) (select p rows)
select-All p [] = tt
select-All p (r ∷ rows) = elim (Bool-cases (p r)) [
  | inl e ↦ rw e (e, select-All p rows)
  | inr e ↦ rw e (select-All p rows)
]

take-All : (P : Notification → Type 0) (k : ℕ) (rows : Table) → All P rows → All P (take k rows)
take-All P zero rows v = tt
take-All P (suc k) [] v = tt
take-All P (suc k) (r ∷ rows) v = (v.0, take-All P k rows v.1)

take-IsOrdered :
    (key : Notification → ℕ) (k : ℕ) (rows : Table)
    → IsOrdered key rows
    → IsOrdered key (take k rows)
take-IsOrdered key zero rows v = tt
take-IsOrdered key (suc k) [] v = tt
take-IsOrdered key (suc k) (r ∷ rows) v =
    (take-All (λ q. key r ≤ key q) k rows v.0, take-IsOrdered key k rows v.1)

insert_by-perm :
    (key : Notification → ℕ) (n : Notification) (rows : Table)
    → Perm (insert_by key n rows) (n ∷ rows)
unfolding insert_by
insert_by-perm key n [] = Perm.refl (n ∷ [])
insert_by-perm key n (r ∷ rows) = elim (Bool-cases (leb (key n) (key r))) [
  | inl e ↦ rw e (Perm.refl (n ∷ r ∷ rows))
  | inr e ↦ rw e (Perm.trans (Perm.cons r (insert_by-perm key n rows)) (Perm.swap n r rows))
]

order_by-perm : (key : Notification → ℕ) (rows : Table) → Perm (order_by key rows) rows
unfolding order_by
order_by-perm key [] = Perm.nil
order_by-perm key (r ∷ rows) =
    Perm.trans (insert_by-perm key r (order_by key rows)) (Perm.cons r (order_by-perm key rows))

-- A scan: the rows of the table are those found, the `rest`, which match and were left out, and those
-- `skipped`, which do not match; the matching ones are in order, and none is left out below the limit.
pub record IsScan (clause : Notification → Type 0) (key : Notification → ℕ) (limit : ℕ)
    (rows found : Table) : Type 0 where
  pub rest : Table
  pub skipped : Table
  pub sound : All clause (found ++ rest)
  pub unmatched : All (λ r. clause r → ⊥) skipped
  pub ordered : IsOrdered key (found ++ rest)
  pub complete : Perm ((found ++ rest) ++ skipped) rows
  pub bounded : length found ≤ limit
  pub filled : (rest ≡ []) ⊎ (length found ≡ limit)

-- The rows that pass a test, and the others.
select-Perm :
    (p : Notification → Bool) (rows : Table)
    → Perm (select p rows ++ select (λ r. not (p r)) rows) rows
select-Perm p [] = Perm.nil
select-Perm p (r ∷ rows) = elim (Bool-cases (p r)) [
  | inl e ↦ rw e (Perm.cons r (select-Perm p rows))
  | inr e ↦ rw e (
      Perm.trans (perm_middle (select p rows) (select (λ q. not (p q)) rows))
        (Perm.cons r (select-Perm p rows)))
]

unmatched_otherwise :
    (clause : Notification → Type 0) (test : Notification → Bool)
    → ((r : Notification) → clause r → test r ≡ true)
    → (r : Notification) → not (test r) ≡ true
    → clause r
    → ⊥
unmatched_otherwise clause test g r h c = absurd (ground (arith, g r c))

take_rest :
    (k : ℕ) (rows : Table)
    → (rest : Table) × (take k rows ++ rest ≡ rows) × ((rest ≡ []) ⊎ (length (take k rows) ≡ k))
take_rest zero rows = (rows, refl, inr refl)
take_rest (suc k) [] = ([], refl, inl refl)
take_rest (suc k) (r ∷ rows) =
    let (rest, whole, full) = take_rest k rows in
    (rest, ap (λ q. r ∷ q) whole, elim full [ inl e ↦ inl e | inr e ↦ inr (ap suc e) ])

-- Every scan has this form.
take-IsScan :
    (clause : Notification → Type 0) (test : Notification → Bool) (key : Notification → ℕ)
    (limit : ℕ) (rows : Table)
    → ((r : Notification) → test r ≡ true → clause r)
    → ((r : Notification) → clause r → test r ≡ true)
    → IsScan clause key limit rows (take limit (order_by key (select test rows)))
take-IsScan clause test key limit rows f g =
    let found = select test rows in
    let missed = select (λ r. not (test r)) rows in
    let all = order_by key found in
    let (rest, whole, full) = take_rest limit all in
    record {
      rest = rest;
      skipped = missed;
      sound = subst (All clause) (sym whole) (
          order_by-All clause key found
            (All-mono (λ r. test r ≡ true) clause f found (select-All test rows)));
      unmatched =
          All-mono (λ r. not (test r) ≡ true) (λ r. clause r → ⊥)
            (unmatched_otherwise clause test g) missed (select-All (λ r. not (test r)) rows);
      ordered = subst (IsOrdered key) (sym whole) (order_by-IsOrdered key found);
      complete =
          subst (λ q. Perm (q ++ missed) rows) (sym whole)
            (Perm.trans (Perm.append_right missed (order_by-perm key found))
              (select-Perm test rows));
      bounded = omega (arith, length-take limit all);
      filled = full;
    }

-- The rows that each scan is documented to look for.
abbrev pub IsOrphaned : ℕ → Notification → Type 0
IsOrphaned t r = (r.status ≡ pending) × (r.created_at < t)

abbrev pub IsStuck : ℕ → Notification → Type 0
IsStuck t r = (r.status ≡ processing) × (r.updated_at < t)

abbrev pub IsOverdue : ℕ → Notification → Type 0
IsOverdue t r = (r.status ≡ retrying) × ((at : ℕ) × (r.next_retry_at ≡ some at) × (at < t))

abbrev pub IsStranded : ℕ → Notification → Type 0
IsStranded t r =
    (r.status ≡ queued)
    × (r.updated_at < t)
    × ((r.scheduled_at ≡ none) ⊎ ((at : ℕ) × (r.scheduled_at ≡ some at) × (at < t)))

is_orphaned_pending-IsOrphaned :
    (t : ℕ) (r : Notification) → is_orphaned_pending t r ≡ true → IsOrphaned t r
unfolding is_orphaned_pending
is_orphaned_pending-IsOrphaned t r h = ground arith

IsOrphaned-is_orphaned_pending :
    (t : ℕ) (r : Notification) → IsOrphaned t r → is_orphaned_pending t r ≡ true
unfolding is_orphaned_pending status_eq
IsOrphaned-is_orphaned_pending t r h = ground (arith, h.0, h.1)

is_stuck_processing-IsStuck :
    (t : ℕ) (r : Notification) → is_stuck_processing t r ≡ true → IsStuck t r
unfolding is_stuck_processing
is_stuck_processing-IsStuck t r h = ground arith

IsStuck-is_stuck_processing :
    (t : ℕ) (r : Notification) → IsStuck t r → is_stuck_processing t r ≡ true
unfolding is_stuck_processing status_eq
IsStuck-is_stuck_processing t r h = ground (arith, h.0, h.1)

is_overdue_retrying-IsOverdue :
    (t : ℕ) (r : Notification) → is_overdue_retrying t r ≡ true → IsOverdue t r
unfolding is_overdue_retrying
is_overdue_retrying-IsOverdue t r h = ground arith

IsOverdue-is_overdue_retrying :
    (t : ℕ) (r : Notification) → IsOverdue t r → is_overdue_retrying t r ≡ true
unfolding is_overdue_retrying status_eq
IsOverdue-is_overdue_retrying t r h = rw (h.0, h.1.1) (ground (arith, h.1.2))

is_stuck_queued-IsStranded :
    (t : ℕ) (r : Notification) → is_stuck_queued t r ≡ true → IsStranded t r
unfolding is_stuck_queued
is_stuck_queued-IsStranded t r h = ground arith

IsStranded-is_stuck_queued :
    (t : ℕ) (r : Notification) → IsStranded t r → is_stuck_queued t r ≡ true
unfolding is_stuck_queued status_eq
IsStranded-is_stuck_queued t r h = elim h.2 [
  | inl e ↦ rw (h.0, e) (ground (arith, h.1))
  | inr (at, e, l) ↦ rw (h.0, e) (ground (arith, h.1, l))
]

-- The reconciler's four queries each return, oldest first and at most `limit` of them, rows that they
-- are documented to look for, and leave out such rows only where the limit is reached, and only behind
-- those that they return: pending rows created before the bound, processing rows not updated since,
-- retrying rows due before it, and queued rows not updated since that are not scheduled for later.
pub scans-AreScans :
    (t limit : ℕ) (rows : Table)
    → IsScan (IsOrphaned t) (λ r. r.created_at) limit rows (find_orphaned_pending t limit rows)
      × IsScan (IsStuck t) (λ r. r.updated_at) limit rows (find_stuck_processing t limit rows)
      × IsScan (IsOverdue t) retry_key limit rows (find_overdue_retrying t limit rows)
      × IsScan (IsStranded t) (λ r. r.updated_at) limit rows (find_stuck_queued t limit rows)
unfolding find_orphaned_pending find_stuck_processing find_overdue_retrying find_stuck_queued
scans-AreScans t limit rows = (
  take-IsScan (IsOrphaned t) (is_orphaned_pending t) (λ r. r.created_at) limit rows
      (is_orphaned_pending-IsOrphaned t) (IsOrphaned-is_orphaned_pending t),
  take-IsScan (IsStuck t) (is_stuck_processing t) (λ r. r.updated_at) limit rows
      (is_stuck_processing-IsStuck t) (IsStuck-is_stuck_processing t),
  take-IsScan (IsOverdue t) (is_overdue_retrying t) retry_key limit rows
      (is_overdue_retrying-IsOverdue t) (IsOverdue-is_overdue_retrying t),
  take-IsScan (IsStranded t) (is_stuck_queued t) (λ r. r.updated_at) limit rows
      (is_stuck_queued-IsStranded t) (IsStranded-is_stuck_queued t),
)
