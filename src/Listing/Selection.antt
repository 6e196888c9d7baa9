-- ===== src/Listing/Selection.antt =====
-- internal/adapters/postgres/sqlc/notifications.sql.go: the WHERE clause of ListNotifications against
-- its ORDER BY, and the rows behind a cursor.
use event_driven_notificatio.Base.{
  List, ℕ, zero, suc, ◌≤◌, ◌≡◌, refl, subst, ◌∙◌, inl, inr, Bool, true, false, ◌&&◌, [], ◌∷◌, some,
  Text, drop, select, if◌then◌else◌, All, Bool-cases, arith, get_elem?, length,
}
use event_driven_notificatio.Domain.Notification.{Notification}
use event_driven_notificatio.Store.{Table}
use event_driven_notificatio.Store.Claims.{IsKeyed}
use event_driven_notificatio.Listing.Query.{key_lt, older, behind, insert_newest, newest_first}
use event_driven_notificatio.Listing.Order.{
  key_lt_irrefl, key_lt_trans, Behind, Behind-mono, IsNewestFirst, newest_first-IsNewestFirst,
}

insert_front :
    (n : Notification) (rows : Table)
    → Behind n.created_at n.id rows
    → insert_newest n rows ≡ n ∷ rows
unfolding insert_newest
insert_front n [] v = refl
insert_front n (r ∷ rows) v = rw v.0

pub select-All {ℓ κ} :
    {A : Type ℓ} (P : A → Type κ) (p : A → Bool) (xs : List A) → All P xs → All P (select p xs)
select-All P p [] h = tt
select-All P p (x ∷ xs) h = elim (Bool-cases (p x)) [
  | inl e ↦ rw e (h.0, select-All P p xs h.1)
  | inr e ↦ rw e (select-All P p xs h.1)
]

-- Sorting and selecting commute.
select-insert_newest :
    (p : Notification → Bool) (n : Notification) (rows : Table)
    → IsNewestFirst rows
    → select p (insert_newest n rows)
      ≡ (if p n then insert_newest n (select p rows) else select p rows)
unfolding insert_newest
select-insert_newest p n [] v = ground arith
select-insert_newest p n (r ∷ rows) v = elim (Bool-cases (older r n)) [
  | inl e ↦
      let front : insert_newest n (select p (r ∷ rows)) ≡ n ∷ select p (r ∷ rows) =
        insert_front n (select p (r ∷ rows)) (
          select-All (λ (m : Notification). older m n ≡ true) p (r ∷ rows)
            (e, Behind-mono r.created_at r.id n.created_at n.id rows e v.0)) in
      rw e (ground arith)
  | inr e ↦ rw e (ground (arith, select-insert_newest p n rows v.1))
]

pub select-newest_first :
    (p : Notification → Bool) (q : Notification → Bool) (rows : Table)
    → IsKeyed rows
    → select p (newest_first (select q rows)) ≡ newest_first (select (λ r. q r && p r) rows)
unfolding newest_first
select-newest_first p q [] k = refl
select-newest_first p q (r ∷ rows) k = elim (Bool-cases (q r)) [
  | inl e ↦ rw e (
      select-insert_newest p r (newest_first (select q rows))
        (newest_first-IsNewestFirst q rows k.1)
      ∙ rw (select-newest_first p q rows k.1)
          (elim (Bool-cases (p r)) [ inl f ↦ rw f | inr f ↦ rw f ]))
  | inr e ↦ rw e (select-newest_first p q rows k.1)
]

-- Nothing that is behind a row comes before it.
none_behind :
    (t : ℕ) (id : Text) (rows : Table)
    → Behind t id rows
    → select (behind (some (t, id))) rows ≡ rows
unfolding behind
none_behind t id [] v = refl
none_behind t id (r ∷ rows) v = ground (arith, none_behind t id rows v.1)

same {ℓ} : {A : Type ℓ} {x y : A} → some x ≡ some y → x ≡ y
same e = cc

pub get-All {ℓ κ} :
    {A : Type ℓ} (P : A → Type κ) (k : ℕ) (xs : List A) (x : A)
    → All P xs
    → get_elem? xs k ≡ some x
    → P x
get-All P k [] x v h = cc
get-All P zero (y ∷ xs) x v h = subst P (same h) v.0
get-All P (suc k) (y ∷ xs) x v h = get-All P k xs x v.1 h

key_lt_asym : (a : ℕ) (s : Text) (b : ℕ) (t : Text) → key_lt a s b t ≡ true → key_lt b t a s ≡ false
key_lt_asym a s b t h = elim (Bool-cases (key_lt b t a s)) [
  | inl e ↦ cc (key_lt_trans a s b t a s h e, key_lt_irrefl a s)
  | inr e ↦ e
]

-- The rows behind the row at a place are those from the next place on.
pub select-behind :
    (k : ℕ) (rows : Table) (last : Notification)
    → IsNewestFirst rows
    → get_elem? rows k ≡ some last
    → select (behind (some (last.created_at, last.id))) rows ≡ drop (suc k) rows
unfolding behind
select-behind k [] last v h = cc
select-behind zero (r ∷ rows) last v h =
    subst (λ x. select (behind (some (x.created_at, x.id))) (r ∷ rows) ≡ rows) (same h)
      (rw (key_lt_irrefl r.created_at r.id) (none_behind r.created_at r.id rows v.0))
select-behind (suc k) (r ∷ rows) last v h =
    let newer : key_lt last.created_at last.id r.created_at r.id ≡ true =
      get-All (λ (m : Notification). older m r ≡ true) k rows last v.0 h in
    rw (key_lt_asym last.created_at last.id r.created_at r.id newer)
      (select-behind k rows last v.1 h)

insert-All {κ} :
    (P : Notification → Type κ) (n : Notification) (rows : Table)
    → P n
    → All P rows
    → All P (insert_newest n rows)
unfolding insert_newest
insert-All P n [] h v = (h, tt)
insert-All P n (r ∷ rows) h v = elim (Bool-cases (older r n)) [
  | inl e ↦ rw e (h, v)
  | inr e ↦ rw e (v.0, insert-All P n rows h v.1)
]

pub newest_first-All {κ} :
    (P : Notification → Type κ) (rows : Table) → All P rows → All P (newest_first rows)
unfolding newest_first
newest_first-All P [] v = tt
newest_first-All P (r ∷ rows) v =
    insert-All P r (newest_first rows) v.0 (newest_first-All P rows v.1)

length-insert_newest :
    (n : Notification) (rows : Table) → length (insert_newest n rows) ≡ suc (length rows)
unfolding insert_newest
length-insert_newest n [] = refl
length-insert_newest n (r ∷ rows) = ground (arith, length-insert_newest n rows)

pub length-newest_first : (rows : Table) → length (newest_first rows) ≡ length rows
unfolding newest_first
length-newest_first [] = refl
length-newest_first (r ∷ rows) =
    omega (arith, length-insert_newest r (newest_first rows), length-newest_first rows)

pub length-select : (p : Notification → Bool) (rows : Table) → length (select p rows) ≤ length rows
length-select p [] = omega arith
length-select p (r ∷ rows) = ground (arith, length-select p rows)
