-- ===== src/Listing/Order.antt =====
-- internal/adapters/postgres/sqlc/notifications.sql.go: the order of ListNotifications, newest first
-- and then by the larger id.
use event_driven_notificatio.Base.{
  ℕ, ◌≡◌, refl, inl, inr, Bool, true, false, [], ◌∷◌, none, Text, text_eq, select, All, Bool-cases,
  arith,
}
use mathlib.Core.List.{Perm}
use mathlib.Core.List.Perm
use event_driven_notificatio.Domain.Notification.{Notification}
use event_driven_notificatio.Store.{Table, find_row}
use event_driven_notificatio.Store.Claims.{IsKeyed}
use event_driven_notificatio.Listing.Query.{text_lt, key_lt, older, insert_newest, newest_first}

text_lt_irrefl : (s : Text) → text_lt s s ≡ false
unfolding text_lt
text_lt_irrefl [] = refl
text_lt_irrefl (c ∷ s) = ground (arith, text_lt_irrefl s)

text_lt_trans : (s t u : Text) → text_lt s t ≡ true → text_lt t u ≡ true → text_lt s u ≡ true
unfolding text_lt
text_lt_trans s t [] h k = cc
text_lt_trans s [] (e ∷ u) h k = cc
text_lt_trans [] (d ∷ t) (e ∷ u) h k = refl
text_lt_trans (c ∷ s) (d ∷ t) (e ∷ u) h k = ground (arith, text_lt_trans s t u)

text_lt_total : (s t : Text) → text_lt s t ≡ false → text_eq s t ≡ false → text_lt t s ≡ true
unfolding text_lt text_eq
text_lt_total [] [] h k = cc
text_lt_total [] (d ∷ t) h k = cc
text_lt_total (c ∷ s) [] h k = refl
text_lt_total (c ∷ s) (d ∷ t) h k = ground (arith, text_lt_total s t)

pub key_lt_irrefl : (a : ℕ) (s : Text) → key_lt a s a s ≡ false
unfolding key_lt
key_lt_irrefl a s = ground (arith, text_lt_irrefl s)

pub key_lt_trans :
    (a : ℕ) (s : Text) (b : ℕ) (t : Text) (c : ℕ) (u : Text)
    → key_lt a s b t ≡ true
    → key_lt b t c u ≡ true
    → key_lt a s c u ≡ true
unfolding key_lt
key_lt_trans a s b t c u h k = ground (arith, text_lt_trans s t u)

pub key_lt_total :
    (a : ℕ) (s : Text) (b : ℕ) (t : Text)
    → key_lt a s b t ≡ false
    → text_eq s t ≡ false
    → key_lt b t a s ≡ true
unfolding key_lt
key_lt_total a s b t h k = ground (arith, text_lt_total s t)

-- Every row stands behind this place of the order.
abbrev pub Behind : ℕ → Text → Table → Type 0
Behind t id = All (λ r. key_lt r.created_at r.id t id ≡ true)

-- Strictly descending.
abbrev pub IsNewestFirst : Table → Type 0
IsNewestFirst [] = Unit
IsNewestFirst (r ∷ rows) = Behind r.created_at r.id rows × IsNewestFirst rows

pub Behind-mono :
    (a : ℕ) (s : Text) (b : ℕ) (t : Text) (rows : Table)
    → key_lt a s b t ≡ true
    → Behind a s rows
    → Behind b t rows
Behind-mono a s b t [] h v = tt
Behind-mono a s b t (r ∷ rows) h v =
    (key_lt_trans r.created_at r.id a s b t v.0 h, Behind-mono a s b t rows h v.1)

-- No row of the list has the id.
abbrev Lacks : Text → Table → Type 0
Lacks id = All (λ r. text_eq r.id id ≡ false)

insert-Behind :
    (t : ℕ) (id : Text) (n : Notification) (rows : Table)
    → key_lt n.created_at n.id t id ≡ true
    → Behind t id rows
    → Behind t id (insert_newest n rows)
unfolding insert_newest
insert-Behind t id n [] h v = (h, tt)
insert-Behind t id n (r ∷ rows) h v = ground (arith, insert-Behind t id n rows h v.1)

insert-Lacks :
    (id : Text) (n : Notification) (rows : Table)
    → text_eq n.id id ≡ false
    → Lacks id rows
    → Lacks id (insert_newest n rows)
unfolding insert_newest
insert-Lacks id n [] h v = (h, tt)
insert-Lacks id n (r ∷ rows) h v = ground (arith, insert-Lacks id n rows h v.1)

insert-IsNewestFirst :
    (n : Notification) (rows : Table)
    → Lacks n.id rows
    → IsNewestFirst rows
    → IsNewestFirst (insert_newest n rows)
unfolding insert_newest
insert-IsNewestFirst n [] l v = (tt, tt)
insert-IsNewestFirst n (r ∷ rows) l v = elim (Bool-cases (older r n)) [
  | inl e ↦ rw e ((e, Behind-mono r.created_at r.id n.created_at n.id rows e v.0), v)
  | inr e ↦ rw e (
    insert-Behind r.created_at r.id n rows (key_lt_total r.created_at r.id n.created_at n.id e l.0)
        v.0,
    insert-IsNewestFirst n rows l.1 v.1,
  )
]

select-Lacks :
    (id : Text) (p : Notification → Bool) (rows : Table)
    → find_row id rows ≡ none
    → Lacks id (newest_first (select p rows))
unfolding find_row newest_first
select-Lacks id p [] h = tt
select-Lacks id p (r ∷ rows) h = elim (Bool-cases (p r)) [
  | inl e ↦ rw e (
      insert-Lacks id r (newest_first (select p rows)) (ground arith)
        (select-Lacks id p rows (ground arith)))
  | inr e ↦ rw e (select-Lacks id p rows (ground arith))
]

pub newest_first-IsNewestFirst :
    (p : Notification → Bool) (rows : Table)
    → IsKeyed rows
    → IsNewestFirst (newest_first (select p rows))
unfolding newest_first
newest_first-IsNewestFirst p [] k = tt
newest_first-IsNewestFirst p (r ∷ rows) k = elim (Bool-cases (p r)) [
  | inl e ↦ rw e (
      insert-IsNewestFirst r (newest_first (select p rows)) (select-Lacks r.id p rows k.0)
        (newest_first-IsNewestFirst p rows k.1))
  | inr e ↦ rw e (newest_first-IsNewestFirst p rows k.1)
]

insert_newest-perm : (n : Notification) (rows : Table) → Perm (n ∷ rows) (insert_newest n rows)
unfolding insert_newest
insert_newest-perm n [] = Perm.refl (n ∷ [])
insert_newest-perm n (r ∷ rows) = elim (Bool-cases (older r n)) [
  | inl e ↦ rw e (Perm.refl (n ∷ r ∷ rows))
  | inr e ↦ rw e (Perm.trans (Perm.swap r n rows) (Perm.cons r (insert_newest-perm n rows)))
]

pub newest_first-perm : (rows : Table) → Perm rows (newest_first rows)
unfolding newest_first
newest_first-perm [] = Perm.nil
newest_first-perm (r ∷ rows) =
    Perm.trans (Perm.cons r (newest_first-perm rows)) (insert_newest-perm r (newest_first rows))
