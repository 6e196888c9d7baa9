-- ===== src/Hub/Members.antt =====
-- internal/adapters/websocket/hub.go: one of its two maps, as a set of pairs.
use event_driven_notificatio.Base.{
  ◌≡◌, refl, Bool, false, ◌&&◌, ◌||◌, not, List, [], ◌∷◌, Text, text_eq, text_eq→eq, text_eq_refl,
  arith,
}
use event_driven_notificatio.Hub.{Index, holds, drop, members, insert, put, remove}

-- Is `v` in the set at `k`?
abbrev pub has : Text → Text → Index → Bool
has k v m = holds v (members k m)

-- Each key stands once.
abbrev pub IsIndex : Index → Type 0
IsIndex [] = Unit
IsIndex ((k, vs) ∷ m) = (members k m ≡ []) × IsIndex m

holds-drop : (v x : Text) (vs : List Text) → holds x (drop v vs) ≡ (holds x vs && not (text_eq v x))
unfolding holds drop
holds-drop v x [] = refl
holds-drop v x (y ∷ vs) =
    ground
      (arith, text_eq→eq y v, text_eq→eq v x, text_eq→eq y x, text_eq_refl v, holds-drop v x vs)

pub has-insert :
    (k v j x : Text) (m : Index)
    → has j x (insert k v m) ≡ ((text_eq k j && text_eq v x) || has j x m)
unfolding holds members insert
has-insert k v j x [] = ground (arith)
has-insert k v j x ((i, vs) ∷ m) =
    ground
      (arith, text_eq→eq i k, text_eq→eq k j, text_eq→eq v x, text_eq_refl k, has-insert k v j x m)

pub has-remove :
    (k v j x : Text) (m : Index)
    → IsIndex m
    → has j x (remove k v m) ≡ (has j x m && not (text_eq k j && text_eq v x))
unfolding holds members remove
has-remove k v j x [] u = refl
has-remove k v j x ((i, vs) ∷ m) u = ground (
  arith,
  text_eq→eq i k,
  text_eq→eq k j,
  text_eq_refl k,
  holds-drop v x vs,
  has-remove k v j x m u.1,
)

insert_absent :
    (k v j : Text) (m : Index) → text_eq k j ≡ false → members j (insert k v m) ≡ members j m
unfolding members insert
insert_absent k v j [] h = ground (arith)
insert_absent k v j ((i, vs) ∷ m) h = ground (arith, text_eq→eq i k, insert_absent k v j m h)

put_other :
    (i j : Text) (vs : List Text) (m : Index)
    → text_eq i j ≡ false
    → members j (put i vs m) ≡ members j m
unfolding members
put_other i j [] m h = refl
put_other i j (v ∷ vs) m h = rw h refl

remove_absent :
    (k v j : Text) (m : Index) → members j m ≡ [] → IsIndex m → members j (remove k v m) ≡ []
unfolding members remove drop
remove_absent k v j [] h u = refl
remove_absent k v j ((i, []) ∷ m) h u =
    ground (arith, text_eq→eq i k, text_eq→eq i j, remove_absent k v j m)
remove_absent k v j ((i, x ∷ vs) ∷ m) h u =
    ground (arith, text_eq→eq i k, put_other i j (drop v (x ∷ vs)) m, remove_absent k v j m)

pub insert-IsIndex : (k v : Text) (m : Index) → IsIndex m → IsIndex (insert k v m)
unfolding insert members
insert-IsIndex k v [] u = (refl, tt)
insert-IsIndex k v ((i, vs) ∷ m) u =
    ground (arith, insert_absent k v i m, text_eq→eq k i, text_eq_refl k, insert-IsIndex k v m u.1)

put-IsIndex :
    (k : Text) (vs : List Text) (m : Index) → members k m ≡ [] → IsIndex m → IsIndex (put k vs m)
put-IsIndex k [] m h u = u
put-IsIndex k (v ∷ vs) m h u = (h, u)

pub remove-IsIndex : (k v : Text) (m : Index) → IsIndex m → IsIndex (remove k v m)
unfolding remove members
remove-IsIndex k v [] u = tt
remove-IsIndex k v ((i, vs) ∷ m) u = ground (
  arith,
  put-IsIndex i (drop v vs) m u.0 u.1,
  remove_absent k v i m u.0 u.1,
  remove-IsIndex k v m u.1,
)
