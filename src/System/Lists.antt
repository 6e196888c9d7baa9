-- ===== src/System/Lists.antt =====
-- internal/application: the lists of the workers and writers in flight.
use event_driven_notificatio.Base.{
  ◌+◌, ◌≡◌, refl, false, List, [], ◌∷◌, Text, text_eq, All, if◌then◌else◌, arith,
}
use event_driven_notificatio.System.{Worker, Takes, take_here, take_there, held, unsent, unasked}

pub Takes-All {ℓ κ} :
    {A : Type ℓ} (P : A → Type κ) {x : A} {xs ys : List A}
    → Takes x xs ys
    → All P xs
    → P x × All P ys
Takes-All P take_here h = h
Takes-All P (take_there p) h = let (now, rest) = Takes-All P p h.1 in (now, (h.0, rest))

pub held-Takes :
    (id : Text) {w : Worker} {xs ys : List Worker}
    → Takes w xs ys
    → held id xs ≡ (if text_eq w.copy.id id then 1 else 0) + held id ys
held-Takes id take_here = refl
held-Takes id (take_there p) = omega (arith, held-Takes id p)

pub unsent-Takes :
    (id : Text) {w : Worker} {xs ys : List Worker}
    → Takes w xs ys
    → unsent id xs ≡ (if text_eq w.copy.id id then if unasked w then 1 else 0 else 0) + unsent id ys
unsent-Takes id take_here = refl
unsent-Takes id (take_there p) = omega (arith, unsent-Takes id p)

-- No worker of the list holds the row.
pub held_none :
    (id : Text) (ws : List Worker)
    → held id ws ≡ 0
    → All (λ (w : Worker). text_eq w.copy.id id ≡ false) ws
held_none id [] h = tt
held_none id (w ∷ ws) h = ground (arith, held_none id ws)
