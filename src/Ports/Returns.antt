-- ===== src/Ports/Returns.antt =====
-- internal/ports/ports.go: what is known of a call that returned.
use event_driven_notificatio.Base.{
  ℕ, ◌≡◌, refl, sym, ap, false, Option, none, some, ◌==◌, Bool-cases, inl, inr,
}
use event_driven_notificatio.Domain.Errors.{adapter_failure}
use event_driven_notificatio.Domain.Notification.{Notification}
use event_driven_notificatio.Store.{update_row}
use event_driven_notificatio.Domain.Status.{Status}
use event_driven_notificatio.Ports.{repo_update}
use event_driven_notificatio.Ports.{
  Env, World, Fault, fine, lost, unconfirmed, Outcome, returns, raises, final, ticked, M, ◌>>=◌,
  call, got, stored,
}

-- What a chain returns, it returned after its first action did.
pub bind_returns {ℓ κ} :
    {A : Type ℓ} {B : Type κ} (m : M A) (f : A → M B) (e : Env) (w w₂ : World) (b : B)
    → (m >>= f) e w ≡ returns b w₂
    → (a : A) × (w₁ : World) × (m e w ≡ returns a w₁) × (f a e w₁ ≡ returns b w₂)
bind_returns {A = A} {B = B} m f e w w₂ b h = go (m e w) refl h
  where
    go :
        (o : Outcome A)
        → m e w ≡ o
        → elim o [ returns a w' ↦ f a e w' | raises x w' ↦ raises x w' ] ≡ returns b w₂
        → (a : A) × (w₁ : World) × (m e w ≡ returns a w₁) × (f a e w₁ ≡ returns b w₂)
    go (returns a w₁) same k = (a, w₁, same, k)
    go (raises x w₁) same k = cc

pub call_returns {ℓ} :
    {A : Type ℓ} (f : Env → World → Outcome A) (e : Env) (w w' : World) (a : A)
    → call f e w ≡ returns a w'
    → f e (ticked w) ≡ returns a w'
call_returns {A = A} f e w w' a h = go (e.fault w.tick) h
  where
    go :
        (x : Fault)
        → elim x [
          | fine ↦ f e (ticked w)
          | lost ↦ raises adapter_failure (ticked w)
          | unconfirmed ↦ raises adapter_failure (final (f e (ticked w)))
        ]
          ≡ returns a w'
        → f e (ticked w) ≡ returns a w'
    go fine k = k
    go lost k = cc
    go unconfirmed k = cc

returned {ℓ} : {A : Type ℓ} {a b : A} {w w' : World} → returns a w ≡ returns b w' → a ≡ b
returned h = cc

left {ℓ} : {A : Type ℓ} {a b : A} {w w' : World} → returns a w ≡ returns b w' → w ≡ w'
left h = cc

pub got_returns :
    (o : Option Notification) (w w' : World) (n : Notification)
    → got o w ≡ returns n w'
    → (o ≡ some n) × (w'.rows ≡ w.rows)
got_returns none w w' n h = cc
got_returns (some m) w w' n h = (ap some (returned h), ap (λ (v : World). v.rows) (sym (left h)))

pub stored_returns :
    (count : ℕ) (w w' : World)
    → stored count w ≡ returns tt w'
    → (w'.rows ≡ w.rows) × ((count == 0) ≡ false)
stored_returns count w w' h = elim (Bool-cases (count == 0)) [
  | inl e ↦ cc (rw e at h)
  | inr e ↦ (ap (λ (v : World). v.rows) (sym (left (rw e at h))), e)
]

pub update_returns :
    (n : Notification) (expected : Status) (e : Env) (w w' : World) (u : Unit {0})
    → repo_update n expected e w ≡ returns u w'
    → w'.rows ≡ (update_row n expected w.rows).0
unfolding repo_update
update_returns n expected e w w' u h =
    (stored_returns (update_row n expected w.rows).1
      (record (ticked w) { rows = (update_row n expected w.rows).0 }) w'
      (call_returns
        (λ e w.
          stored (update_row n expected w.rows).1
            (record w { rows = (update_row n expected w.rows).0 }))
        e w w' u h)).0
