-- ===== src/Domain/Errors.antt =====
-- internal/domain/errors.go, and the sentinels of internal/ports/ports.go and
-- internal/application/{errors,schedule_notification}.go. An error is the sentinel that errors.Is
-- finds in its chain; messages are left out. `adapter_failure` is any error that matches no
-- sentinel, such as one of a driver or a broker.
use event_driven_notificatio.Base.{◌≡◌, refl, ◌↔◌, Bool, true, false}

pub data Error : Type 0 where
  invalid_channel invalid_priority invalid_status invalid_log_event : Error
  invalid_notification_id invalid_correlation_id invalid_batch_id : Error
  invalid_template_id invalid_log_id : Error
  invalid_recipient invalid_content : Error
  invalid_transition : Error
  invalid_batch_size batch_inconsistent_correlation : Error
  invalid_template_name invalid_template_body template_render_failed : Error
  not_found already_claimed concurrent_update : Error
  provider_transient outbound_rate_limited scheduled_in_past : Error
  adapter_failure : Error

-- What a Go function returns as a value with an error: exactly one of the two counts.
pub data Result {ℓ} (A : Type ℓ) : Type ℓ where
  err : (sentinel : Error) → Result A
  ok : (value : A) → Result A

-- `if !test { return err }`.
abbrev pub guard : Bool → Error → Result (Unit {0})
guard test e = elim test [ true ↦ ok tt | false ↦ err e ]

-- `if err != nil { return err }` behind a call, with its value or without.
infixl 5 ◌>>=◌ ◌>>◌
abbrev pub ◌>>=◌ {ℓ κ} : {A : Type ℓ} {B : Type κ} → Result A → (A → Result B) → Result B
◌>>=◌ called rest = elim called [ err e ↦ err e | ok value ↦ rest value ]

abbrev pub ◌>>◌ {ℓ} : {B : Type ℓ} → Result (Unit {0}) → Result B → Result B
◌>>◌ checked rest = checked >>= λ done. rest

-- A chain that ends well had a first call that ended well.
pub called_ok {ℓ κ} :
    {X : Type ℓ} {Y : Type κ} (called : Result X) (rest : X → Result Y) {y : Y}
    → called >>= rest ≡ ok y
    → (x : X) × (called ≡ ok x) × (rest x ≡ ok y)
called_ok (err sentinel) rest h = cc
called_ok (ok x) rest h = (x, refl, h)

pub guard_iff : (b : Bool) (e : Error) → (guard b e ≡ ok tt) ↔ (b ≡ true)
guard_iff true e = (λ h. refl, λ h. refl)
guard_iff false e = (λ h. cc, λ h. cc)

-- A successful sequence is two successes.
pub seq_iff {ℓ} :
    {A : Type ℓ} (m : Result (Unit {0})) (k : Result A) (a : A)
    → ((m >> k) ≡ ok a) ↔ ((m ≡ ok tt) × (k ≡ ok a))
seq_iff (ok u) k a = (λ h. (refl, h), λ h. h.1)
seq_iff (err e) k a = (λ h. cc, λ h. cc)

pub ok-injective {ℓ} : {A : Type ℓ} {a b : A} → ok a ≡ ok b → a ≡ b
ok-injective h = cc
