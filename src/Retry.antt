-- ===== src/Retry.antt =====
-- The retry policy: internal/application/process_notification.go (the constants and backoffFor),
-- internal/application/errors.go (RetryDelayFor) and cmd/worker/main.go (withJitter, retryDelay).
-- A time.Duration is the bit pattern of its int64 nanoseconds; one below 2^63 is not negative.
pub mod Delays
use event_driven_notificatio.Base.{
  ℕ, zero, suc, ◌+◌, ◌-◌, ◌*◌, ◌%◌, ◌^◌, Bool, true, false, ◌||◌, leb, ltb, ◌==◌, if◌then◌else◌,
}
use event_driven_notificatio.Domain.Errors.{Error, outbound_rate_limited}

abbrev pub second : ℕ
second = 1000000000

abbrev pub max_attempts : ℕ
max_attempts = 5

abbrev pub backoff_base : ℕ
backoff_base = 30 * second

abbrev pub rate_limit_backoff : ℕ
rate_limit_backoff = 1 * second

abbrev pub int64_mod : ℕ
int64_mod = 18446744073709551616

abbrev pub int64_half : ℕ
int64_half = 9223372036854775808

-- backoffFor: `1<<(attempts-1)` is an int64, and so is the product.
unfoldable pub backoff_for : ℕ → ℕ
backoff_for zero = backoff_base
backoff_for (suc k) = (backoff_base * (2 ^ k % int64_mod)) % int64_mod

abbrev pub is_rate_limited : Error → Bool
is_rate_limited outbound_rate_limited = true
is_rate_limited _ = false

-- RetryDelayFor.
unfoldable pub retry_delay_for : ℕ → Error → ℕ
retry_delay_for attempts x = if is_rate_limited x then rate_limit_backoff else backoff_for attempts

abbrev pub max_retry_jitter : ℕ
max_retry_jitter = 30 * second

-- `base <= 0` on the signed value.
abbrev pub not_positive : ℕ → Bool
not_positive d = (d == 0) || leb int64_half d

-- withJitter; `draw` is rand.Int64N.
unfoldable pub with_jitter : ℕ → (ℕ → ℕ) → ℕ
with_jitter base draw =
    if not_positive base
    then base
    else (base + draw (if ltb max_retry_jitter base then max_retry_jitter else base)) % int64_mod

-- retryDelay.
unfoldable pub retry_delay : ℕ → Error → (ℕ → ℕ) → ℕ
unfolding with_jitter retry_delay_for
retry_delay n x draw = with_jitter (retry_delay_for n x) draw
