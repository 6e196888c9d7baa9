-- ===== src/Retry/Delays.antt =====
-- internal/application/{process_notification,errors}.go and cmd/worker/main.go: how long a failed
-- task waits.
use native.Mathlib.Nat.{pow-le-pow_right, two-pow-succ, one-le-pow}
use event_driven_notificatio.Base.{ℕ, zero, suc, ◌+◌, ◌*◌, ◌%◌, ◌^◌, ◌≤◌, ◌<◌, ◌≡◌, false, arith}
use event_driven_notificatio.Domain.Errors.{Error, outbound_rate_limited}
use event_driven_notificatio.Retry.{
  second, backoff_base, backoff_for, rate_limit_backoff, is_rate_limited, retry_delay_for,
  max_retry_jitter, int64_mod, int64_half, with_jitter, retry_delay,
}

pow_bound : (k : ℕ) → k ≤ 28 → 2 ^ k ≤ 268435456
pow_bound k h = pow-le-pow_right {n = 2} (omega arith) {i = k} {j = 28} h

exact : (m : ℕ) → m ≤ 268435456 → (backoff_base * (m % int64_mod)) % int64_mod ≡ 30 * second * m
exact m h = omega arith

-- Up to the 29th attempt the delay is 30 s doubled once for each attempt after the first, and is no
-- overflow of the int64.
pub backoff_for_exact :
    (k : ℕ)
    → k ≤ 28
    → (backoff_for (suc k) ≡ 30 * second * 2 ^ k) × (30 * second * 2 ^ k < int64_half)
unfolding backoff_for
backoff_for_exact k h = let bound = pow_bound k h in (exact (2 ^ k) bound, omega (arith, bound))

-- The 30th overflows: its delay is a negative duration.
backoff_for_overflow : int64_half ≤ backoff_for 30
unfolding backoff_for
backoff_for_overflow = omega arith

backoff_bounds : (n : ℕ) → n ≤ 29 → (0 < backoff_for n) × (backoff_for n ≤ 30 * second * 2 ^ 28)
unfolding backoff_for
backoff_bounds zero h = omega arith
backoff_bounds (suc k) h =
    let small : k ≤ 28 = omega arith in
    let bound = pow_bound k small in
    rw (exact (2 ^ k) bound) (omega (arith, bound, one-le-pow k 2 (omega arith)))

delay_bounds :
    (n : ℕ) (x : Error)
    → n ≤ 29
    → (0 < retry_delay_for n x) × (retry_delay_for n x ≤ 30 * second * 2 ^ 28)
unfolding retry_delay_for
delay_bounds n x h = ground (arith, backoff_bounds n h)

jitter_bounds :
    (base : ℕ) (draw : ℕ → ℕ)
    → ((b : ℕ) → 0 < b → draw b < b)
    → 0 < base
    → base ≤ 30 * second * 2 ^ 28
    → (base ≤ with_jitter base draw)
      × (with_jitter base draw < base + base)
      × (with_jitter base draw < base + max_retry_jitter)
      × (with_jitter base draw < int64_half)
unfolding with_jitter
jitter_bounds base draw d p q = ground (arith, d base, d max_retry_jitter)

-- With a random draw below its bound, the wait after any of the first 29 attempts is at least the
-- delay of the policy, less than twice it, less than 30 s above it, and a positive int64.
pub retry_delay_bounds :
    (n : ℕ) (x : Error) (draw : ℕ → ℕ)
    → ((b : ℕ) → 0 < b → draw b < b)
    → n ≤ 29
    → let base = retry_delay_for n x in
      let delay = retry_delay n x draw in
      (base ≤ delay)
      × (delay < base + base)
      × (delay < base + 30 * second)
      × (0 < delay)
      × (delay < int64_half)
unfolding retry_delay
retry_delay_bounds n x draw d h =
    let (p, q) = delay_bounds n x h in
    let (lower, twice, above, small) = jitter_bounds (retry_delay_for n x) draw d p q in
    (lower, twice, above, omega arith, small)

-- With a random draw below its bound and up to the 28th attempt, a rate-limited task waits from 1 s
-- to less than 2 s, and the policy's delay after any other error grows with the attempt.
pub retry_delay_order :
    (k : ℕ) (x : Error) (draw : ℕ → ℕ)
    → ((b : ℕ) → 0 < b → draw b < b)
    → k ≤ 27
    → is_rate_limited x ≡ false
    → (second ≤ retry_delay (suc k) outbound_rate_limited draw)
      × (retry_delay (suc k) outbound_rate_limited draw < 2 * second)
      × (retry_delay_for (suc k) x < retry_delay_for (suc (suc k)) x)
unfolding retry_delay retry_delay_for
retry_delay_order k x draw d h e =
    let (lower, twice, above, small) =
      jitter_bounds rate_limit_backoff draw d (omega arith) (omega arith) in
    let (this, _small) = backoff_for_exact k (omega arith) in
    let (next, _small') = backoff_for_exact (suc k) (omega arith) in
    (
      lower,
      omega arith,
      rw e (omega (arith, this, next, two-pow-succ k, one-le-pow k 2 (omega arith))),
    )
