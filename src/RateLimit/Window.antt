-- ===== src/RateLimit/Window.antt =====
-- internal/adapters/redis/outbound_rate_limiter.go: what a fixed window lets through.
use event_driven_notificatio.Base.{
  ℕ, suc, ◌+◌, ◌-◌, ◌≤◌, ◌≡◌, List, [], ◌∷◌, none, some, leb, if◌then◌else◌, length, All, arith,
}
use event_driven_notificatio.RateLimit.{
  Counter, rate_limit_script, window_ms, allow_outbound, allowed_count,
}

abbrev pub least : ℕ → ℕ → ℕ
least a b = if leb a b then a else b

counted :
    (limit window : ℕ) (times : List ℕ) (c : Counter)
    → All (λ t. t ≤ c.expires) times
    → allowed_count limit window times (some c) ≡ least (length times) (limit - c.value)
unfolding allowed_count allow_outbound rate_limit_script
counted limit window [] c h = ground arith
counted limit window (t ∷ times) c h =
    ground (arith, counted limit window times (record c { value = suc c.value }) h.1)

-- Of the calls on a bucket in one window, which starts with a call on a bucket that is not there and
-- lasts until its key has expired,
-- exactly the first ones up to the limit are allowed: all of them if they are no more than the limit,
-- and as many as the limit if they are more.
pub allowed_in_window :
    (limit window start : ℕ) (times : List ℕ)
    → All (λ t. t ≤ start + window_ms window) times
    → allowed_count limit window (start ∷ times) none ≡ least (suc (length times)) limit
unfolding allowed_count allow_outbound rate_limit_script
allowed_in_window limit window start times h =
    ground (
      arith,
      counted limit window times (record { value = 1; expires = start + window_ms window }) h,
    )
