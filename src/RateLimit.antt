-- ===== src/RateLimit.antt =====
-- internal/adapters/redis/outbound_rate_limiter.go: the script of the fixed window over one key, and
-- the call around it. A key of Redis is a counter with the time at which it expires, in
-- milliseconds; INCR of a key that is not there, or has expired, makes it 1. The script sets the
-- expiry with the first INCR and no other code writes the key, so no counter is without one.
pub mod Window
use event_driven_notificatio.Base.{
  ℕ, suc, ◌+◌, ◌-◌, ◌/◌, Bool, true, false, List, [], ◌∷◌, Option, none, some, ltb, leb, ◌==◌,
  if◌then◌else◌,
}

pub record Counter : Type 0 where
  pub value : ℕ
  pub expires : ℕ

-- The key as Redis sees it at a time: it is gone once that time is past its expiry.
abbrev pub live : ℕ → Option Counter → Option Counter
live now none = none
live now (some c) = if leb now c.expires then some c else none

-- INCR, and PEXPIRE behind the first.
abbrev pub increment : ℕ → ℕ → Option Counter → Counter
increment now window none = record { value = 1; expires = now + window }
increment now window (some c) = record c { value = suc c.value }

-- The script: the key, whether the call is allowed, and the time left of the window.
unfoldable pub rate_limit_script : ℕ → ℕ → ℕ → Option Counter → Option Counter × Bool × ℕ
rate_limit_script limit window now key =
    let current = increment now window (live now key) in
    if ltb limit current.value
    then (some current, false, current.expires - now)
    else (some current, true, 0)

-- The window of Allow, of nanoseconds, in milliseconds and at least 1.
abbrev pub window_ms : ℕ → ℕ
window_ms window = if ltb (window / 1000000) 1 then 1 else window / 1000000

-- OutboundRateLimiter.Allow on one bucket, where Redis answers, with its wait in milliseconds.
unfoldable pub allow_outbound : ℕ → ℕ → ℕ → Option Counter → Option Counter × Bool × ℕ
unfolding rate_limit_script
allow_outbound limit window now key = rate_limit_script limit (window_ms window) now key

-- How many of the calls at these times are allowed.
unfoldable pub allowed_count : ℕ → ℕ → List ℕ → Option Counter → ℕ
unfolding allow_outbound
allowed_count limit window [] key = 0
allowed_count limit window (now ∷ times) key =
    let (after, allowed, _retry) = allow_outbound limit window now key in
    let rest = allowed_count limit window times after in if allowed then suc rest else rest
