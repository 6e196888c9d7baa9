-- ===== src/Http/Inbound.antt =====
-- internal/adapters/http/inbound_rate_limit.go. The limiter's hint is a number of nanoseconds; a
-- negative one is given as 0, and both become one second.
use event_driven_notificatio.Base.{
  ℕ, zero, suc, ◌+◌, ◌*◌, ◌/◌, ◌%◌, leb, true, false, all, length, ◌≤◌, ◌<◌, ◌≡◌, refl, ◌⊎◌, Bool,
  not, List, [], ◌∷◌, ◌++◌, Option, none, some, Text, codes, is_empty, trim_space, ltb, ◌==◌,
  if◌then◌else◌, arith,
}
use event_driven_notificatio.Http.Writer.{Bytes, Reply, sent_status}
use event_driven_notificatio.Http.Problem.{Problem, Place, write_problem}

-- The headers and the address by which a client is known.
pub record Origin : Type 0 where
  pub forwarded_for : Text
  pub real_ip : Text
  pub remote_addr : Text

unfoldable pub before_comma : Text → Text
before_comma [] = []
before_comma (c ∷ t) = let rest = before_comma t in if c == b',' then [] else c ∷ rest

-- clientIP; `split_host` is net.SplitHostPort.
unfoldable pub client_ip : (Text → Option Text) → Origin → Text
unfolding before_comma trim_space
client_ip split_host origin =
    if not (is_empty origin.forwarded_for)
    then trim_space (before_comma origin.forwarded_for)
    else if not (is_empty origin.real_ip)
    then trim_space origin.real_ip
    else elim (split_host origin.remote_addr) [ none ↦ origin.remote_addr | some host ↦ host ]

-- What RateLimiter.Allow says.
pub data Verdict : Type 0 where
  unreachable : Verdict
  allowed : Verdict
  refused : ℕ → Verdict

abbrev pub nanoseconds : ℕ
nanoseconds = 1000000000

-- The largest power of two up to `s`, from `p` on by at most `k` doublings.
unfoldable pub top_power : ℕ → ℕ → ℕ → ℕ
top_power zero p s = p
top_power (suc k) p s = let rest = top_power k (p + p) s in if leb (p + p) s then rest else p

-- 2 ^ 53, the mantissa of a float64.
abbrev pub mantissa : ℕ
mantissa = 9007199254740992

-- math.Ceil of Duration.Seconds, which adds float64 values: the nanoseconds are lost where they are
-- no more than half of the last place of the seconds, of which an int64 has less than 2 ^ 34.
unfoldable pub ceil_seconds : ℕ → ℕ
unfolding top_power
ceil_seconds d =
    let sec = d / nanoseconds in
    let nsec = d % nanoseconds in
    if leb (nsec * mantissa) (top_power 33 1 sec * nanoseconds) then sec else sec + 1

-- retryAfterSeconds.
unfoldable pub retry_after_seconds : ℕ → ℕ
unfolding ceil_seconds
retry_after_seconds d = let secs = ceil_seconds d in if ltb secs 1 then 1 else secs

-- The response with its Retry-After, the endpoints that were counted, and how often the handler ran.
pub record Limited : Type 0 where
  pub retry_after : Option ℕ
  pub reply : Reply
  pub hits : List Text
  pub runs : ℕ

abbrev pub rate_limited : Problem
rate_limited = record {
  problem_type = codes "/probs/rate-limited";
  title = codes "Too Many Requests";
  status = 429;
  instance_path = [];
  correlation_id = [];
}

-- respondWithRateLimited; `metered` says whether there is a recorder.
unfoldable pub respond_with_rate_limited : (Problem → Bytes) → Bool → Place → ℕ → Limited
unfolding retry_after_seconds
respond_with_rate_limited json metered place d = record {
  retry_after = some (retry_after_seconds d);
  reply = write_problem json place rate_limited;
  hits = if metered then place.path ∷ [] else [];
  runs = 0;
}

abbrev passed : Reply → Limited
passed reply = record { retry_after = none; reply = reply; hits = []; runs = 1 }

-- The branches of InboundRateLimitMiddleware.
unfoldable pub on_verdict : (Problem → Bytes) → Bool → Place → Reply → Verdict → Limited
unfolding respond_with_rate_limited
on_verdict json metered place handled unreachable = passed handled
on_verdict json metered place handled allowed = passed handled
on_verdict json metered place handled (refused d) = respond_with_rate_limited json metered place d

-- InboundRateLimitMiddleware.
unfoldable pub limit_inbound :
    (Text → Option Text)
    → (Text → Verdict)
    → (Problem → Bytes)
    → Bool
    → Origin
    → Place
    → Reply
    → Limited
unfolding on_verdict client_ip
limit_inbound split_host allow json metered origin place handled =
    on_verdict json metered place handled (allow (codes "ip:" ++ client_ip split_host origin))

doubled : ℕ → ℕ → ℕ
doubled zero p = p
doubled (suc k) p = doubled k (p + p)

doubled_grows : (k p : ℕ) → p ≤ doubled k p
unfolding doubled
doubled_grows zero p = omega arith
doubled_grows (suc k) p = omega (arith, doubled_grows k (p + p))

top_power_bound : (k p s : ℕ) → top_power k p s ≤ doubled k p
unfolding top_power doubled
top_power_bound zero p s = omega arith
top_power_bound (suc k) p s = ground (arith, top_power_bound k (p + p) s, doubled_grows k (p + p))

top_power_33 : (s : ℕ) → top_power 33 1 s ≤ 8589934592
unfolding doubled
top_power_33 s = top_power_bound 33 1 s

ceil_bounds :
    (d : ℕ)
    → (d < ceil_seconds d * nanoseconds + 1000) × (ceil_seconds d * nanoseconds < d + nanoseconds)
unfolding ceil_seconds
ceil_bounds d = (ground (arith, top_power_33 (d / nanoseconds)), ground arith)

retry_bounds :
    (d : ℕ)
    → (1 ≤ retry_after_seconds d)
      × (d < retry_after_seconds d * nanoseconds + 1000)
      × ((retry_after_seconds d * nanoseconds < d + nanoseconds) ⊎ (retry_after_seconds d ≡ 1))
unfolding retry_after_seconds
retry_bounds d = (ground arith, ground (arith, ceil_bounds d), ground (arith, ceil_bounds d))

-- What a client is promised under each verdict on its bucket.
abbrev pub IsPromised : Reply → Place → Limited → Verdict → Type 0
IsPromised handled place out unreachable =
    (out.reply ≡ handled) × (out.runs ≡ 1) × (out.retry_after ≡ none)
IsPromised handled place out allowed =
    (out.reply ≡ handled) × (out.runs ≡ 1) × (out.retry_after ≡ none)
IsPromised handled place out (refused d) =
    (sent_status out.reply.calls ≡ 429)
    × (out.runs ≡ 0)
    × ((s : ℕ) × (out.retry_after ≡ some s)
        × (1 ≤ s)
        × (d < s * nanoseconds + 1000)
        × ((s * nanoseconds < d + nanoseconds) ⊎ (s ≡ 1)))

promised :
    (json : Problem → Bytes) (metered : Bool) (place : Place) (handled : Reply) (v : Verdict)
    → IsPromised handled place (on_verdict json metered place handled v) v
unfolding on_verdict write_problem
promised json metered place handled unreachable = (refl, refl, refl)
promised json metered place handled allowed = (refl, refl, refl)
promised json metered place handled (refused d) =
    let (positive, covers, tight) = retry_bounds d in
    (refl, refl, (retry_after_seconds d, refl, positive, covers, tight))

abbrev pub is_no_comma : ℕ → Bool
is_no_comma c = not (c == b',')

-- The address of the client: the first entry of X-Forwarded-For, or else X-Real-IP, both trimmed, or
-- else the host of the connection, or its whole address where that has no port.
pub data IsClient (split_host : Text → Option Text) (origin : Origin) : Text → Type 0 where
  first_entry :
      (first rest : Text)
      → all is_no_comma first ≡ true
      → origin.forwarded_for ≡ first ++ b',' ∷ rest
      → IsClient split_host origin (trim_space first)
  only_entry :
      all is_no_comma origin.forwarded_for ≡ true
      → 1 ≤ length origin.forwarded_for
      → IsClient split_host origin (trim_space origin.forwarded_for)
  proxied :
      origin.forwarded_for ≡ []
      → 1 ≤ length origin.real_ip
      → IsClient split_host origin (trim_space origin.real_ip)
  connected :
      (host : Text)
      → origin.forwarded_for ≡ []
      → origin.real_ip ≡ []
      → split_host origin.remote_addr ≡ some host
      → IsClient split_host origin host
  unsplit :
      origin.forwarded_for ≡ []
      → origin.real_ip ≡ []
      → split_host origin.remote_addr ≡ none
      → IsClient split_host origin origin.remote_addr

before_comma-first :
    (first rest : Text) → all is_no_comma first ≡ true → before_comma (first ++ b',' ∷ rest) ≡ first
unfolding before_comma
before_comma-first [] rest h = refl
before_comma-first (c ∷ first) rest h = ground (arith, before_comma-first first rest)

before_comma-only : (t : Text) → all is_no_comma t ≡ true → before_comma t ≡ t
unfolding before_comma
before_comma-only [] h = refl
before_comma-only (c ∷ t) h = ground (arith, before_comma-only t)

given : (t : Text) → 1 ≤ length t → is_empty t ≡ false
given [] h = absurd (omega arith)
given (c ∷ t) h = refl

given_first : (first rest : Text) → is_empty (first ++ b',' ∷ rest) ≡ false
given_first [] rest = refl
given_first (c ∷ first) rest = refl

client_ip_lem :
    (split_host : Text → Option Text) (origin : Origin) (address : Text)
    → IsClient split_host origin address
    → client_ip split_host origin ≡ address
unfolding client_ip
client_ip_lem split_host origin _ (first_entry first rest h e) =
    rw (e, given_first first rest, before_comma-first first rest h) refl
client_ip_lem split_host origin _ (only_entry h g) =
    rw (given origin.forwarded_for g, before_comma-only origin.forwarded_for h) refl
client_ip_lem split_host origin _ (proxied e g) = rw (e, given origin.real_ip g) refl
client_ip_lem split_host origin _ (connected host e g h) = rw (e, g, h) refl
client_ip_lem split_host origin _ (unsplit e g h) = rw (e, g, h) refl

pub limit_inbound_lem :
    (split_host : Text → Option Text) (allow : Text → Verdict) (json : Problem → Bytes)
    (metered : Bool) (origin : Origin) (place : Place) (handled : Reply) (address : Text)
    → IsClient split_host origin address
    → IsPromised handled place
        (limit_inbound split_host allow json metered origin place handled)
        (allow (codes "ip:" ++ address))
unfolding limit_inbound
limit_inbound_lem split_host allow json metered origin place handled address c =
    rw (client_ip_lem split_host origin address c)
      (promised json metered place handled (allow (codes "ip:" ++ address)))
