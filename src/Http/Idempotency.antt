-- ===== src/Http/Idempotency.antt =====
-- internal/adapters/http/idempotency.go, over the store of
-- internal/adapters/redis/idempotency_store.go. Log lines are left out.
use event_driven_notificatio.Base.{
  ℕ, ◌+◌, Bool, false, ◌&&◌, ◌||◌, not, [], ◌∷◌, ◌++◌, Option, none, some, Text, codes, text_eq,
  is_empty, length, ltb, leb, if◌then◌else◌,
}
use event_driven_notificatio.Http.Writer.{Bytes, write_header, write, Reply, capture, fresh_writer}
use event_driven_notificatio.Http.Problem.{Problem, Place, write_problem}

-- ports.IdempotencyEntry.
pub record Entry : Type 0 where
  pub body : Bytes
  pub content_type : Text
  pub request_hash : Bytes

-- What the adapter takes from crypto/sha256 and encoding/json.
pub record Codecs : Type 0 where
  pub sha256 : Bytes → Bytes
  pub problem_json : Problem → Bytes
  pub encode : Entry → Bytes
  pub decode : Bytes → Option Entry

-- A body that is read to its end, or that fails there.
pub record Body : Type 0 where
  pub bytes : Bytes
  pub fails : Bool

pub record Request : Type 0 where
  pub key : Text
  pub body : Option Body
  pub place : Place

abbrev pub Handler : Type 0
Handler = Request → Reply

-- Redis: under each key a value, and the time at which it expires.
abbrev pub Redis : Type 0
Redis = Text → Option (Bytes × ℕ)

-- Whether the two calls of the store fail, and when they are made.
pub record Calls : Type 0 where
  pub get_fails : Bool
  pub set_fails : Bool
  pub asked_at : ℕ
  pub stored_at : ℕ

-- The response, the store, and how often the handler ran.
pub record Served : Type 0 where
  pub reply : Reply
  pub store : Redis
  pub runs : ℕ

abbrev pub max_idempotency_body_bytes : ℕ
max_idempotency_body_bytes = 1048576

-- 24 hours, in nanoseconds.
abbrev pub idempotency_ttl : ℕ
idempotency_ttl = 86400000000000

pub data BodyRead : Type 0 where
  buffered : Bytes → BodyRead
  too_large : BodyRead
  unreadable : BodyRead

-- readAndBufferRequestBody: the reader is asked for one byte more than the limit.
unfoldable pub read_and_buffer : Option Body → BodyRead
read_and_buffer none = buffered []
read_and_buffer (some b) =
    if ltb max_idempotency_body_bytes (length b.bytes)
    then too_large
    else if b.fails
    then unreadable
    else buffered b.bytes

-- The request with the buffered body, which the handler reads.
abbrev pub with_body : Request → Bytes → Request
with_body r bytes = record r {
  body = elim r.body [ none ↦ none | some b ↦ some (record { bytes = bytes; fails = false }) ];
}

pub data Lookup : Type 0 where
  unavailable : Lookup
  missing : Lookup
  hit : Entry → Lookup

abbrev pub store_key : Text → Text
store_key key = codes "idempotency:" ++ key

abbrev decoded : Option Entry → Lookup
decoded none = unavailable
decoded (some entry) = hit entry

abbrev alive : Codecs → ℕ → Option (Bytes × ℕ) → Lookup
alive o t none = missing
alive o t (some (raw, expiry)) = if ltb t expiry then decoded (o.decode raw) else missing

-- IdempotencyStore.Get.
unfoldable pub get_entry : Codecs → Calls → Text → Redis → Lookup
get_entry o c key store =
    if c.get_fails then unavailable else alive o c.asked_at (store (store_key key))

-- IdempotencyStore.Set.
unfoldable pub set_entry : Codecs → Calls → Text → Entry → Redis → Redis
set_entry o c key entry store = if c.set_fails then store else λ k.
    if text_eq k (store_key key)
    then some (o.encode entry, c.stored_at + idempotency_ttl)
    else store k

-- runAndCache.
unfoldable pub run_and_cache : Codecs → Calls → Handler → Request → Text → Bytes → Redis → Served
unfolding set_entry capture
run_and_cache o c next r key request_hash store =
    let reply = next r in
    let cw = capture reply.calls fresh_writer in
    record {
      reply = record { content_type = reply.content_type; calls = cw.forwarded };
      store =
          if ltb cw.status 200 || leb 300 cw.status
          then store
          else set_entry o c key
              (record {
                body = cw.body;
                content_type = reply.content_type;
                request_hash = request_hash;
              })
              store;
      runs = 1;
    }

-- requestHashMismatched.
unfoldable pub request_hash_mismatched : Bytes → Bytes → Bool
request_hash_mismatched stored current = ltb 0 (length stored) && not (text_eq stored current)

abbrev problem : Text → Text → ℕ → Problem
problem t title status = record {
  problem_type = t;
  title = title;
  status = status;
  instance_path = [];
  correlation_id = [];
}

-- respondWithKeyMismatch.
abbrev pub key_mismatch : Problem
key_mismatch =
    problem (codes "/probs/idempotency-key-mismatch") (codes "Idempotency Key Conflict") 409

abbrev pub payload_too_large : Problem
payload_too_large = problem (codes "/probs/payload-too-large") (codes "Payload Too Large") 413

abbrev pub bad_request : Problem
bad_request = problem (codes "/probs/bad-request") (codes "Bad Request") 400

-- A response that the middleware makes itself.
abbrev pub answered : Reply → Redis → Served
answered reply store = record { reply = reply; store = store; runs = 0 }

-- replayCachedEntry.
abbrev pub replay_cached_entry : Entry → Reply
replay_cached_entry entry = record {
  content_type = entry.content_type;
  calls = write_header 200 ∷ write entry.body ∷ [];
}

-- dispatchCacheHit.
unfoldable pub dispatch_cache_hit : Codecs → Request → Entry → Bytes → Redis → Served
unfolding request_hash_mismatched
dispatch_cache_hit o r entry request_hash store =
    if request_hash_mismatched entry.request_hash request_hash
    then answered (write_problem o.problem_json r.place key_mismatch) store
    else answered (replay_cached_entry entry) store

-- serveIdempotent, behind the body.
unfoldable pub serve_lookup : Codecs → Calls → Handler → Request → Bytes → Lookup → Redis → Served
unfolding run_and_cache dispatch_cache_hit
serve_lookup o c next r request_hash unavailable store =
    run_and_cache o c next r r.key request_hash store
serve_lookup o c next r request_hash missing store =
    run_and_cache o c next r r.key request_hash store
serve_lookup o c next r request_hash (hit entry) store =
    dispatch_cache_hit o r entry request_hash store

-- respondToBodyReadError, or what follows the body.
unfoldable pub serve_body : Codecs → Calls → Handler → Request → BodyRead → Redis → Served
unfolding serve_lookup get_entry
serve_body o c next r too_large store =
    answered (write_problem o.problem_json r.place payload_too_large) store
serve_body o c next r unreadable store =
    answered (write_problem o.problem_json r.place bad_request) store
serve_body o c next r (buffered bytes) store =
    serve_lookup o c next (with_body r bytes) (o.sha256 bytes) (get_entry o c r.key store) store

-- serveIdempotent.
unfoldable pub serve_idempotent : Codecs → Calls → Handler → Request → Redis → Served
unfolding serve_body read_and_buffer
serve_idempotent o c next r store =
    if is_empty r.key
    then record { reply = next r; store = store; runs = 1 }
    else serve_body o c next r (read_and_buffer r.body) store
