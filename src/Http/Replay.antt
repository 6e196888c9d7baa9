-- ===== src/Http/Replay.antt =====
-- internal/adapters/http/idempotency.go: what a repeated request gets.
use event_driven_notificatio.Base.{
  ℕ, ◌+◌, ◌≤◌, ◌<◌, ◌≡◌, refl, ap, ◌∙◌, ◌⊎◌, inl, inr, Bool, true, false, ◌||◌, not, [], ◌∷◌, some,
  Text, text_eq, text_eq_refl, is_empty, length, ltb, leb, Bool-cases, if◌then◌else◌, arith,
}
use event_driven_notificatio.Http.Writer.{
  Bytes, write_header, write, Reply, sent_status, sent_body, capture_lem,
}
use event_driven_notificatio.Http.Problem.{write_problem}
use event_driven_notificatio.Http.Idempotency.{
  Entry, Codecs, Request, Handler, Redis, Calls, Served, idempotency_ttl, read_and_buffer, buffered,
  with_body, unavailable, missing, hit, store_key, get_entry, set_entry, run_and_cache,
  request_hash_mismatched, key_mismatch, answered, dispatch_cache_hit, serve_lookup, serve_body,
  serve_idempotent,
}

-- What encoding/json and crypto/sha256 promise: an entry comes back, and a digest is not empty.
pub record IsCodecs (o : Codecs) : Type 0 where
  pub back : (entry : Entry) → o.decode (o.encode entry) ≡ some entry
  pub digest : (bytes : Bytes) → 1 ≤ length (o.sha256 bytes)

-- A status that is cached.
abbrev is_success : ℕ → Bool
is_success status = not (ltb status 200 || leb 300 status)

-- The entry of a response.
abbrev entry_of : Reply → Bytes → Entry
entry_of reply hash = record {
  body = sent_body reply.calls;
  content_type = reply.content_type;
  request_hash = hash;
}

module _ (o : Codecs) (c : Calls) (next : Handler) (r : Request) (store : Redis)
    (bytes : Bytes) where
  abbrev first_reply : Reply
  first_reply = next (with_body r bytes)

  -- A request with a key and a readable body, of which the store knows nothing.
  serve-miss :
      is_empty r.key ≡ false
      → read_and_buffer r.body ≡ buffered bytes
      → (get_entry o c r.key store ≡ missing) ⊎ (get_entry o c r.key store ≡ unavailable)
      → serve_idempotent o c next r store
        ≡ run_and_cache o c next (with_body r bytes) r.key (o.sha256 bytes) store
  unfolding serve_idempotent serve_body serve_lookup
  serve-miss k read (inl e) = rw (k, read, e)
  serve-miss k read (inr e) = rw (k, read, e)

  serve-hit :
      (entry : Entry)
      → is_empty r.key ≡ false
      → read_and_buffer r.body ≡ buffered bytes
      → get_entry o c r.key store ≡ hit entry
      → serve_idempotent o c next r store
        ≡ dispatch_cache_hit o (with_body r bytes) entry (o.sha256 bytes) store
  unfolding serve_idempotent serve_body serve_lookup
  serve-hit entry k read e = rw (k, read, e)

  -- What the capturing writer leaves.
  run-reply :
      let served = run_and_cache o c next (with_body r bytes) r.key (o.sha256 bytes) store in
      (served.runs ≡ 1)
      × (served.reply.content_type ≡ first_reply.content_type)
      × (sent_status served.reply.calls ≡ sent_status first_reply.calls)
      × (sent_body served.reply.calls ≡ sent_body first_reply.calls)
  unfolding run_and_cache
  run-reply =
      let (status, body, sent, whole) = capture_lem first_reply.calls in (refl, refl, sent, whole)

  run-stored :
      is_success (sent_status first_reply.calls) ≡ true
      → (run_and_cache o c next (with_body r bytes) r.key (o.sha256 bytes) store).store
        ≡ set_entry o c r.key (entry_of first_reply (o.sha256 bytes)) store
  unfolding run_and_cache
  run-stored h =
      let (status, body, sent, whole) = capture_lem first_reply.calls in
      rw (status, body) (ground arith)

  run-dropped :
      is_success (sent_status first_reply.calls) ≡ false
      → (run_and_cache o c next (with_body r bytes) r.key (o.sha256 bytes) store).store ≡ store
  unfolding run_and_cache
  run-dropped h =
      let (status, body, sent, whole) = capture_lem first_reply.calls in rw status (ground arith)

get_entry-set_entry :
    (o : Codecs) (c later : Calls) (key : Text) (entry : Entry) (store : Redis)
    → IsCodecs o
    → c.set_fails ≡ false
    → later.get_fails ≡ false
    → later.asked_at < c.stored_at + idempotency_ttl
    → get_entry o later key (set_entry o c key entry store) ≡ hit entry
unfolding get_entry set_entry
get_entry-set_entry o c later key entry store laws stored asked early =
    let fresh : ltb later.asked_at (c.stored_at + idempotency_ttl) ≡ true = ground arith in
    rw (stored, asked, text_eq_refl (store_key key), fresh, laws.back entry)

-- The mismatch is exactly that of the digests.
mismatch_lem :
    (o : Codecs) (s t : Bytes)
    → IsCodecs o
    → request_hash_mismatched (o.sha256 s) (o.sha256 t) ≡ not (text_eq (o.sha256 s) (o.sha256 t))
unfolding request_hash_mismatched
mismatch_lem o s t laws = ground (arith, laws.digest s)

-- The response that is replayed.
abbrev pub replayed : Reply → Reply
replayed reply = record {
  content_type = reply.content_type;
  calls = write_header 200 ∷ write (sent_body reply.calls) ∷ [];
}

dispatch_lem :
    (o : Codecs) (r : Request) (reply : Reply) (s t : Bytes) (store : Redis)
    → IsCodecs o
    → dispatch_cache_hit o r (entry_of reply (o.sha256 s)) (o.sha256 t) store
      ≡ answered
          (if text_eq (o.sha256 s) (o.sha256 t)
            then replayed reply
            else write_problem o.problem_json r.place key_mismatch)
          store
unfolding dispatch_cache_hit
dispatch_lem o r reply s t store laws =
    rw (mismatch_lem o s t laws)
      (elim (Bool-cases (text_eq (o.sha256 s) (o.sha256 t))) [ inl e ↦ rw e | inr e ↦ rw e ])

pub serve_idempotent_replays :
    (o : Codecs) (c later : Calls) (next next' : Handler) (r r' : Request) (store : Redis)
    (bytes bytes' : Bytes)
    → IsCodecs o
    → is_empty r.key ≡ false
    → r'.key ≡ r.key
    → read_and_buffer r.body ≡ buffered bytes
    → read_and_buffer r'.body ≡ buffered bytes'
    → get_entry o c r.key store ≡ missing
    → 200 ≤ sent_status (next (with_body r bytes)).calls
    → sent_status (next (with_body r bytes)).calls < 300
    → c.set_fails ≡ false
    → later.get_fails ≡ false
    → later.asked_at < c.stored_at + idempotency_ttl
    → let first = serve_idempotent o c next r store in
      let second = serve_idempotent o later next' r' first.store in
      (first.runs ≡ 1)
      × (first.reply.content_type ≡ (next (with_body r bytes)).content_type)
      × (sent_status first.reply.calls ≡ sent_status (next (with_body r bytes)).calls)
      × (sent_body first.reply.calls ≡ sent_body (next (with_body r bytes)).calls)
      × (second
          ≡ answered
              (if text_eq (o.sha256 bytes) (o.sha256 bytes')
                then replayed (next (with_body r bytes))
                else write_problem o.problem_json r'.place key_mismatch)
              first.store)
serve_idempotent_replays o c later next next' r r' store bytes bytes' laws k same read read' miss
      low high stored asked early =
    let served = serve-miss o c next r store bytes k read (inl miss) in
    let (runs, content, status, body) = run-reply o c next r store bytes in
    let reply = next (with_body r bytes) in
    let kept : (serve_idempotent o c next r store).store
        ≡ set_entry o c r.key (entry_of reply (o.sha256 bytes)) store =
      ap (λ (s : Served). s.store) served ∙ run-stored o c next r store bytes (ground arith) in
    let known : get_entry o later r'.key (serve_idempotent o c next r store).store
        ≡ hit (entry_of reply (o.sha256 bytes)) =
      rw (same, kept)
        (get_entry-set_entry o c later r.key (entry_of reply (o.sha256 bytes)) store laws stored
          asked early) in
    (
      ap (λ (s : Served). s.runs) served ∙ runs,
      ap (λ (s : Served). s.reply.content_type) served ∙ content,
      ap (λ (s : Served). sent_status s.reply.calls) served ∙ status,
      ap (λ (s : Served). sent_body s.reply.calls) served ∙ body,
      serve-hit o later next' r' (serve_idempotent o c next r store).store bytes'
            (entry_of reply (o.sha256 bytes)) (rw same k) read' known
          ∙ dispatch_lem o (with_body r' bytes') reply bytes bytes'
              (serve_idempotent o c next r store).store laws,
    )

-- A response that is no success is not kept: for a request with a key and a body that can be read
-- within the limit, where the store does not hold the key or cannot be read, the handler runs once, and
-- if its status is not a 2xx the store stays as it was, so the client may try again with the same key.
pub serve_idempotent_failure :
    (o : Codecs) (c : Calls) (next : Handler) (r : Request) (store : Redis) (bytes : Bytes)
    → is_empty r.key ≡ false
    → read_and_buffer r.body ≡ buffered bytes
    → (get_entry o c r.key store ≡ missing) ⊎ (get_entry o c r.key store ≡ unavailable)
    → (sent_status (next (with_body r bytes)).calls < 200)
      ⊎ (300 ≤ sent_status (next (with_body r bytes)).calls)
    → ((serve_idempotent o c next r store).store ≡ store)
      × ((serve_idempotent o c next r store).runs ≡ 1)
serve_idempotent_failure o c next r store bytes k read miss bad =
    let served = serve-miss o c next r store bytes k read miss in
    (
      ap (λ (s : Served). s.store) served ∙ run-dropped o c next r store bytes (ground arith),
      ap (λ (s : Served). s.runs) served ∙ (run-reply o c next r store bytes).0,
    )
