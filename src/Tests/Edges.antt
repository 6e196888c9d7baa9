-- ===== src/Tests/Edges.antt =====
-- The theorems on the middleware of the API, at concrete inputs.
use event_driven_notificatio.Base.{
  ℕ, ◌+◌, ◌*◌, ◌≤◌, ◌<◌, ◌≡◌, refl, ap, inl, inr, ◌⊎◌, true, false, List, [], ◌∷◌, ◌++◌, Option,
  none, some, Text, codes, length, take, drop, text_eq, if◌then◌else◌, arith,
}
use event_driven_notificatio.Domain.Errors.{invalid_content}
use event_driven_notificatio.Http.Writer.{
  Bytes, WriterCall, write_header, write, sent_status, sent_body,
}
use event_driven_notificatio.Http.Problem
use event_driven_notificatio.Http.Problem.{
  Place, write_error, write_problem, sentinel_of, error_mappings, find_problem,
}
use event_driven_notificatio.Http.Idempotency.{
  Entry, Codecs, Request, Handler, Redis, Calls, serve_idempotent, key_mismatch, answered,
  read_and_buffer, get_entry,
}
use event_driven_notificatio.Http.Replay
use event_driven_notificatio.Http.Replay.{IsCodecs, replayed}
use event_driven_notificatio.Http.Inbound
use event_driven_notificatio.Http.Inbound.{
  Origin, Verdict, refused, limit_inbound, nanoseconds, retry_after_seconds,
}

abbrev calls : List WriterCall
calls = write_header 201 ∷ write (codes "{}") ∷ write_header 500 ∷ []

abbrev place : Place
place = record { path = codes "/notifications"; correlation = codes "c-1" }

write_error_lem_example :
    (sent_status (write_error (λ p. p.title) place invalid_content).calls ≡ 400)
    × ((write_error (λ p. p.title) place invalid_content).content_type
        ≡ codes "application/problem+json")
    × (sentinel_of error_mappings (find_problem error_mappings invalid_content).problem_type
        ≡ some invalid_content)
write_error_lem_example = Problem.write_error_lem (λ p. p.title) place invalid_content

take-append : (xs ys : Bytes) → take (length xs) (xs ++ ys) ≡ xs
take-append [] ys = refl
take-append (x ∷ xs) ys = ap (λ zs. x ∷ zs) (take-append xs ys)

drop-append : (xs ys : Bytes) → drop (length xs) (xs ++ ys) ≡ ys
drop-append [] ys = refl
drop-append (x ∷ xs) ys = drop-append xs ys

abbrev unpack : Bytes → Option Entry
unpack [] = none
unpack (n ∷ []) = none
unpack (n ∷ (m ∷ rest)) = some (record {
  body = take n rest;
  content_type = take m (drop n rest);
  request_hash = drop m (drop n rest);
})

abbrev codecs : Codecs
codecs = record {
  sha256 = λ b. 0 ∷ b;
  problem_json = λ p. p.title;
  encode =
      λ e. length e.body ∷ (length e.content_type ∷ (e.body ++ (e.content_type ++ e.request_hash)));
  decode = unpack;
}

codecs-IsCodecs : IsCodecs codecs
codecs-IsCodecs = record {
  back = λ e. rw (
    take-append e.body (e.content_type ++ e.request_hash),
    drop-append e.body (e.content_type ++ e.request_hash),
    take-append e.content_type e.request_hash,
    drop-append e.content_type e.request_hash,
  );
  digest = λ b. omega arith;
}

abbrev created : Handler
created r = record { content_type = codes "application/json"; calls = calls }

abbrev broken : Handler
broken r = record { content_type = []; calls = write_header 503 ∷ [] }

abbrev request : Request
request = record {
  key = codes "k-1";
  body = some (record { bytes = codes "{1}"; fails = false });
  place = place;
}

abbrev empty_store : Redis
empty_store k = none

abbrev first_calls : Calls
first_calls = record { get_fails = false; set_fails = false; asked_at = 10; stored_at = 20 }

abbrev later_calls : Calls
later_calls = record { get_fails = false; set_fails = false; asked_at = 1000; stored_at = 1010 }

serve_idempotent_replays_example :
    let first = serve_idempotent codecs first_calls created request empty_store in
    let second = serve_idempotent codecs later_calls broken request first.store in
    (first.runs ≡ 1)
    × (first.reply.content_type ≡ codes "application/json")
    × (sent_status first.reply.calls ≡ 201)
    × (sent_body first.reply.calls ≡ codes "{}")
    × (second
        ≡ answered
            (if text_eq (0 ∷ codes "{1}") (0 ∷ codes "{1}")
              then replayed (created request)
              else write_problem (λ p. p.title) place key_mismatch)
            first.store)
unfolding read_and_buffer get_entry
serve_idempotent_replays_example =
    Replay.serve_idempotent_replays codecs first_calls later_calls created broken request request
      empty_store (codes "{1}") (codes "{1}") codecs-IsCodecs refl refl refl refl refl (omega arith)
      (omega arith) refl refl (omega arith)

serve_idempotent_failure_example :
    ((serve_idempotent codecs first_calls broken request empty_store).store ≡ empty_store)
    × ((serve_idempotent codecs first_calls broken request empty_store).runs ≡ 1)
unfolding read_and_buffer get_entry
serve_idempotent_failure_example =
    Replay.serve_idempotent_failure codecs first_calls broken request empty_store (codes "{1}") refl
      refl (inl refl) (inr (omega arith))

abbrev direct : Origin
direct = record {
  forwarded_for = codes " 10.0.0.7, 10.0.0.2";
  real_ip = [];
  remote_addr = codes "10.0.0.1";
}

abbrev refuses : Text → Verdict
refuses bucket = refused 1500000000

limit_inbound_lem_example :
    let out =
      limit_inbound (λ t. some t) refuses (λ p. p.title) true direct place (created request) in
    (sent_status out.reply.calls ≡ 429)
    × (out.runs ≡ 0)
    × ((s : ℕ) × (out.retry_after ≡ some s)
        × (1 ≤ s)
        × (1500000000 < s * nanoseconds + 1000)
        × ((s * nanoseconds < 1500000000 + nanoseconds) ⊎ (s ≡ 1)))
unfolding event_driven_notificatio.Base.trim_space event_driven_notificatio.Base.is_space
limit_inbound_lem_example =
    Inbound.limit_inbound_lem (λ t. some t) refuses (λ p. p.title) true direct place
      (created request) (codes "10.0.0.7")
      (Inbound.first_entry (codes " 10.0.0.7") (codes " 10.0.0.2") refl refl)
