-- ===== src/Tests/Deliveries.antt =====
-- Tests of the providers: a breaker that opens after one failure, in front of a webhook that answers
-- each message with the next of a list of statuses.
use event_driven_notificatio.Base.{
  refl, ℕ, Bool, true, false, List, [], ◌∷◌, Text, codes, if◌then◌else◌,
}
use event_driven_notificatio.Domain.Channel.{Channel, sms}
use event_driven_notificatio.Providers.{
  guarded_provider, Formats, Response, Exchange, undone, answers, Gobreaker, runs, open_state,
  webhook_send,
}
use event_driven_notificatio.Providers.Verdicts
use event_driven_notificatio.Providers.Verdicts.{Settles}

abbrev plain : Formats
plain = record { decimal = λ n. n ∷ []; quoted = λ t. t; message_id = λ body. body }

abbrev answer : ℕ → Response
answer code = record {
  status_code = code;
  status = codes "status";
  body = codes "m-1";
  readable = true;
}

network : Channel → Text → Text → List ℕ → (Exchange × ℕ) × List ℕ
network c recipient content [] = ((undone (codes "no route"), 5), [])
network c recipient content (code ∷ rest) = ((answers (answer code), 5), rest)

abbrev fuse : Gobreaker
fuse = record {
  State = Bool;
  admits = λ closed. if closed then runs else open_state;
  counts = λ failed closed. if failed then false else closed;
  rejects = λ closed. closed;
  waits = λ closed. 1;
}

guarded_provider-Settles_example : Settles runs (answers (answer 202)) (202 ∷ []) (
    guarded_provider fuse plain
      (λ d. webhook_send plain network)
      sms
      (codes "+905551234567")
      (codes "hi")
      (true, 202 ∷ []))
unfolding network
guarded_provider-Settles_example =
    Verdicts.guarded_provider-Settles fuse plain network sms (codes "+905551234567") (codes "hi")
      true (202 ∷ []) refl
