-- ===== src/Http/Problem.antt =====
-- internal/adapters/http/problem.go: problem documents, and the table from errors to them. Details and
-- log lines are left out.
use event_driven_notificatio.Base.{
  ℕ, ◌≡◌, refl, Bool, List, [], Option, none, some, text_eq, ◌∷◌, Text, codes, ◌==◌, if◌then◌else◌,
}
use event_driven_notificatio.Domain.Errors.{
  Error, invalid_channel, invalid_priority, invalid_status, invalid_log_event,
  invalid_notification_id, invalid_correlation_id, invalid_batch_id, invalid_template_id,
  invalid_log_id, invalid_recipient, invalid_content, invalid_transition, invalid_batch_size,
  batch_inconsistent_correlation, invalid_template_name, invalid_template_body,
  template_render_failed, not_found, already_claimed, concurrent_update, provider_transient,
  outbound_rate_limited, scheduled_in_past, adapter_failure,
}
use event_driven_notificatio.Http.Writer.{Bytes, Reply, sent_status, write_header, write}

pub record Problem : Type 0 where
  pub problem_type : Text
  pub title : Text
  pub status : ℕ
  pub instance_path : Text
  pub correlation_id : Text

-- Where a request came to, and its correlation id.
pub record Place : Type 0 where
  pub path : Text
  pub correlation : Text

abbrev or_else : Text → Text → Text
or_else [] default = default
or_else (c ∷ t) default = c ∷ t

-- The fields that WriteProblem fills in.
unfoldable pub completed : Problem → Place → Problem
completed p place = record p {
  problem_type = or_else p.problem_type (codes "about:blank");
  instance_path = or_else p.instance_path place.path;
  correlation_id = or_else p.correlation_id place.correlation;
}

-- WriteProblem; `json` is json.Marshal, which takes every value of the struct.
unfoldable pub write_problem : (Problem → Bytes) → Place → Problem → Reply
unfolding completed
write_problem json place p = record {
  content_type = codes "application/problem+json";
  calls = write_header p.status ∷ write (json (completed p place)) ∷ [];
}

-- errors.Is between sentinels.
abbrev sentinel_number : Error → ℕ
sentinel_number invalid_channel = 0
sentinel_number invalid_priority = 1
sentinel_number invalid_status = 2
sentinel_number invalid_log_event = 3
sentinel_number invalid_notification_id = 4
sentinel_number invalid_correlation_id = 5
sentinel_number invalid_batch_id = 6
sentinel_number invalid_template_id = 7
sentinel_number invalid_log_id = 8
sentinel_number invalid_recipient = 9
sentinel_number invalid_content = 10
sentinel_number invalid_transition = 11
sentinel_number invalid_batch_size = 12
sentinel_number batch_inconsistent_correlation = 13
sentinel_number invalid_template_name = 14
sentinel_number invalid_template_body = 15
sentinel_number template_render_failed = 16
sentinel_number not_found = 17
sentinel_number already_claimed = 18
sentinel_number concurrent_update = 19
sentinel_number provider_transient = 20
sentinel_number outbound_rate_limited = 21
sentinel_number scheduled_in_past = 22
sentinel_number adapter_failure = 23

unfoldable pub error_is : Error → Error → Bool
error_is x y = sentinel_number x == sentinel_number y

pub record ErrorMapping : Type 0 where
  pub sentinel : Error
  pub status : ℕ
  pub problem_type : Text
  pub title : Text

abbrev mapping : Error → ℕ → Text → Text → ErrorMapping
mapping x s t title = record { sentinel = x; status = s; problem_type = t; title = title }

unfoldable pub error_mappings : List ErrorMapping
error_mappings =
    mapping not_found 404 (codes "/probs/not-found") (codes "Not Found")
    ∷ mapping already_claimed 409 (codes "/probs/already-claimed") (codes "Already Claimed")
    ∷ mapping concurrent_update 409 (codes "/probs/concurrent-update") (codes "Concurrent Update")
    ∷ mapping invalid_channel 400 (codes "/probs/invalid-channel") (codes "Invalid Channel")
    ∷ mapping invalid_priority 400 (codes "/probs/invalid-priority") (codes "Invalid Priority")
    ∷ mapping invalid_status 400 (codes "/probs/invalid-status") (codes "Invalid Status")
    ∷ mapping invalid_log_event 400 (codes "/probs/invalid-log-event") (codes "Invalid Log Event")
    ∷ mapping invalid_notification_id 400 (codes "/probs/invalid-notification-id")
        (codes "Invalid Notification ID")
    ∷ mapping invalid_correlation_id 400 (codes "/probs/invalid-correlation-id")
        (codes "Invalid Correlation ID")
    ∷ mapping invalid_batch_id 400 (codes "/probs/invalid-batch-id") (codes "Invalid Batch ID")
    ∷ mapping invalid_template_id 400 (codes "/probs/invalid-template-id")
        (codes "Invalid Template ID")
    ∷ mapping invalid_log_id 400 (codes "/probs/invalid-log-id") (codes "Invalid Log ID")
    ∷ mapping invalid_recipient 400 (codes "/probs/invalid-recipient") (codes "Invalid Recipient")
    ∷ mapping invalid_content 400 (codes "/probs/invalid-content") (codes "Invalid Content")
    ∷ mapping invalid_transition 409 (codes "/probs/invalid-transition")
        (codes "Invalid Transition")
    ∷ mapping invalid_batch_size 400 (codes "/probs/invalid-batch-size")
        (codes "Invalid Batch Size")
    ∷ mapping batch_inconsistent_correlation 400 (codes "/probs/batch-inconsistent-correlation")
        (codes "Batch Inconsistent Correlation")
    ∷ mapping invalid_template_name 400 (codes "/probs/invalid-template-name")
        (codes "Invalid Template Name")
    ∷ mapping invalid_template_body 400 (codes "/probs/invalid-template-body")
        (codes "Invalid Template Body")
    ∷ mapping template_render_failed 400 (codes "/probs/template-render-failed")
        (codes "Template Render Failed")
    ∷ []

abbrev problem_of : ErrorMapping → Problem
problem_of m = record {
  problem_type = m.problem_type;
  title = m.title;
  status = m.status;
  instance_path = [];
  correlation_id = [];
}

-- An error that no entry matches.
abbrev internal_problem : Problem
internal_problem = record {
  problem_type = codes "/probs/internal";
  title = codes "Internal Server Error";
  status = 500;
  instance_path = [];
  correlation_id = [];
}

-- The loop of WriteError.
unfoldable pub find_problem : List ErrorMapping → Error → Problem
unfolding error_is
find_problem [] x = internal_problem
find_problem (m ∷ ms) x =
    let rest = find_problem ms x in if error_is x m.sentinel then problem_of m else rest

-- WriteError, on an error.
unfoldable pub write_error : (Problem → Bytes) → Place → Error → Reply
unfolding find_problem write_problem error_mappings
write_error json place x = write_problem json place (find_problem error_mappings x)

-- The status of the response to an error.
abbrev pub status_for : Error → ℕ
status_for not_found = 404
status_for already_claimed = 409
status_for concurrent_update = 409
status_for invalid_transition = 409
status_for provider_transient = 500
status_for outbound_rate_limited = 500
status_for scheduled_in_past = 500
status_for adapter_failure = 500
status_for _ = 400

-- Reading a problem type back.
abbrev pub sentinel_of : List ErrorMapping → Text → Option Error
sentinel_of [] t = none
sentinel_of (m ∷ ms) t =
    let rest = sentinel_of ms t in if text_eq m.problem_type t then some m.sentinel else rest

-- The errors that have no entry.
abbrev pub told : Error → Option Error
told provider_transient = none
told outbound_rate_limited = none
told scheduled_in_past = none
told adapter_failure = none
told x = some x

read_back :
    (x : Error) → sentinel_of error_mappings (find_problem error_mappings x).problem_type ≡ told x
unfolding find_problem error_mappings text_eq
read_back not_found = refl
read_back _ = refl

problem_status : (x : Error) → (find_problem error_mappings x).status ≡ status_for x
unfolding find_problem error_mappings
problem_status not_found = refl
problem_status _ = refl

pub write_error_lem :
    (json : Problem → Bytes) (place : Place) (x : Error)
    → (sent_status (write_error json place x).calls ≡ status_for x)
      × ((write_error json place x).content_type ≡ codes "application/problem+json")
      × (sentinel_of error_mappings (find_problem error_mappings x).problem_type ≡ told x)
unfolding write_error
write_error_lem json place x = (problem_status x, refl, read_back x)
