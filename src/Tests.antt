-- ===== src/Tests.antt =====
-- Inputs for the tests.
pub mod Entities
pub mod Workers
pub mod UseCases
pub mod Hubs
pub mod Limits
pub mod Edges
pub mod Lists
pub mod Shelves
pub mod Deliveries
pub mod Interleaved
use event_driven_notificatio.Base.{
  ℕ, ◌+◌, List, [], ◌∷◌, Option, none, some, Text, codes, true, false,
}
use event_driven_notificatio.Domain.Errors.{err, not_found}
use event_driven_notificatio.Domain.Channel.{sms, email, high, normal}
use event_driven_notificatio.Domain.Status.{queued}
use event_driven_notificatio.Domain.Notification.{Notification, NewNotificationInput, initial}
use event_driven_notificatio.Domain.Delivery.{
  DeliveryResult, delivered_result, transient_failure_result, permanent_failure_result,
}
use event_driven_notificatio.Ports.{Env, World, fine, lost}

abbrev pub sample_input : NewNotificationInput
sample_input = record {
  id = codes "n-1";
  batch_id = none;
  idempotency_key = codes "order-7";
  correlation_id = codes "c-1";
  channel = sms;
  priority = high;
  recipient = codes "+905551234567";
  content = codes "hello";
  scheduled_at = none;
  template_id = none;
}

abbrev pub sample : Notification
sample = initial sample_input 100

abbrev pub sample_queued : Notification
sample_queued = record sample { status = queued }

abbrev pub other : Notification
other = record sample { id = codes "n-2"; idempotency_key = codes "order-8"; status = queued }

abbrev pub accepting : Env
accepting = record {
  fault = λ _. fine;
  time = λ k. 1000 + k;
  fresh = λ _. codes "log-1";
  allow = λ _ _. true;
  send = λ _ _ _ _. delivered_result (codes "m-1") 40;
  rendered = λ _ _. err not_found;
}

abbrev pub refusing : Env
refusing = record accepting { allow = λ _ _. false }

abbrev pub unreachable : Env
unreachable = record accepting {
  send = λ _ _ _ _. transient_failure_result (codes "provider 5xx") 503 40;
}

abbrev pub rejecting : Env
rejecting = record accepting {
  send = λ _ _ _ _. permanent_failure_result (codes "provider 4xx") 400 40;
}

abbrev pub cut_off : Env
cut_off = record accepting { fault = λ _. lost }

abbrev pub world : World
world = record {
  rows = sample_queued ∷ other ∷ [];
  batches = [];
  logs = [];
  calls = [];
  published = [];
  sent = [];
  metrics = some [];
  tick = 0;
}
