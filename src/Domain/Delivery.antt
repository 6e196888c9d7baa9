-- ===== src/Domain/Delivery.antt =====
-- internal/domain/delivery_result.go: the outcome of one provider call. Latencies are nanoseconds.
use event_driven_notificatio.Base.{ℕ, Bool, true, false, [], Text}

pub record DeliveryResult : Type 0 where
  pub success : Bool
  pub message_id : Text
  pub retryable : Bool
  pub reason : Text
  pub provider_code : ℕ
  pub latency : ℕ

-- DeliveredResult.
abbrev pub delivered_result : Text → ℕ → DeliveryResult
delivered_result message_id latency = record {
  success = true;
  message_id = message_id;
  retryable = false;
  reason = [];
  provider_code = 0;
  latency = latency;
}

-- PermanentFailureResult.
abbrev pub permanent_failure_result : Text → ℕ → ℕ → DeliveryResult
permanent_failure_result reason provider_code latency = record {
  success = false;
  message_id = [];
  retryable = false;
  reason = reason;
  provider_code = provider_code;
  latency = latency;
}

-- TransientFailureResult.
abbrev pub transient_failure_result : Text → ℕ → ℕ → DeliveryResult
transient_failure_result reason provider_code latency = record {
  success = false;
  message_id = [];
  retryable = true;
  reason = reason;
  provider_code = provider_code;
  latency = latency;
}
