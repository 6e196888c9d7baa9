-- ===== src/Providers.antt =====
-- internal/adapters/provider/{registry,webhook}.go, internal/infrastructure/circuit/breaker.go and
-- their wiring in cmd/worker/main.go. A
-- provider is a function on the state of what it talks to. `Formats` is what fmt and encoding/json
-- make of values, `Gobreaker` the breaker of the gobreaker package; a latency is given by the clock.
pub mod Verdicts
use event_driven_notificatio.Base.{
  ℕ, Bool, true, false, not, ◌&&◌, List, [], ◌∷◌, ◌++◌, Option, none, some, Text, codes, text_eq,
  if◌then◌else◌, ltb, leb, take,
}
use event_driven_notificatio.Domain.Channel.{Channel, sms, email, push, channel_text}
use event_driven_notificatio.Domain.Delivery.{
  DeliveryResult, delivered_result, permanent_failure_result, transient_failure_result,
}

abbrev pub Provider {ℓ} : Type ℓ → Type ℓ
Provider S = Channel → Text → Text → S → DeliveryResult × S

pub record Formats : Type 0 where
  pub decimal : ℕ → Text
  pub quoted : Text → Text
  pub message_id : List ℕ → Text

-- http.Response; `readable` tells whether the first 256 bytes of the body can be read.
pub record Response : Type 0 where
  pub status_code : ℕ
  pub status : Text
  pub body : List ℕ
  pub readable : Bool

-- What becomes of a request: json.Marshal, http.NewRequestWithContext or client.Do fails, or there
-- is a response.
pub data Exchange : Type 0 where
  unmarshalled unbuilt undone : Text → Exchange
  answers : Response → Exchange

-- readBodyForReason.
unfoldable pub read_body_for_reason : Response → Text
read_body_for_reason r = if r.readable then take 256 r.body else r.status

module _ (f : Formats) where
  -- WebhookProvider.classify.
  unfoldable pub classify : Response → ℕ → DeliveryResult
  unfolding read_body_for_reason
  classify r latency =
      if leb 200 r.status_code && ltb r.status_code 300
      then delivered_result (f.message_id r.body) latency
      else if leb 400 r.status_code && ltb r.status_code 500
      then permanent_failure_result (codes "webhook 4xx: " ++ read_body_for_reason r) r.status_code
          latency
      else transient_failure_result
          (codes "webhook " ++ (f.decimal r.status_code ++ (codes ": " ++ read_body_for_reason r)))
          r.status_code latency

  -- WebhookProvider.Send, behind the exchange.
  unfoldable pub webhook_result : Exchange → ℕ → DeliveryResult
  unfolding classify
  webhook_result (unmarshalled x) latency =
      permanent_failure_result (codes "webhook: marshal request: " ++ x) 0 latency
  webhook_result (unbuilt x) latency =
      transient_failure_result (codes "webhook: build request: " ++ x) 0 latency
  webhook_result (undone x) latency = transient_failure_result (codes "webhook: " ++ x) 0 latency
  webhook_result (answers r) latency = classify r latency

  -- WebhookProvider.Send; `exchange` is the network, which sees the message and takes some time.
  unfoldable pub webhook_send {ℓ} :
      {S : Type ℓ} → (Channel → Text → Text → S → (Exchange × ℕ) × S) → Provider S
  unfolding webhook_result
  webhook_send exchange channel recipient content s =
      let ((x, latency), s') = exchange channel recipient content s in
      (webhook_result x latency, s')

-- What gobreaker.Execute does with a call: runs it, or returns one of its two errors.
pub data Admission : Type 0 where
  runs open_state too_many_requests : Admission

pub record Gobreaker : Type 1 where
  pub State : Type 0
  pub admits : State → Admission
  pub counts : Bool → State → State
  pub rejects : State → State
  pub waits : State → ℕ

-- The error of the closure that Breaker.Send hands to Execute.
abbrev pub is_transient : DeliveryResult → Bool
is_transient r = not r.success && r.retryable

module _ (g : Gobreaker) (f : Formats) where
  abbrev pub circuit_open : Channel → g.State → DeliveryResult
  circuit_open channel b =
      transient_failure_result (codes "circuit open for " ++ f.quoted (channel_text channel)) 0
        (g.waits b)

  abbrev pub ran : g.State → {S : Type 0} → DeliveryResult × S → DeliveryResult × (g.State × S)
  ran b (r, s) = (r, (g.counts (is_transient r) b, s))

  abbrev pub decided :
      {S : Type 0}
      → Admission
      → Channel
      → g.State
      → S
      → (S → DeliveryResult × S)
      → DeliveryResult × (g.State × S)
  decided runs channel b s call = ran b (call s)
  decided open_state channel b s call = (circuit_open channel b, (g.rejects b, s))
  decided too_many_requests channel b s call = (circuit_open channel b, (g.rejects b, s))

  -- Breaker.Send.
  unfoldable pub breaker_send : {S : Type 0} → Provider S → Provider (g.State × S)
  breaker_send inner channel recipient content (b, s) =
      decided (g.admits b) channel b s (inner channel recipient content)

-- Registry.
abbrev pub Registry {ℓ} : Type ℓ → Type ℓ
Registry S = List (Channel × Provider S)

abbrev pub same_channel : Channel → Channel → Bool
same_channel c d = text_eq (channel_text c) (channel_text d)

module _ {ℓ} {S : Type ℓ} where
  -- Registry.Register.
  unfoldable pub register : Channel → Provider S → Registry S → Registry S
  register c p [] = (c, p) ∷ []
  register c p ((d, q) ∷ rest) =
      let below = register c p rest in if same_channel d c then (c, p) ∷ rest else (d, q) ∷ below

  unfoldable pub provider_for : Channel → Registry S → Option (Provider S)
  provider_for c [] = none
  provider_for c ((d, q) ∷ rest) =
      let below = provider_for c rest in if same_channel d c then some q else below

  abbrev pub dispatch : Formats → Option (Provider S) → Provider S
  dispatch f none channel recipient content s = (
    permanent_failure_result
        (codes "provider registry: no provider registered for channel "
          ++ f.quoted (channel_text channel))
        0 0,
    s,
  )
  dispatch f (some p) channel recipient content s = p channel recipient content s

  -- Registry.Send.
  unfoldable pub registry_send : Formats → Registry S → Provider S
  unfolding provider_for
  registry_send f r channel = dispatch f (provider_for channel r) channel

  -- The loop of cmd/worker/main.go over the channels.
  unfoldable pub wire : (Channel → Provider S) → List Channel → Registry S → Registry S
  unfolding register
  wire build [] r = r
  wire build (c ∷ channels) r = wire build channels (register c (build c) r)

-- The provider of the worker: the registry behind the breaker. `build` is buildProvider.
unfoldable pub guarded_provider :
    (g : Gobreaker) → Formats → {S : Type 0} → (Channel → Provider S) → Provider (g.State × S)
unfolding wire registry_send breaker_send
guarded_provider g f build =
    breaker_send g f (registry_send f (wire build (sms ∷ email ∷ push ∷ []) []))
