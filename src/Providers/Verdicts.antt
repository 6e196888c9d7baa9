-- ===== src/Providers/Verdicts.antt =====
-- internal/adapters/provider and internal/infrastructure/circuit: what a message comes to on its way
-- through the registry, the breaker and the webhook.
use event_driven_notificatio.Base.{
  text_eq, ℕ, ◌≡◌, refl, ◌↔◌, ◌⊎◌, inl, inr, ◌≤◌, ◌<◌, true, false, Text, arith,
}
use event_driven_notificatio.Domain.Channel.{
  Channel, sms, email, push, other_channel, channel_text, is_valid_channel,
}
use event_driven_notificatio.Domain.Delivery.{DeliveryResult}
use event_driven_notificatio.Providers.{
  guarded_provider, wire, Formats, Response, Exchange, unmarshalled, unbuilt, undone, answers,
  classify, webhook_result, webhook_send, Gobreaker, Admission, runs, open_state, too_many_requests,
  breaker_send, decided, register, provider_for, registry_send,
}

-- A 2xx response.
abbrev pub IsAnswered : Exchange → Type 0
IsAnswered x = (r : Response) × (x ≡ answers r) × (200 ≤ r.status_code) × (r.status_code < 300)

-- A request that json cannot write, or a 4xx response.
abbrev pub IsRefused : Exchange → Type 0
IsRefused x =
    ((m : Text) × (x ≡ unmarshalled m))
    ⊎ ((r : Response) × (x ≡ answers r) × (400 ≤ r.status_code) × (r.status_code < 500))

abbrev pub IsFinal : DeliveryResult → Type 0
IsFinal d = (d.success ≡ false) × (d.retryable ≡ false)

answers-injective : (r r' : Response) → answers r ≡ answers r' → r ≡ r'
answers-injective r r' e = cc

module _ (f : Formats) where
  in_the_200s :
      (r r' : Response) (latency : ℕ)
      → r ≡ r'
      → 200 ≤ r'.status_code
      → r'.status_code < 300
      → (classify f r latency).success ≡ true
  unfolding classify
  in_the_200s r r' latency e a b = rw e (ground arith)

  in_the_400s :
      (r r' : Response) (latency : ℕ)
      → r ≡ r'
      → 400 ≤ r'.status_code
      → r'.status_code < 500
      → IsFinal (classify f r latency)
  unfolding classify
  in_the_400s r r' latency e a b = rw e (ground arith, ground arith)

  IsAnswered-iff :
      (x : Exchange) (latency : ℕ) → ((webhook_result f x latency).success ≡ true) ↔ IsAnswered x
  unfolding webhook_result classify
  IsAnswered-iff (unmarshalled m) latency = (λ h. cc, λ h. cc)
  IsAnswered-iff (unbuilt m) latency = (λ h. cc, λ h. cc)
  IsAnswered-iff (undone m) latency = (λ h. cc, λ h. cc)
  IsAnswered-iff (answers r) latency = (
    λ h. (r, refl, ground arith, ground arith),
    λ (r', e, a, b). in_the_200s r r' latency (answers-injective r r' e) a b,
  )

  IsRefused-iff : (x : Exchange) (latency : ℕ) → IsFinal (webhook_result f x latency) ↔ IsRefused x
  unfolding webhook_result classify
  IsRefused-iff (unmarshalled m) latency = (λ h. inl (m, refl), λ h. (refl, refl))
  IsRefused-iff (unbuilt m) latency =
      (λ h. absurd cc, λ h. elim h [ inl (k, e) ↦ absurd cc | inr (q, e, a, b) ↦ absurd cc ])
  IsRefused-iff (undone m) latency =
      (λ h. absurd cc, λ h. elim h [ inl (k, e) ↦ absurd cc | inr (q, e, a, b) ↦ absurd cc ])
  IsRefused-iff (answers r) latency = (
    λ h. inr (r, refl, ground arith, ground arith),
    λ h. elim h [
      | inl (m, e) ↦ absurd cc
      | inr (r', e, a, b) ↦ in_the_400s r r' latency (answers-injective r r' e) a b
    ],
  )

-- What becomes of a message, by the verdict of the breaker and the exchange.
abbrev pub Settles {ℓ κ} :
    {S : Type ℓ} {B : Type κ} → Admission → Exchange → S → DeliveryResult × (B × S) → Type ℓ
Settles a x s out =
    ((out.0.success ≡ true) ↔ ((a ≡ runs) × IsAnswered x))
    × (IsFinal out.0 ↔ ((a ≡ runs) × IsRefused x))
    × ((a ≡ runs) ⊎ (out.1.1 ≡ s))

module _ (g : Gobreaker) (f : Formats) {S : Type 0} where
  decided-Settles :
      (a : Admission) (c : Channel) (b : g.State) (s : S) (call : S → (Exchange × ℕ) × S)
      → Settles a
          (call s).0.0
          s
          (decided g f a c b s λ u. (webhook_result f (call u).0.0 (call u).0.1, (call u).1))
  decided-Settles runs c b s call =
      let x = (call s).0 in
      (
        (λ h. (refl, (IsAnswered-iff f x.0 x.1).0 h), λ h. (IsAnswered-iff f x.0 x.1).1 h.1),
        (λ h. (refl, (IsRefused-iff f x.0 x.1).0 h), λ h. (IsRefused-iff f x.0 x.1).1 h.1),
        inl refl,
      )
  decided-Settles open_state c b s call = (
    (λ h. absurd cc, λ h. absurd (ground arith)),
    (λ h. absurd (ground arith), λ h. absurd (ground arith)),
    inr refl,
  )
  decided-Settles too_many_requests c b s call = (
    (λ h. absurd cc, λ h. absurd (ground arith)),
    (λ h. absurd (ground arith), λ h. absurd (ground arith)),
    inr refl,
  )

  -- The worker's provider with a webhook on every channel: a message on a known channel is reported as
  -- delivered exactly if the breaker let it through and the answer was a 2xx, as failed for good
  -- exactly if the breaker let it through and the answer was a 4xx or the request could not be written,
  -- and where the breaker did not let it through nothing was sent.
  pub guarded_provider-Settles :
      (exchange : Channel → Text → Text → S → (Exchange × ℕ) × S) (c : Channel)
      (recipient content : Text) (b : g.State) (s : S)
      → is_valid_channel c ≡ true
      → Settles
          (g.admits b)
          (exchange c recipient content s).0.0
          s
          (guarded_provider g f (λ d. webhook_send f exchange) c recipient content (b, s))
  unfolding guarded_provider registry_send breaker_send webhook_send wire register provider_for
      channel_text text_eq
  guarded_provider-Settles exchange sms recipient content b s h =
      decided-Settles (g.admits b) sms b s (exchange sms recipient content)
  guarded_provider-Settles exchange email recipient content b s h =
      decided-Settles (g.admits b) email b s (exchange email recipient content)
  guarded_provider-Settles exchange push recipient content b s h =
      decided-Settles (g.admits b) push b s (exchange push recipient content)
  guarded_provider-Settles exchange (other_channel t) recipient content b s h = cc
