-- ===== src/Tests/Entities.antt =====
-- The theorems on entities, at concrete inputs.
use event_driven_notificatio.Base.{
  ℕ, ◌+◌, ◌*◌, ◌^◌, ◌<◌, ◌≤◌, ◌≡◌, refl, ◌↔◌, ◌⊎◌, inl, inr, List, [], ◌∷◌, true, false, All,
  length, Option, none, some, codes, arith,
}
use event_driven_notificatio.Domain.Errors.{ok, invalid_transition, provider_transient}
use event_driven_notificatio.Domain.Status.{
  pending, queued, processing, delivered, cancelled, can_transition_to, is_valid,
}
use event_driven_notificatio.Domain.Status.Machine
use event_driven_notificatio.Domain.Status.Machine.{◌⟶◌, ◌⟶*◌}
use event_driven_notificatio.Domain.Recipient.{e164_match, email_match}
use event_driven_notificatio.Domain.Recipient.Patterns
use event_driven_notificatio.Domain.Recipient.Patterns.{IsE164, IsEmail}
use event_driven_notificatio.Domain.Notification.{
  initial, new_notification, apply, target, process, withdraw,
}
use event_driven_notificatio.Domain.Notification.Marks
use event_driven_notificatio.Domain.Notification.Marks.{IsCoherent, Marked}
use event_driven_notificatio.Domain.Notification.Creation
use event_driven_notificatio.Domain.Notification.Creation.{IsAcceptable}
use event_driven_notificatio.Domain.Batch.{
  Batch, NewBatchInput, new_batch, status_summary, linked_batch,
}
use event_driven_notificatio.Domain.Batch.Summary
use event_driven_notificatio.Domain.Batch.Summary.{count_of, tally, summed}
use event_driven_notificatio.Retry.{second, int64_half, retry_delay, retry_delay_for}
use event_driven_notificatio.Retry.Delays
use event_driven_notificatio.Tests.{sample_input, sample, sample_queued, other}

can_transition_to_iff_example :
    (can_transition_to processing delivered ≡ true) ↔ (processing ⟶ delivered)
can_transition_to_iff_example = Machine.can_transition_to_iff processing delivered

e164_match_iff_example :
    (e164_match (codes "+905551234567") ≡ true) ↔ IsE164 (codes "+905551234567")
e164_match_iff_example = Patterns.e164_match_iff (codes "+905551234567")

email_match_iff_example : (email_match (codes "a@b.co") ≡ true) ↔ IsEmail (codes "a@b.co")
email_match_iff_example = Patterns.email_match_iff (codes "a@b.co")

apply_lem_example :
    ((can_transition_to pending cancelled ≡ true)
      × ((apply withdraw 120 sample).1 ≡ none)
      × Marked withdraw 120 sample (apply withdraw 120 sample).0)
    ⊎ ((can_transition_to pending cancelled ≡ false)
        × (apply withdraw 120 sample ≡ (sample, some invalid_transition)))
unfolding target
apply_lem_example = Marks.apply_lem withdraw 120 sample

apply-IsCoherent_example : IsCoherent (apply process 120 sample_queued).0
apply-IsCoherent_example = Marks.apply-IsCoherent process 120 sample_queued (refl, refl, refl)

new_notification_iff_example :
    (new_notification sample_input 100 ≡ ok sample)
    ↔ (IsAcceptable sample_input × (sample ≡ initial sample_input 100))
new_notification_iff_example = Creation.new_notification_iff sample_input 100 sample

abbrev pair : Batch
pair = record {
  id = codes "b-1";
  correlation_id = codes "c-1";
  notifications = sample_queued ∷ other ∷ sample ∷ [];
  created_at = 100;
}

count-status_summary_example :
    count_of queued (status_summary pair) ≡ tally queued pair.notifications
unfolding is_valid
count-status_summary_example = Summary.count-status_summary pair queued refl

abbrev pair_input : NewBatchInput
pair_input = record {
  id = codes "b-1";
  correlation_id = codes "c-1";
  notifications = sample_queued ∷ other ∷ [];
}

new_batch_sound_example :
    let b = linked_batch pair_input 100 in
    (1 ≤ length b.notifications)
    × (length b.notifications ≤ 1000)
    × All (λ n. (n.correlation_id ≡ b.correlation_id) × (n.batch_id ≡ some b.id)) b.notifications
    × (b.id ≡ pair_input.id)
    × (b.correlation_id ≡ pair_input.correlation_id)
    × (b.created_at ≡ 100)
unfolding new_batch event_driven_notificatio.Base.text_eq
new_batch_sound_example = Summary.new_batch_sound pair_input 100 (linked_batch pair_input 100) refl

abbrev first_draw : ℕ → ℕ
first_draw b = 0

first_draw_below : (b : ℕ) → 0 < b → first_draw b < b
first_draw_below b h = h

retry_delay_bounds_example :
    let base = retry_delay_for 3 provider_transient in
    let delay = retry_delay 3 provider_transient first_draw in
    (base ≤ delay)
    × (delay < base + base)
    × (delay < base + 30 * second)
    × (0 < delay)
    × (delay < int64_half)
retry_delay_bounds_example =
    Delays.retry_delay_bounds 3 provider_transient first_draw first_draw_below (omega arith)
