-- ===== src/Tests/Interleaved.antt =====
-- The theorems on the interleaved service, at the life of one notification that is delivered.
use event_driven_notificatio.Base.{
  ℕ, ◌+◌, ◌≤◌, ◌≡◌, refl, ◌⊎◌, List, [], ◌∷◌, some, none, codes, true, false,
}
use event_driven_notificatio.Domain.Status.{
  queued, processing, delivered, failed, pending, is_terminal,
}
use event_driven_notificatio.Domain.Notification.{
  Notification, NewNotificationInput, initial, new_notification, apply,
}
use event_driven_notificatio.Domain.Delivery.{DeliveryResult, delivered_result}
use event_driven_notificatio.Store.{find_row, insert_row, claim_row, update_row}
use event_driven_notificatio.System.{
  State, Step, Steps, creates, writes, claims, sends, settles, done, then_step, take_here, empty,
  held, count,
}
use event_driven_notificatio.System.Safety
use event_driven_notificatio.System.Arrows
use event_driven_notificatio.System.Arrows.{Arrows}
use event_driven_notificatio.Tests.{sample_input, sample}

abbrev row_queued : Notification
row_queued = record sample { status = queued }

abbrev row_claimed : Notification
row_claimed = record sample { status = processing; attempts = 1; updated_at = 200 }

abbrev answer : DeliveryResult
answer = delivered_result (codes "m-1") 40

abbrev row_delivered : Notification
row_delivered = record row_claimed { status = delivered; updated_at = 300 }

abbrev accepted : State
accepted = record empty {
  rows = sample ∷ [];
  writers = record { entity = row_queued; expected = pending } ∷ [];
}

abbrev ready : State
ready = record empty { rows = row_queued ∷ [] }

abbrev taken : State
taken = record empty {
  rows = row_claimed ∷ [];
  workers = record { copy = row_claimed; answer = none } ∷ [];
  claimed = codes "n-1" ∷ [];
}

abbrev answered : State
answered = record taken {
  workers = record { copy = row_claimed; answer = some answer } ∷ [];
  sent = codes "n-1" ∷ [];
}

abbrev ended : State
ended = record answered { rows = row_delivered ∷ []; workers = [] }

abbrev second_input : NewNotificationInput
second_input = record sample_input { id = codes "n-2"; idempotency_key = codes "order-8" }

abbrev second : Notification
second = initial second_input 400

abbrev later : State
later = record ended {
  rows = row_delivered ∷ second ∷ [];
  writers = record { entity = record second { status = queued }; expected = pending } ∷ [];
}

accepts_second : Step ended later
unfolding new_notification insert_row apply
    event_driven_notificatio.Domain.Recipient.validate_recipient
    event_driven_notificatio.Domain.Recipient.e164_match
    event_driven_notificatio.Domain.Recipient.validate_content event_driven_notificatio.Base.text_eq
    event_driven_notificatio.Domain.Status.can_transition_to
accepts_second = creates second_input 400 second (row_delivered ∷ second ∷ []) refl refl

accepts : Step empty accepted
unfolding new_notification insert_row apply
    event_driven_notificatio.Domain.Recipient.validate_recipient
    event_driven_notificatio.Domain.Recipient.e164_match
    event_driven_notificatio.Domain.Recipient.validate_content
    event_driven_notificatio.Domain.Status.can_transition_to
accepts = creates sample_input 100 sample (sample ∷ []) refl refl

queues : Step accepted ready
unfolding update_row
queues = writes (record { entity = row_queued; expected = pending }) [] take_here

takes : Step ready taken
unfolding claim_row
takes = claims (codes "n-1") 200 row_claimed refl

asks : Step taken answered
asks = sends (record { copy = row_claimed; answer = none }) [] answer take_here refl

settled : Step answered ended
unfolding apply update_row event_driven_notificatio.Domain.Status.can_transition_to
settled = settles (record { copy = row_claimed; answer = some answer }) [] 300 take_here refl

to_answered : Steps empty answered
to_answered = then_step (then_step (then_step (then_step done accepts) queues) takes) asks

to_ended : Steps empty ended
to_ended = then_step to_answered settled

one_worker_example :
    (held (codes "n-1") answered.workers ≤ 1) × (count (codes "n-1") answered.sent ≤ 1)
unfolding find_row is_terminal event_driven_notificatio.Base.text_eq
one_worker_example = Safety.one_worker (codes "n-1") row_claimed to_answered refl refl

ended_for_good_example :
    (find_row (codes "n-1") later.rows ≡ some row_delivered)
    × (count (codes "n-1") later.sent ≤ count (codes "n-1") ended.sent + 1)
    × ((delivered ≡ failed) ⊎ (count (codes "n-1") later.sent ≡ count (codes "n-1") ended.sent))
unfolding find_row is_terminal event_driven_notificatio.Base.text_eq
ended_for_good_example =
    Safety.ended_for_good (codes "n-1") row_delivered to_ended refl refl
      (then_step done accepts_second)

Step-Arrows_example : Arrows ended.rows later.rows
Step-Arrows_example = Arrows.Step-Arrows to_ended accepts_second
