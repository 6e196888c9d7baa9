-- ===== src/Domain/Status.antt =====
-- internal/domain/status.go: the statuses of a notification and the table of their transitions.
pub mod Machine
use event_driven_notificatio.Base.{
  ◌≡◌, refl, Bool, true, false, ◌||◌, List, [], ◌∷◌, Option, none, some, Text, codes, text_eq,
  normalise, if◌then◌else◌,
}
use event_driven_notificatio.Domain.Errors.{Result, ok, err, invalid_status}

-- A constructor for each constant, and one for every other string.
pub data Status : Type 0 where
  pending queued processing delivered failed retrying cancelled : Status
  other_status : Text → Status

-- Status(s).
unfoldable pub status_of : Text → Status
unfolding text_eq
status_of t =
    if text_eq t (codes "pending")
    then pending
    else if text_eq t (codes "queued")
    then queued
    else if text_eq t (codes "processing")
    then processing
    else if text_eq t (codes "delivered")
    then delivered
    else if text_eq t (codes "failed")
    then failed
    else if text_eq t (codes "retrying")
    then retrying
    else if text_eq t (codes "cancelled")
    then cancelled
    else other_status t

-- Status.String.
unfoldable pub status_text : Status → Text
status_text pending = codes "pending"
status_text queued = codes "queued"
status_text processing = codes "processing"
status_text delivered = codes "delivered"
status_text failed = codes "failed"
status_text retrying = codes "retrying"
status_text cancelled = codes "cancelled"
status_text (other_status t) = t

-- Status.IsValid.
unfoldable pub is_valid : Status → Bool
is_valid (other_status t) = false
is_valid _ = true

-- Status.IsTerminal.
unfoldable pub is_terminal : Status → Bool
is_terminal delivered = true
is_terminal failed = true
is_terminal cancelled = true
is_terminal _ = false

-- `==` on statuses.
unfoldable pub status_eq : Status → Status → Bool
unfolding text_eq
status_eq pending pending = true
status_eq queued queued = true
status_eq processing processing = true
status_eq delivered delivered = true
status_eq failed failed = true
status_eq retrying retrying = true
status_eq cancelled cancelled = true
status_eq (other_status t) (other_status u) = text_eq t u
status_eq _ _ = false

-- The map validTransitions; `none` is a missing key.
valid_transitions : Status → Option (List Status)
valid_transitions pending = some (queued ∷ cancelled ∷ [])
valid_transitions queued = some (processing ∷ cancelled ∷ [])
valid_transitions processing = some (delivered ∷ failed ∷ retrying ∷ [])
valid_transitions retrying = some (processing ∷ cancelled ∷ [])
valid_transitions _ = none

-- The loop of CanTransitionTo.
is_candidate : Status → List Status → Bool
unfolding status_eq
is_candidate next [] = false
is_candidate next (candidate ∷ rest) = status_eq candidate next || is_candidate next rest

-- Status.CanTransitionTo.
unfoldable pub can_transition_to : Status → Status → Bool
unfolding valid_transitions is_candidate is_valid
can_transition_to s next = elim (valid_transitions s) [
  | none ↦ false
  | some allowed ↦ if is_valid next then is_candidate next allowed else false
]

abbrev known_status : Status → Result Status
known_status (other_status t) = err invalid_status
known_status s = ok s

-- NewStatus.
unfoldable pub new_status : Text → Result Status
unfolding status_of normalise
new_status s = known_status (status_of (normalise s))

padded : new_status (codes " Queued\n") ≡ ok queued
unfolding new_status
padded = refl
