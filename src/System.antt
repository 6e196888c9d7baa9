-- ===== src/System.antt =====
-- The whole service at the grain of one statement or call at a time: any number of workers
-- (internal/application/process_notification.go) and of other writers
-- (create_notification.go, cancel_notification.go, reconcile_stuck_notifications.go) over one table,
-- interleaved in any order, each of which may stop at any point. A worker holds the row that its claim
-- returned; a writer holds an entity that it read and marked, and the status that it read.
pub mod Lists
pub mod Slots
pub mod Tables
pub mod Invariant
pub mod Safety
pub mod Arrows
use event_driven_notificatio.Base.{
  ℕ, ◌+◌, ◌≡◌, Bool, true, false, not, ◌||◌, List, [], ◌∷◌, Option, none, some, Text, text_eq,
  codes, leb, if◌then◌else◌,
}
use event_driven_notificatio.Domain.Errors.{ok}
use event_driven_notificatio.Domain.Status.{Status, pending, processing}
use event_driven_notificatio.Domain.Notification.{
  Notification, NewNotificationInput, new_notification, Mark, apply,
}
use event_driven_notificatio.Domain.Delivery.{DeliveryResult}
use event_driven_notificatio.Store.{Table, find_row, insert_row, claim_row, update_row}
use event_driven_notificatio.Retry.{backoff_for, rate_limit_backoff, max_attempts}

-- A task between its claim and its update; `answer` is what the provider said, once it was asked.
pub record Worker : Type 0 where
  pub copy : Notification
  pub answer : Option DeliveryResult

-- A use case between its read and its update.
pub record Writer : Type 0 where
  pub entity : Notification
  pub expected : Status

-- `claimed` and `sent` list the ids of the rows that were claimed and of the messages that were sent.
pub record State : Type 0 where
  pub rows : Table
  pub workers : List Worker
  pub writers : List Writer
  pub claimed : List Text
  pub sent : List Text

-- `x` taken out of a list.
pub data Takes {ℓ} {A : Type ℓ} (x : A) : List A → List A → Type ℓ where
  take_here : {xs : List A} → Takes x (x ∷ xs) xs
  take_there : {y : A} {xs ys : List A} → Takes x xs ys → Takes x (y ∷ xs) (y ∷ ys)

-- The marks that another use case than the worker's makes.
pub data IsOutside : Mark → Type 0 where
  enqueued : IsOutside Mark.queue
  withdrawn : IsOutside Mark.withdraw
  timed_out : IsOutside (Mark.fail (codes "worker_timeout"))

-- The mark that applyResult makes at a time.
abbrev pub verdict_of : Notification → DeliveryResult → ℕ → Mark
verdict_of n result t =
    if result.success
    then Mark.deliver
    else if not result.retryable || leb max_attempts n.attempts
    then Mark.fail result.reason
    else Mark.retry result.reason (t + backoff_for n.attempts)

-- A worker that has asked the provider makes that one; one that has not was refused by the limiter.
abbrev pub verdict : Worker → ℕ → Mark
verdict w t = elim w.answer [
  | none ↦ Mark.retry (codes "outbound rate limit exceeded") (t + rate_limit_backoff)
  | some result ↦ verdict_of w.copy result t
]

pub data Step (s : State) : State → Type 0 where
  -- Create, of an entity that markQueued is then to update.
  creates :
      (input : NewNotificationInput) (t : ℕ) (n : Notification) (rows : Table)
      → new_notification input t ≡ ok n
      → insert_row n s.rows ≡ some rows
      → Step s (record s {
        rows = rows;
        writers = record { entity = (apply Mark.queue t n).0; expected = pending } ∷ s.writers;
      })
  -- Get or a scan, and the mark.
  reads :
      (id : Text) (mark : Mark) (t : ℕ) (n : Notification)
      → find_row id s.rows ≡ some n
      → IsOutside mark
      → (apply mark t n).1 ≡ none
      → Step s (record s {
        writers = record { entity = (apply mark t n).0; expected = n.status } ∷ s.writers;
      })
  -- UpdateStatus.
  writes :
      (w : Writer) (ws : List Writer)
      → Takes w s.writers ws
      → Step s (record s { rows = (update_row w.entity w.expected s.rows).0; writers = ws })
  -- A writer stops.
  leaves :
      (w : Writer) (ws : List Writer) → Takes w s.writers ws → Step s (record s { writers = ws })
  -- ClaimForProcessing.
  claims :
      (id : Text) (t : ℕ) (n : Notification)
      → (claim_row id t s.rows).1 ≡ some n
      → Step s (record s {
        rows = (claim_row id t s.rows).0;
        workers = record { copy = n; answer = none } ∷ s.workers;
        claimed = id ∷ s.claimed;
      })
  -- A claim whose reply is lost.
  claims_unheard :
      (id : Text) (t : ℕ) (n : Notification)
      → (claim_row id t s.rows).1 ≡ some n
      → Step s (record s { rows = (claim_row id t s.rows).0; claimed = id ∷ s.claimed })
  -- Provider.Send.
  sends :
      (w : Worker) (ws : List Worker) (result : DeliveryResult)
      → Takes w s.workers ws
      → w.answer ≡ none
      → Step s
          (record s { workers = record w { answer = some result } ∷ ws; sent = w.copy.id ∷ s.sent })
  -- The mark and UpdateStatus of a worker, whose task then ends.
  settles :
      (w : Worker) (ws : List Worker) (t : ℕ)
      → Takes w s.workers ws
      → (apply (verdict w t) t w.copy).1 ≡ none
      → Step s (record s {
        rows = (update_row (apply (verdict w t) t w.copy).0 processing s.rows).0;
        workers = ws;
      })
  -- A worker stops.
  dies : (w : Worker) (ws : List Worker) → Takes w s.workers ws → Step s (record s { workers = ws })

abbrev pub empty : State
empty = record { rows = []; workers = []; writers = []; claimed = []; sent = [] }

pub data Steps (s : State) : State → Type 0 where
  done : Steps s s
  then_step : {t u : State} → Steps s t → Step t u → Steps s u

-- How many workers hold a row, and how many of them have not asked the provider.
abbrev pub held : Text → List Worker → ℕ
held id [] = 0
held id (w ∷ ws) = (if text_eq w.copy.id id then 1 else 0) + held id ws

abbrev pub unasked : Worker → Bool
unasked w = elim w.answer [ none ↦ true | some result ↦ false ]

abbrev pub unsent : Text → List Worker → ℕ
unsent id [] = 0
unsent id (w ∷ ws) = (if text_eq w.copy.id id then if unasked w then 1 else 0 else 0) + unsent id ws

abbrev pub count : Text → List Text → ℕ
count id [] = 0
count id (x ∷ xs) = (if text_eq x id then 1 else 0) + count id xs
