-- ===== src/Domain/Notification/Marks.antt =====
-- internal/domain/notification.go: what the Mark methods and Cancel do, and the invariant that they
-- keep.
use event_driven_notificatio.Base.{
  ℕ, ◌+◌, ◌≤◌, ◌≡◌, refl, ◌⊎◌, inl, inr, true, false, [], Option, none, some, Text, Bool-cases,
  arith,
}
use event_driven_notificatio.Domain.Errors.{invalid_transition}
use event_driven_notificatio.Domain.Status.{
  Status, pending, queued, processing, delivered, failed, retrying, cancelled, other_status,
  can_transition_to,
}
use event_driven_notificatio.Domain.Notification.{
  Notification, Mark, queue, process, deliver, withdraw, fail, retry, target, apply,
}

-- What no method writes.
pub record SameIdentity (m n : Notification) : Type 0 where
  pub id : m.id ≡ n.id
  pub batch_id : m.batch_id ≡ n.batch_id
  pub idempotency_key : m.idempotency_key ≡ n.idempotency_key
  pub correlation_id : m.correlation_id ≡ n.correlation_id
  pub channel : m.channel ≡ n.channel
  pub priority : m.priority ≡ n.priority
  pub recipient : m.recipient ≡ n.recipient
  pub content : m.content ≡ n.content
  pub scheduled_at : m.scheduled_at ≡ n.scheduled_at
  pub template_id : m.template_id ≡ n.template_id
  pub created_at : m.created_at ≡ n.created_at

abbrev pub attempts_after : Mark → ℕ → ℕ
attempts_after process k = k + 1
attempts_after _ k = k

abbrev pub error_after : Mark → Text → Text
error_after deliver e = []
error_after (fail reason) e = reason
error_after (retry reason at) e = reason
error_after _ e = e

abbrev pub retry_after : Mark → Option ℕ → Option ℕ
retry_after (retry reason at) t = some at
retry_after _ t = t

-- The entity after a legal call.
pub record Marked (mark : Mark) (now : ℕ) (n m : Notification) : Type 0 where
  pub status : m.status ≡ target mark
  pub updated_at : m.updated_at ≡ now
  pub attempts : m.attempts ≡ attempts_after mark n.attempts
  pub last_error : m.last_error ≡ error_after mark n.last_error
  pub next_retry_at : m.next_retry_at ≡ retry_after mark n.next_retry_at
  pub same : SameIdentity m n

apply-legal :
    (mark : Mark) (now : ℕ) (n : Notification)
    → can_transition_to n.status (target mark) ≡ true
    → ((apply mark now n).1 ≡ none) × Marked mark now n (apply mark now n).0
unfolding apply target
apply-legal queue now n h = ground arith
apply-legal process now n h = ground arith
apply-legal deliver now n h = ground arith
apply-legal withdraw now n h = ground arith
apply-legal (fail reason) now n h = ground arith
apply-legal (retry reason at) now n h = ground arith

apply-illegal :
    (mark : Mark) (now : ℕ) (n : Notification)
    → can_transition_to n.status (target mark) ≡ false
    → apply mark now n ≡ (n, some invalid_transition)
unfolding apply target
apply-illegal queue now n h = ground arith
apply-illegal process now n h = ground arith
apply-illegal deliver now n h = ground arith
apply-illegal withdraw now n h = ground arith
apply-illegal (fail reason) now n h = ground arith
apply-illegal (retry reason at) now n h = ground arith

-- Each method, on an entity in any status: where the state machine has the arrow, it sets the
-- status and UpdatedAt, changes the attempts, the last error and the next retry as its own rule
-- says, and leaves every other field; elsewhere it fails with ErrInvalidTransition and leaves the
-- whole entity as it was.
pub apply_lem :
    (mark : Mark) (now : ℕ) (n : Notification)
    → ((can_transition_to n.status (target mark) ≡ true)
        × ((apply mark now n).1 ≡ none)
        × Marked mark now n (apply mark now n).0)
      ⊎ ((can_transition_to n.status (target mark) ≡ false)
          × (apply mark now n ≡ (n, some invalid_transition)))
apply_lem mark now n = elim (Bool-cases (can_transition_to n.status (target mark))) [
  | inl h ↦ let (done, marked) = apply-legal mark now n h in inl (h, done, marked)
  | inr h ↦ inr (h, apply-illegal mark now n h)
]

-- What the status says of the other fields.
abbrev Coherent : Status → ℕ → Text → Option ℕ → Type 0
Coherent pending a e t = (a ≡ 0) × (e ≡ []) × (t ≡ none)
Coherent queued a e t = (a ≡ 0) × (e ≡ []) × (t ≡ none)
Coherent processing a e t = 1 ≤ a
Coherent delivered a e t = (1 ≤ a) × (e ≡ [])
Coherent failed a e t = 1 ≤ a
Coherent retrying a e t = (1 ≤ a) × ((r : ℕ) × (t ≡ some r))
Coherent cancelled a e t = Unit
Coherent (other_status s) a e t = ⊥

abbrev pub IsCoherent : Notification → Type 0
IsCoherent n = Coherent n.status n.attempts n.last_error n.next_retry_at

legal-Coherent :
    (mark : Mark) (s : Status) (a : ℕ) (e : Text) (t : Option ℕ)
    → can_transition_to s (target mark) ≡ true
    → Coherent s a e t
    → Coherent (target mark) (attempts_after mark a) (error_after mark e) (retry_after mark t)
unfolding can_transition_to target
legal-Coherent queue pending a e t h v = v
legal-Coherent queue _ a e t h v = cc
legal-Coherent process queued a e t h v = omega arith
legal-Coherent process retrying a e t h v = omega arith
legal-Coherent process _ a e t h v = cc
legal-Coherent deliver processing a e t h v = (v, refl)
legal-Coherent deliver _ a e t h v = cc
legal-Coherent withdraw s a e t h v = tt
legal-Coherent (fail reason) processing a e t h v = v
legal-Coherent (fail reason) _ a e t h v = cc
legal-Coherent (retry reason at) processing a e t h v = (v, (at, refl))
legal-Coherent (retry reason at) _ a e t h v = cc

-- Every method keeps the invariant that ties the attempts, the last error and the next retry to the
-- status.
pub apply-IsCoherent :
    (mark : Mark) (now : ℕ) (n : Notification) → IsCoherent n → IsCoherent (apply mark now n).0
apply-IsCoherent mark now n v = elim (apply_lem mark now n) [
  | inl (h, done, m) ↦
      rw (m.status, m.attempts, m.last_error, m.next_retry_at)
        (legal-Coherent mark n.status n.attempts n.last_error n.next_retry_at h v)
  | inr (h, same) ↦ rw same v
]
