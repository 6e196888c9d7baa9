-- ===== src/Domain/Batch/Summary.antt =====
-- internal/domain/batch.go: what NewBatch guarantees, and what StatusSummary counts.
use event_driven_notificatio.Base.{
  ℕ, not, ltb, ◌||◌, suc, ap, ◌+◌, ◌≤◌, ◌≡◌, refl, ◌∙◌, true, List, [], ◌∷◌, Text, some, text_eq,
  text_eq→eq, length, All, if◌then◌else◌, Bool-cases, inl, inr, arith, is_empty,
}
use event_driven_notificatio.Domain.Errors.{
  ok, guard, invalid_batch_id, invalid_correlation_id, invalid_batch_size, seq_iff, guard_iff,
  ok-injective,
}
use event_driven_notificatio.Domain.Status.{
  Status, pending, queued, processing, delivered, failed, retrying, cancelled, other_status,
  is_valid, status_eq,
}
use event_driven_notificatio.Domain.Notification.{Notification}
use event_driven_notificatio.Domain.Batch.{
  Batch, min_batch_size, max_batch_size, NewBatchInput, new_batch, check_correlation, link,
  linked_batch, BatchStatusSummary, count_status, summary_loop, uncounted, status_summary,
}

-- How many of the notifications are in the status.
abbrev pub tally : Status → List Notification → ℕ
tally s [] = 0
tally s (n ∷ rest) = let more = tally s rest in if status_eq n.status s then suc more else more

-- The counts of a summary, read by status.
abbrev pub count_of : Status → BatchStatusSummary → ℕ
count_of pending s = s.pending
count_of queued s = s.queued
count_of processing s = s.processing
count_of delivered s = s.delivered
count_of failed s = s.failed
count_of retrying s = s.retrying
count_of cancelled s = s.cancelled
count_of (other_status t) s = 0

count-step :
    (s t : Status) (b : BatchStatusSummary)
    → is_valid s ≡ true
    → count_of s (count_status t b) ≡ (if status_eq t s then suc (count_of s b) else count_of s b)
unfolding status_eq is_valid
count-step s t b v = ground arith

count-summary_loop :
    (s : Status) (ns : List Notification) (b : BatchStatusSummary)
    → is_valid s ≡ true
    → count_of s (summary_loop ns b) ≡ count_of s b + tally s ns
unfolding summary_loop
count-summary_loop s [] b v = omega arith
count-summary_loop s (n ∷ ns) b v =
    ground (arith, count-step s n.status b v, count-summary_loop s ns (count_status n.status b) v)

total-summary_loop :
    (ns : List Notification) (b : BatchStatusSummary) → (summary_loop ns b).total ≡ b.total
unfolding summary_loop
total-summary_loop [] b = refl
total-summary_loop (n ∷ ns) b = total-summary_loop ns (count_status n.status b) ∙ same n.status
  where
    same : (s : Status) → (count_status s b).total ≡ b.total
    same pending = refl
    same _ = refl

count-uncounted : (s : Status) (k : ℕ) → count_of s (uncounted k) ≡ 0
count-uncounted pending k = refl
count-uncounted _ k = refl

-- StatusSummary counts, for each valid status, the members of the batch in it.
pub count-status_summary :
    (b : Batch) (s : Status)
    → is_valid s ≡ true
    → count_of s (status_summary b) ≡ tally s b.notifications
unfolding status_summary
count-status_summary b s v = omega (
  arith,
  count-uncounted s (length b.notifications),
  count-summary_loop s b.notifications (uncounted (length b.notifications)) v,
)

-- What all the counts add up to.
abbrev pub summed : BatchStatusSummary → ℕ
summed s = s.pending + s.queued + s.processing + s.delivered + s.failed + s.retrying + s.cancelled

summed-step :
    (s : Status) (b : BatchStatusSummary)
    → is_valid s ≡ true
    → summed (count_status s b) ≡ suc (summed b)
unfolding is_valid
summed-step s b v = ground arith

sum-summary_loop :
    (ns : List Notification) (b : BatchStatusSummary)
    → All (λ n. is_valid n.status ≡ true) ns
    → summed (summary_loop ns b) ≡ summed b + length ns
unfolding summary_loop
sum-summary_loop [] b v = omega arith
sum-summary_loop (n ∷ ns) b v =
    omega (arith, summed-step n.status b v.0, sum-summary_loop ns (count_status n.status b) v.1)

-- Over a batch whose members have valid statuses the seven counts add up to Total, which is the
-- size of the batch.
pub status_summary_total :
    (b : Batch)
    → All (λ n. is_valid n.status ≡ true) b.notifications
    → (summed (status_summary b) ≡ (status_summary b).total)
      × ((status_summary b).total ≡ length b.notifications)
unfolding status_summary
status_summary_total b v =
    let start = uncounted (length b.notifications) in
    let total = total-summary_loop b.notifications start in
    (omega (arith, total, sum-summary_loop b.notifications start v), total)

-- The members whose correlation id is the batch's.
correlated :
    (cid : Text) (ns : List Notification)
    → check_correlation cid ns ≡ ok tt
    → All (λ n. n.correlation_id ≡ cid) ns
unfolding check_correlation
correlated cid [] h = tt
correlated cid (n ∷ ns) h = elim (Bool-cases (text_eq n.correlation_id cid)) [
  | inl e ↦ (text_eq→eq n.correlation_id cid e, correlated cid ns (rw e at h))
  | inr e ↦ cc (rw e at h)
]

linked :
    (id cid : Text) (ns : List Notification)
    → All (λ n. n.correlation_id ≡ cid) ns
    → All (λ n. (n.correlation_id ≡ cid) × (n.batch_id ≡ some id)) (link id ns)
linked id cid [] h = tt
linked id cid (n ∷ ns) h = ((h.0, refl), linked id cid ns h.1)

pub length-link : (id : Text) (ns : List Notification) → length (link id ns) ≡ length ns
length-link id [] = refl
length-link id (n ∷ ns) = ap suc (length-link id ns)

in_size : (k : ℕ) → not (ltb k min_batch_size || ltb max_batch_size k) ≡ true → (1 ≤ k) × (k ≤ 1000)
in_size k h = ground arith

-- The batch that NewBatch returns.
pub new_batch_linked :
    (input : NewBatchInput) (now : ℕ) (b : Batch)
    → new_batch input now ≡ ok b
    → linked_batch input now ≡ b
unfolding new_batch
new_batch_linked input now b h =
    let size = not (
      ltb (length input.notifications) min_batch_size
      || ltb max_batch_size (length input.notifications)) in
    let (_id, h₁) = (seq_iff (guard (not (is_empty input.id)) invalid_batch_id) _ b).0 h in
    let (_correlation, h₂) =
      (seq_iff (guard (not (is_empty input.correlation_id)) invalid_correlation_id) _ b).0 h₁ in
    let (_size, h₃) = (seq_iff (guard size invalid_batch_size) _ b).0 h₂ in
    let (_same, h₄) =
      (seq_iff (check_correlation input.correlation_id input.notifications) _ b).0 h₃ in
    ok-injective h₄

-- A batch that NewBatch returns has 1 to 1000 members, each with the batch's correlation id and
-- linked to the batch's id, and has the id, the correlation id and the time that were given.
pub new_batch_sound :
    (input : NewBatchInput) (now : ℕ) (b : Batch)
    → new_batch input now ≡ ok b
    → (1 ≤ length b.notifications)
      × (length b.notifications ≤ 1000)
      × All (λ n. (n.correlation_id ≡ b.correlation_id) × (n.batch_id ≡ some b.id)) b.notifications
      × (b.id ≡ input.id)
      × (b.correlation_id ≡ input.correlation_id)
      × (b.created_at ≡ now)
unfolding new_batch
new_batch_sound input now b h =
    let (_id, h₁) = (seq_iff _ _ b).0 h in
    let (_correlation, h₂) = (seq_iff _ _ b).0 h₁ in
    let (size, h₃) = (seq_iff _ _ b).0 h₂ in
    let (same, h₄) = (seq_iff _ _ b).0 h₃ in
    let sized = in_size (length input.notifications) ((guard_iff _ _).0 size) in
    let members =
      linked input.id input.correlation_id input.notifications
        (correlated input.correlation_id input.notifications same) in
    let e : linked_batch input now ≡ b = ok-injective h₄ in
    rw (← e) (
      rw (length-link input.id input.notifications) sized.0,
      rw (length-link input.id input.notifications) sized.1,
      members,
      refl,
      refl,
      refl,
    )
