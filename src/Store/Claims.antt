-- ===== src/Store/Claims.antt =====
-- internal/adapters/postgres/sqlc/notifications.sql.go: what the claim and the guarded update do to
-- a table in which no two rows share an id.
use event_driven_notificatio.Base.{
  ℕ, ◌+◌, ◌≡◌, ◌≢◌, refl, ap, ◌∙◌, ◌⊎◌, inl, inr, Bool, true, false, [], ◌∷◌, ◌++◌, Option, none,
  some, Text, text_eq, text_eq→eq, text_eq_refl, if◌then◌else◌, Bool-cases, arith,
}
use event_driven_notificatio.Domain.Status.{Status, queued, processing, retrying, status_eq}
use event_driven_notificatio.Domain.Status.Machine.{status_eq→eq, status_eq_refl}
use event_driven_notificatio.Domain.Notification.{Notification}
use event_driven_notificatio.Store.{
  Table, find_row, claimable, claimed, claim_row, written, update_row, conflicts, insert_row,
}

-- The primary key.
abbrev pub IsKeyed : Table → Type 0
IsKeyed [] = Unit
IsKeyed (r ∷ rows) = (find_row r.id rows ≡ none) × IsKeyed rows

-- What a claim makes of the row that it looks for.
abbrev pub after_claim : ℕ → Option Notification → Option Notification
after_claim stamp none = none
after_claim stamp (some r) = if claimable r.status then some (claimed stamp r) else some r

abbrev pub claim_result : ℕ → Option Notification → Option Notification
claim_result stamp none = none
claim_result stamp (some r) = if claimable r.status then some (claimed stamp r) else none

claim_row_missing :
    (id : Text) (stamp : ℕ) (rows : Table)
    → find_row id rows ≡ none
    → claim_row id stamp rows ≡ (rows, none)
unfolding find_row claim_row
claim_row_missing id stamp [] h = refl
claim_row_missing id stamp (r ∷ rows) h = ground (arith, claim_row_missing id stamp rows)

pub find_row-claim_row_other :
    (id j : Text) (stamp : ℕ) (rows : Table)
    → text_eq id j ≡ false
    → find_row j (claim_row id stamp rows).0 ≡ find_row j rows
unfolding find_row claim_row
find_row-claim_row_other id j stamp [] h = refl
find_row-claim_row_other id j stamp (r ∷ rows) h =
    ground (arith, text_eq→eq r.id id, find_row-claim_row_other id j stamp rows h)

pub find_row-claim_row_self :
    (id : Text) (stamp : ℕ) (rows : Table)
    → IsKeyed rows
    → (find_row id (claim_row id stamp rows).0 ≡ after_claim stamp (find_row id rows))
      × ((claim_row id stamp rows).1 ≡ claim_result stamp (find_row id rows))
unfolding find_row claim_row
find_row-claim_row_self id stamp [] k = (refl, refl)
find_row-claim_row_self id stamp (r ∷ rows) k = ground (
  arith,
  text_eq→eq r.id id,
  claim_row_missing id stamp rows,
  find_row-claim_row_self id stamp rows k.1,
)

pub find_row-update_row_other :
    (n : Notification) (expected : Status) (j : Text) (rows : Table)
    → text_eq n.id j ≡ false
    → find_row j (update_row n expected rows).0 ≡ find_row j rows
unfolding find_row update_row
find_row-update_row_other n expected j [] h = refl
find_row-update_row_other n expected j (r ∷ rows) h =
    ground (arith, text_eq→eq r.id n.id, find_row-update_row_other n expected j rows h)

update_row_missing :
    (n : Notification) (expected : Status) (rows : Table)
    → find_row n.id rows ≡ none
    → update_row n expected rows ≡ (rows, 0)
unfolding find_row update_row
update_row_missing n expected [] h = refl
update_row_missing n expected (r ∷ rows) h = ground (arith, update_row_missing n expected rows)

-- What a guarded update makes of the row with its id, and whether it affects it.
abbrev pub after_update : Notification → Status → Option Notification → Option Notification
after_update n expected none = none
after_update n expected (some r) =
    if status_eq r.status expected then some (written n r) else some r

abbrev pub affected : Status → Option Notification → ℕ
affected expected none = 0
affected expected (some r) = if status_eq r.status expected then 1 else 0

pub find_row-update_row_self :
    (n : Notification) (expected : Status) (rows : Table)
    → IsKeyed rows
    → (find_row n.id (update_row n expected rows).0 ≡ after_update n expected (find_row n.id rows))
      × ((update_row n expected rows).1 ≡ affected expected (find_row n.id rows))
unfolding find_row update_row
find_row-update_row_self n expected [] k = (refl, refl)
find_row-update_row_self n expected (r ∷ rows) k = ground (
  arith,
  text_eq→eq r.id n.id,
  update_row_missing n expected rows,
  find_row-update_row_self n expected rows k.1,
)

-- The statements keep ids distinct.
find_row-none-claim_row :
    (j id : Text) (stamp : ℕ) (rows : Table)
    → find_row j rows ≡ none
    → find_row j (claim_row id stamp rows).0 ≡ none
unfolding find_row claim_row
find_row-none-claim_row j id stamp [] h = refl
find_row-none-claim_row j id stamp (r ∷ rows) h =
    ground (arith, find_row-none-claim_row j id stamp rows)

pub claim_row-IsKeyed :
    (id : Text) (stamp : ℕ) (rows : Table) → IsKeyed rows → IsKeyed (claim_row id stamp rows).0
unfolding claim_row
claim_row-IsKeyed id stamp [] k = tt
claim_row-IsKeyed id stamp (r ∷ rows) k =
    ground (arith, find_row-none-claim_row r.id id stamp rows, claim_row-IsKeyed id stamp rows k.1)

find_row-none-update_row :
    (j : Text) (n : Notification) (expected : Status) (rows : Table)
    → find_row j rows ≡ none
    → find_row j (update_row n expected rows).0 ≡ none
unfolding find_row update_row
find_row-none-update_row j n expected [] h = refl
find_row-none-update_row j n expected (r ∷ rows) h =
    ground (arith, find_row-none-update_row j n expected rows)

pub update_row-IsKeyed :
    (n : Notification) (expected : Status) (rows : Table)
    → IsKeyed rows
    → IsKeyed (update_row n expected rows).0
unfolding update_row
update_row-IsKeyed n expected [] k = tt
update_row-IsKeyed n expected (r ∷ rows) k =
    ground
      (arith, find_row-none-update_row r.id n expected rows, update_row-IsKeyed n expected rows k.1)

-- A new row stands behind the others.
pub find_row-append :
    (j : Text) (n : Notification) (rows : Table)
    → find_row j rows ≡ none
    → find_row j (rows ++ n ∷ []) ≡ (if text_eq n.id j then some n else none)
unfolding find_row
find_row-append j n [] h = refl
find_row-append j n (r ∷ rows) h = ground (arith, find_row-append j n rows)

pub find_row-append_some :
    (j : Text) (n m : Notification) (rows : Table)
    → find_row j rows ≡ some m
    → find_row j (rows ++ n ∷ []) ≡ some m
unfolding find_row
find_row-append_some j n m [] h = cc
find_row-append_some j n m (r ∷ rows) h = ground (arith, find_row-append_some j n m rows)

pub conflicts→none :
    (n : Notification) (rows : Table) → conflicts n rows ≡ false → find_row n.id rows ≡ none
unfolding find_row conflicts
conflicts→none n [] h = refl
conflicts→none n (r ∷ rows) h = ground (arith, conflicts→none n rows)

pub find_row_id : (j : Text) (rows : Table) (m : Notification) → find_row j rows ≡ some m → m.id ≡ j
unfolding find_row
find_row_id j [] m h = cc
find_row_id j (r ∷ rows) m h = ground (arith, text_eq→eq r.id j, find_row_id j rows m)

append-IsKeyed :
    (n : Notification) (rows : Table)
    → find_row n.id rows ≡ none
    → IsKeyed rows
    → IsKeyed (rows ++ n ∷ [])
unfolding find_row
append-IsKeyed n [] h k = (refl, tt)
append-IsKeyed n (r ∷ rows) h k = ground (
  arith,
  find_row-append r.id n rows k.0,
  text_eq→eq n.id r.id,
  text_eq_refl n.id,
  append-IsKeyed n rows,
)

pub insert_row-IsKeyed :
    (n : Notification) (rows rows' : Table)
    → insert_row n rows ≡ some rows'
    → IsKeyed rows
    → IsKeyed rows'
unfolding insert_row
insert_row-IsKeyed n rows rows' h k = ground (arith, conflicts→none n rows, append-IsKeyed n rows)

pub claim_row_refused :
    (id : Text) (stamp : ℕ) (rows : Table) (r : Notification)
    → IsKeyed rows
    → find_row id rows ≡ some r
    → claimable r.status ≡ false
    → claim_row id stamp rows ≡ (rows, none)
unfolding find_row claim_row
claim_row_refused id stamp [] r k h c = cc
claim_row_refused id stamp (q ∷ rows) r k h c = ground (
  arith,
  text_eq→eq q.id id,
  claim_row_missing id stamp rows,
  claim_row_refused id stamp rows r k.1,
)

-- Every id but one finds what it found before.
abbrev pub OthersStay : Text → Table → Table → Type 0
OthersStay id rows rows' = (j : Text) → (id ≡ j) ⊎ (find_row j rows' ≡ find_row j rows)

pub others_stay :
    (id : Text) (rows rows' : Table)
    → ((j : Text) → text_eq id j ≡ false → find_row j rows' ≡ find_row j rows)
    → OthersStay id rows rows'
others_stay id rows rows' f j = elim (Bool-cases (text_eq id j)) [
  | inl e ↦ inl (text_eq→eq id j e)
  | inr e ↦ inr (f j e)
]

-- The row that a worker gets: in processing, with one more attempt, stamped, and otherwise as it was.
abbrev pub row_in_work : ℕ → Notification → Notification
row_in_work stamp r = record {
  id = r.id;
  batch_id = r.batch_id;
  idempotency_key = r.idempotency_key;
  correlation_id = r.correlation_id;
  channel = r.channel;
  priority = r.priority;
  recipient = r.recipient;
  content = r.content;
  status = processing;
  attempts = r.attempts + 1;
  last_error = r.last_error;
  next_retry_at = r.next_retry_at;
  scheduled_at = r.scheduled_at;
  template_id = r.template_id;
  created_at = r.created_at;
  updated_at = stamp;
}

-- The row that a writer leaves: five fields of its entity, and otherwise as it was.
abbrev pub row_saved : Notification → Notification → Notification
row_saved n r = record {
  id = r.id;
  batch_id = r.batch_id;
  idempotency_key = r.idempotency_key;
  correlation_id = r.correlation_id;
  channel = r.channel;
  priority = r.priority;
  recipient = r.recipient;
  content = r.content;
  status = n.status;
  attempts = n.attempts;
  last_error = n.last_error;
  next_retry_at = n.next_retry_at;
  scheduled_at = r.scheduled_at;
  template_id = r.template_id;
  created_at = r.created_at;
  updated_at = n.updated_at;
}

free_to_claim : (s : Status) → claimable s ≡ true → (s ≡ queued) ⊎ (s ≡ retrying)
unfolding claimable status_eq
free_to_claim queued h = inl refl
free_to_claim retrying h = inr refl
free_to_claim _ h = cc

not_free : (s : Status) → claimable s ≡ false → (s ≢ queued) × (s ≢ retrying)
unfolding claimable status_eq
not_free queued h = cc
not_free retrying h = cc
not_free _ h = (λ e. cc, λ e. cc)

pub claimable_otherwise : (s : Status) → s ≢ queued → s ≢ retrying → claimable s ≡ false
unfolding claimable status_eq
claimable_otherwise queued p q = absurd (p refl)
claimable_otherwise retrying p q = absurd (q refl)
claimable_otherwise _ p q = refl

-- A claim of a row that is in the table: if the row is queued or retrying, the worker gets it and the
-- table holds it in processing, with one more attempt, the stamp of the claim and all else as it was,
-- every other row stays, and a second claim of the id, at any later time, gets nothing and changes
-- nothing, so of two workers only one gets the row. If the row is in any other status, the worker
-- gets nothing and the table stays.
pub claim_row_once :
    (id : Text) (stamp later : ℕ) (rows : Table) (r : Notification)
    → IsKeyed rows
    → find_row id rows ≡ some r
    → let (taken, result) = claim_row id stamp rows in
      (((r.status ≡ queued) ⊎ (r.status ≡ retrying))
        × (result ≡ some (row_in_work stamp r))
        × (find_row id taken ≡ some (row_in_work stamp r))
        × OthersStay id rows taken
        × (claim_row id later taken ≡ (taken, none)))
      ⊎ ((r.status ≢ queued) × (r.status ≢ retrying) × (taken ≡ rows) × (result ≡ none))
unfolding claimable
claim_row_once id stamp later rows r k h = elim (Bool-cases (claimable r.status)) [
  | inl c ↦
      let (found, result) = find_row-claim_row_self id stamp rows k in
      let now : find_row id (claim_row id stamp rows).0 ≡ some (row_in_work stamp r) =
        found ∙ ap (after_claim stamp) h ∙ rw c in
      inl (
        free_to_claim r.status c,
        result ∙ ap (claim_result stamp) h ∙ rw c,
        now,
        others_stay id rows (claim_row id stamp rows).0
            (λ j e. find_row-claim_row_other id j stamp rows e),
        claim_row_refused id later (claim_row id stamp rows).0 (row_in_work stamp r)
            (claim_row-IsKeyed id stamp rows k) now processing_refused,
      )
  | inr c ↦
      let same = claim_row_refused id stamp rows r k h c in
      let (q, t) = not_free r.status c in
      inr (
        q,
        t,
        ap (λ (p : Table × Option Notification). p.0) same,
        ap (λ (p : Table × Option Notification). p.1) same,
      )
]
  where
    processing_refused : claimable processing ≡ false
    processing_refused = refl

update_row_refused :
    (n : Notification) (expected : Status) (rows : Table) (r : Notification)
    → IsKeyed rows
    → find_row n.id rows ≡ some r
    → status_eq r.status expected ≡ false
    → update_row n expected rows ≡ (rows, 0)
unfolding find_row update_row
update_row_refused n expected [] r k h c = cc
update_row_refused n expected (q ∷ rows) r k h c = ground (
  arith,
  text_eq→eq q.id n.id,
  update_row_missing n expected rows,
  update_row_refused n expected rows r k.1,
)

-- The guarded update of a row that is there: if its status is the expected one, it affects one row
-- and writes the status, attempts, error, next retry and time of the entity, keeping all else of the
-- row, and every other row stays;
-- if not, it affects none and leaves the whole table as it was.
pub update_row_guarded :
    (n : Notification) (expected : Status) (rows : Table) (r : Notification)
    → IsKeyed rows
    → find_row n.id rows ≡ some r
    → let (table, count) = update_row n expected rows in
      ((r.status ≡ expected)
        × (count ≡ 1)
        × (find_row n.id table ≡ some (row_saved n r))
        × OthersStay n.id rows table)
      ⊎ ((r.status ≢ expected) × (table ≡ rows) × (count ≡ 0))
update_row_guarded n expected rows r k h = elim (Bool-cases (status_eq r.status expected)) [
  | inl e ↦
      let (found, count) = find_row-update_row_self n expected rows k in
      inl (
        status_eq→eq r.status expected e,
        count ∙ ap (affected expected) h ∙ rw e,
        found ∙ ap (after_update n expected) h ∙ rw e,
        others_stay n.id rows (update_row n expected rows).0
            (λ j d. find_row-update_row_other n expected j rows d),
      )
  | inr e ↦
      let same = update_row_refused n expected rows r k h e in
      inr (
        λ q. absurd_of (e) (rw q (status_eq_refl expected)),
        ap (λ (p : Table × ℕ). p.0) same,
        ap (λ (p : Table × ℕ). p.1) same,
      )
]
  where
    absurd_of : {b : Bool} → b ≡ false → b ≡ true → ⊥
    absurd_of p q = cc
