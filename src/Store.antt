-- ===== src/Store.antt =====
-- internal/adapters/postgres: the notifications table and the statements of
-- internal/adapters/postgres/sqlc/notifications.sql.go over it. A row is the entity that it converts
-- to.
pub mod Claims
pub mod Scans
use event_driven_notificatio.Base.{
  ℕ, ◌+◌, Bool, true, false, ◌&&◌, ◌||◌, not, List, [], ◌∷◌, ◌++◌, Option, none, some, Text,
  text_eq, is_empty, take, select, ltb, leb, if◌then◌else◌,
}
use event_driven_notificatio.Domain.Status.{
  Status, pending, queued, processing, retrying, status_eq,
}
use event_driven_notificatio.Domain.Notification.{Notification}

abbrev pub Table : Type 0
Table = List Notification

-- GetNotification.
unfoldable pub find_row : Text → Table → Option Notification
find_row id [] = none
find_row id (r ∷ rows) = if text_eq r.id id then some r else find_row id rows

-- The primary key, or the partial unique index on idempotency_key.
unfoldable pub clashes : Notification → Notification → Bool
clashes n r =
    text_eq r.id n.id
    || (not (is_empty n.idempotency_key) && text_eq r.idempotency_key n.idempotency_key)

unfoldable pub conflicts : Notification → Table → Bool
unfolding clashes
conflicts n [] = false
conflicts n (r ∷ rows) = clashes n r || conflicts n rows

-- CreateNotification; `none` is a unique violation.
unfoldable pub insert_row : Notification → Table → Option Table
unfolding conflicts
insert_row n rows = if conflicts n rows then none else some (rows ++ n ∷ [])

-- status IN ('queued', 'retrying').
unfoldable pub claimable : Status → Bool
unfolding status_eq
claimable s = status_eq s queued || status_eq s retrying

-- The SET clause of ClaimForProcessing.
abbrev pub claimed : ℕ → Notification → Notification
claimed stamp r = record r { status = processing; updated_at = stamp; attempts = r.attempts + 1 }

-- ClaimForProcessing: the table, and the row that RETURNING hands back.
unfoldable pub claim_row : Text → ℕ → Table → Table × Option Notification
unfolding claimable
claim_row id stamp [] = ([], none)
claim_row id stamp (r ∷ rows) =
    let rest = claim_row id stamp rows in
    if text_eq r.id id && claimable r.status
    then (claimed stamp r ∷ rows, some (claimed stamp r))
    else (r ∷ rest.0, rest.1)

-- The SET clause of UpdateNotificationStatus.
abbrev pub written : Notification → Notification → Notification
written n r = record r {
  status = n.status;
  attempts = n.attempts;
  last_error = n.last_error;
  next_retry_at = n.next_retry_at;
  updated_at = n.updated_at;
}

-- UpdateNotificationStatus: the table, and the number of rows affected.
unfoldable pub update_row : Notification → Status → Table → Table × ℕ
unfolding status_eq
update_row n expected [] = ([], 0)
update_row n expected (r ∷ rows) =
    let rest = update_row n expected rows in
    if text_eq r.id n.id && status_eq r.status expected
    then (written n r ∷ rest.0, rest.1 + 1)
    else (r ∷ rest.0, rest.1)

-- ORDER BY a time, ascending.
unfoldable pub insert_by : (Notification → ℕ) → Notification → Table → Table
insert_by key n [] = n ∷ []
insert_by key n (r ∷ rows) =
    let rest = insert_by key n rows in if leb (key n) (key r) then n ∷ r ∷ rows else r ∷ rest

unfoldable pub order_by : (Notification → ℕ) → Table → Table
unfolding insert_by
order_by key [] = []
order_by key (r ∷ rows) = insert_by key r (order_by key rows)

abbrev before : Option ℕ → ℕ → Bool
before none t = false
before (some u) t = ltb u t

abbrev none_or_before : Option ℕ → ℕ → Bool
none_or_before none t = true
none_or_before (some u) t = ltb u t

-- The WHERE clauses of the four scans.
unfoldable pub is_orphaned_pending : ℕ → Notification → Bool
unfolding status_eq
is_orphaned_pending older_than r = status_eq r.status pending && ltb r.created_at older_than

unfoldable pub is_stuck_processing : ℕ → Notification → Bool
unfolding status_eq
is_stuck_processing older_than r = status_eq r.status processing && ltb r.updated_at older_than

unfoldable pub is_overdue_retrying : ℕ → Notification → Bool
unfolding status_eq
is_overdue_retrying before_at r = status_eq r.status retrying && before r.next_retry_at before_at

unfoldable pub is_stuck_queued : ℕ → Notification → Bool
unfolding status_eq
is_stuck_queued older_than r =
    status_eq r.status queued
    && ltb r.updated_at older_than
    && none_or_before r.scheduled_at older_than

-- A retrying row that is scanned has a next_retry_at; the default is never used.
abbrev pub retry_key : Notification → ℕ
retry_key r = elim r.next_retry_at [ none ↦ 0 | some t ↦ t ]

unfoldable pub find_orphaned_pending : ℕ → ℕ → Table → Table
unfolding is_orphaned_pending order_by
find_orphaned_pending older_than limit rows =
    take limit (order_by (λ r. r.created_at) (select (is_orphaned_pending older_than) rows))

unfoldable pub find_stuck_processing : ℕ → ℕ → Table → Table
unfolding is_stuck_processing order_by
find_stuck_processing older_than limit rows =
    take limit (order_by (λ r. r.updated_at) (select (is_stuck_processing older_than) rows))

unfoldable pub find_overdue_retrying : ℕ → ℕ → Table → Table
unfolding is_overdue_retrying order_by
find_overdue_retrying before_at limit rows =
    take limit (order_by retry_key (select (is_overdue_retrying before_at) rows))

unfoldable pub find_stuck_queued : ℕ → ℕ → Table → Table
unfolding is_stuck_queued order_by
find_stuck_queued older_than limit rows =
    take limit (order_by (λ r. r.updated_at) (select (is_stuck_queued older_than) rows))
