-- ===== src/Conversion.antt =====
-- internal/adapters/postgres/notification_repository.go: an entity as the parameters of INSERT, and a row
-- as an entity. The columns hold what the parameters hold. `scan` is the parser of pgtype.
pub mod Roundtrip
use event_driven_notificatio.Base.{
  ℕ, ◌+◌, ◌-◌, ◌*◌, ◌/◌, ◌%◌, ◌^◌, Bool, true, false, List, [], ◌∷◌, ◌++◌, Option, none, some, Text,
  take, drop, ltb, if◌then◌else◌,
}
use event_driven_notificatio.Domain.Errors.{Result, ok, err, ◌>>=◌, adapter_failure}
use event_driven_notificatio.Domain.Status.{Status, status_of, status_text}
use event_driven_notificatio.Domain.Channel.{
  Channel, Priority, channel_of, channel_text, priority_of, priority_text,
}
use event_driven_notificatio.Domain.Notification.{Notification}

-- pgtype.UUID and pgtype.Timestamptz.
pub record Uuid : Type 0 where
  pub bytes : List ℕ
  pub valid : Bool

pub record Timestamptz : Type 0 where
  pub time : ℕ
  pub valid : Bool

-- CreateNotificationParams, and the row of sqlc; `attempts` is the pattern of an int32.
pub record Row : Type 0 where
  pub id : Uuid
  pub batch_id : Uuid
  pub idempotency_key : Option Text
  pub correlation_id : Text
  pub channel : Text
  pub priority : Text
  pub recipient : Text
  pub content : Text
  pub status : Text
  pub attempts : ℕ
  pub last_error : Text
  pub next_retry_at : Timestamptz
  pub scheduled_at : Timestamptz
  pub template_id : Uuid
  pub created_at : Timestamptz
  pub updated_at : Timestamptz

abbrev pub Scan : Type 0
Scan = Text → Option (List ℕ)

abbrev scanned : Option (List ℕ) → Result Uuid
scanned none = err adapter_failure
scanned (some bytes) = ok (record { bytes = bytes; valid = true })

-- parseUUID.
unfoldable pub parse_uuid : Scan → Text → Result Uuid
parse_uuid scan s = scanned (scan s)

-- A digit and a byte of %x.
abbrev pub hex_digit : ℕ → ℕ
hex_digit d = if ltb d 10 then d + 48 else d + 87

abbrev pub hex : List ℕ → Text
hex [] = []
hex (b ∷ bytes) = hex_digit (b / 16) ∷ (hex_digit (b % 16) ∷ hex bytes)

-- The five groups of uuidToString.
unfoldable pub uuid_text : List ℕ → Text
uuid_text b =
    hex (take 4 b)
    ++ b'-'
      ∷ (hex (take 2 (drop 4 b))
          ++ b'-'
            ∷ (hex (take 2 (drop 6 b))
                ++ b'-' ∷ (hex (take 2 (drop 8 b)) ++ b'-' ∷ hex (take 6 (drop 10 b)))))

-- uuidToString.
unfoldable pub uuid_to_string : Uuid → Result Text
unfolding uuid_text
uuid_to_string u = if u.valid then ok (uuid_text u.bytes) else err adapter_failure

-- timeToTimestamptz, timeToTimestamptzPtr and timestamptzToTimePtr; the zero time is 0.
abbrev pub time_to_timestamptz : ℕ → Timestamptz
time_to_timestamptz t = record { time = t; valid = true }

abbrev pub time_to_timestamptz_ptr : Option ℕ → Timestamptz
time_to_timestamptz_ptr none = record { time = 0; valid = false }
time_to_timestamptz_ptr (some t) = time_to_timestamptz t

abbrev pub timestamptz_to_time_ptr : Timestamptz → Option ℕ
timestamptz_to_time_ptr ts = if ts.valid then some ts.time else none

-- pgtype.UUID{}.
abbrev pub zero_uuid : Uuid
zero_uuid = record {
  bytes =
      0
      ∷ (0
          ∷ (0 ∷ (0 ∷ (0 ∷ (0 ∷ (0 ∷ (0 ∷ (0 ∷ (0 ∷ (0 ∷ (0 ∷ (0 ∷ (0 ∷ (0 ∷ (0 ∷ [])))))))))))))));
  valid = false;
}

-- An optional id: no id is a UUID that is not valid.
unfoldable pub optional_uuid : Scan → Option Text → Result Uuid
unfolding parse_uuid
optional_uuid scan none = ok zero_uuid
optional_uuid scan (some s) = parse_uuid scan s

abbrev present : Result Text → Result (Option Text)
present (ok s) = ok (some s)
present (err x) = err x

unfoldable pub optional_text : Uuid → Result (Option Text)
unfolding uuid_to_string
optional_text u = if u.valid then present (uuid_to_string u) else ok none

-- The empty key is NULL.
abbrev pub nullable_key : Text → Option Text
nullable_key [] = none
nullable_key (c ∷ t) = some (c ∷ t)

abbrev pub key_or_empty : Option Text → Text
key_or_empty none = []
key_or_empty (some key) = key

-- The literal of notificationToCreateParams.
abbrev pub row_of : Notification → Uuid → Uuid → Uuid → Row
row_of n id batch_id template_id = record {
  id = id;
  batch_id = batch_id;
  idempotency_key = nullable_key n.idempotency_key;
  correlation_id = n.correlation_id;
  channel = channel_text n.channel;
  priority = priority_text n.priority;
  recipient = n.recipient;
  content = n.content;
  status = status_text n.status;
  attempts = n.attempts % 2 ^ 32;
  last_error = n.last_error;
  next_retry_at = time_to_timestamptz_ptr n.next_retry_at;
  scheduled_at = time_to_timestamptz_ptr n.scheduled_at;
  template_id = template_id;
  created_at = time_to_timestamptz n.created_at;
  updated_at = time_to_timestamptz n.updated_at;
}

-- notificationToCreateParams.
unfoldable pub notification_to_create_params : Scan → Notification → Result Row
unfolding parse_uuid optional_uuid
notification_to_create_params scan n = do
  id ← parse_uuid scan n.id
  batch_id ← optional_uuid scan n.batch_id
  template_id ← optional_uuid scan n.template_id
  ok (row_of n id batch_id template_id)

-- notificationFromRow. A pattern from 2 ^ 31 on is a negative number of attempts, which no entity of
-- this model holds: it stays a pattern.
unfoldable pub notification_from_row : Row → Result Notification
unfolding uuid_to_string optional_text
notification_from_row row = do
  id ← uuid_to_string row.id
  batch_id ← optional_text row.batch_id
  template_id ← optional_text row.template_id
  ok (record {
    id = id;
    batch_id = batch_id;
    idempotency_key = key_or_empty row.idempotency_key;
    correlation_id = row.correlation_id;
    channel = channel_of row.channel;
    priority = priority_of row.priority;
    recipient = row.recipient;
    content = row.content;
    status = status_of row.status;
    attempts = row.attempts;
    last_error = row.last_error;
    next_retry_at = timestamptz_to_time_ptr row.next_retry_at;
    scheduled_at = timestamptz_to_time_ptr row.scheduled_at;
    template_id = template_id;
    created_at = row.created_at.time;
    updated_at = row.updated_at.time;
  })

-- rowsToNotifications.
unfoldable pub rows_to_notifications : List Row → Result (List Notification)
unfolding notification_from_row
rows_to_notifications [] = ok []
rows_to_notifications (row ∷ rows) = do
  n ← notification_from_row row
  ns ← rows_to_notifications rows
  ok (n ∷ ns)
