-- ===== src/Conversion/Roundtrip.antt =====
-- internal/adapters/postgres/notification_repository.go: an entity that is stored and read is the entity
-- that it was.
use event_driven_notificatio.Base.{
  ℕ, ◌%◌, ◌^◌, ◌<◌, ◌≡◌, refl, ap, true, [], ◌∷◌, List, Option, none, some, Text, arith,
}
use event_driven_notificatio.Domain.Errors.{ok}
use event_driven_notificatio.Domain.Status.{Status, other_status, status_of, status_text, is_valid}
use event_driven_notificatio.Domain.Channel.{
  Channel, Priority, other_channel, other_priority, channel_of, channel_text, priority_of,
  priority_text, is_valid_channel, is_valid_priority,
}
use event_driven_notificatio.Domain.Notification.{Notification}
use event_driven_notificatio.Conversion.{
  Uuid, Row, Scan, parse_uuid, uuid_text, uuid_to_string, optional_uuid, optional_text, row_of,
  zero_uuid, nullable_key, key_or_empty, time_to_timestamptz_ptr, timestamptz_to_time_ptr,
  notification_to_create_params, notification_from_row,
}

-- A text that pgtype reads as the bytes of which it is the canonical form.
abbrev pub IsUuid : Scan → Text → Type 0
IsUuid scan s = (b : List ℕ) × (scan s ≡ some b) × (uuid_text b ≡ s)

abbrev pub IsOptionalUuid : Scan → Option Text → Type 0
IsOptionalUuid scan none = Unit
IsOptionalUuid scan (some s) = IsUuid scan s

pub record IsStorable (scan : Scan) (n : Notification) : Type 0 where
  pub id_ok : IsUuid scan n.id
  pub batch_ok : IsOptionalUuid scan n.batch_id
  pub template_ok : IsOptionalUuid scan n.template_id
  pub channel_ok : is_valid_channel n.channel ≡ true
  pub priority_ok : is_valid_priority n.priority ≡ true
  pub status_ok : is_valid n.status ≡ true
  pub attempts_ok : n.attempts < 2 ^ 31

-- A text that is parsed, and what it is printed as.
parsed :
    (scan : Scan) (s : Text)
    → IsUuid scan s
    → (u : Uuid) × (u.valid ≡ true) × (parse_uuid scan s ≡ ok u) × (uuid_to_string u ≡ ok s)
unfolding parse_uuid uuid_to_string
parsed scan s (b, read, e) = (record { bytes = b; valid = true }, refl, rw read, ap ok e)

optional_parsed :
    (scan : Scan) (o : Option Text)
    → IsOptionalUuid scan o
    → (u : Uuid) × (optional_uuid scan o ≡ ok u) × (optional_text u ≡ ok o)
unfolding optional_uuid optional_text parse_uuid uuid_to_string
optional_parsed scan none v = (zero_uuid, refl, refl)
optional_parsed scan (some s) v =
    let (b, read, e) = v in
    (record { bytes = b; valid = true }, rw read, ap (λ (x : Text). ok (some x)) e)

channel_back : (c : Channel) → is_valid_channel c ≡ true → channel_of (channel_text c) ≡ c
unfolding channel_of channel_text
channel_back (other_channel t) v = cc
channel_back _ v = refl

priority_back : (p : Priority) → is_valid_priority p ≡ true → priority_of (priority_text p) ≡ p
unfolding priority_of priority_text
priority_back (other_priority t) v = cc
priority_back _ v = refl

status_back : (s : Status) → is_valid s ≡ true → status_of (status_text s) ≡ s
unfolding status_of status_text is_valid
status_back (other_status t) v = cc
status_back _ v = refl

key_back : (key : Text) → key_or_empty (nullable_key key) ≡ key
key_back [] = refl
key_back (c ∷ t) = refl

time_back : (t : Option ℕ) → timestamptz_to_time_ptr (time_to_timestamptz_ptr t) ≡ t
time_back none = refl
time_back (some t) = refl

read_row :
    (scan : Scan) (n : Notification) (id batch template : Uuid)
    → IsStorable scan n
    → uuid_to_string id ≡ ok n.id
    → optional_text batch ≡ ok n.batch_id
    → optional_text template ≡ ok n.template_id
    → notification_from_row (row_of n id batch template) ≡ ok n
unfolding notification_from_row
read_row scan n id batch template v h i j =
    let small : n.attempts % 2 ^ 32 ≡ n.attempts = ground (arith, v.attempts_ok) in
    simp (
      h,
      i,
      j,
      small,
      key_back n.idempotency_key,
      time_back n.next_retry_at,
      time_back n.scheduled_at,
      channel_back n.channel v.channel_ok,
      priority_back n.priority v.priority_ok,
      status_back n.status v.status_ok,
    )

-- An entity whose ids are canonical UUIDs for pgtype, whose channel, priority and status are known, and whose
-- attempts fit an int32, is converted for INSERT without an error, and the row that holds what INSERT
-- was given is converted back to the same entity in every field.
pub notification_roundtrip :
    (scan : Scan) (n : Notification)
    → IsStorable scan n
    → (row : Row) × (notification_to_create_params scan n ≡ ok row)
      × (notification_from_row row ≡ ok n)
unfolding notification_to_create_params notification_from_row
notification_roundtrip scan n v =
    let (id, valid, id_parsed, id_printed) = parsed scan n.id v.id_ok in
    let (batch, batch_parsed, batch_printed) = optional_parsed scan n.batch_id v.batch_ok in
    let (template, template_parsed, template_printed) =
      optional_parsed scan n.template_id v.template_ok in
    (
      row_of n id batch template,
      rw (id_parsed, batch_parsed, template_parsed),
      read_row scan n id batch template v id_printed batch_printed template_printed,
    )
