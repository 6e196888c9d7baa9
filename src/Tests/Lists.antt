-- ===== src/Tests/Lists.antt =====
-- The theorems on rows and on the pages of notifications, at concrete inputs.
use event_driven_notificatio.Base.{
  ℕ, ◌+◌, ◌-◌, ◌≡◌, refl, [], ◌∷◌, some, none, Option, codes, Text, true, select, arith,
}
use mathlib.Core.List.{Perm}
use event_driven_notificatio.Domain.Errors.{ok}
use event_driven_notificatio.Domain.Status.{queued}
use event_driven_notificatio.Store.{find_row}
use event_driven_notificatio.Store.Claims.{IsKeyed}
use event_driven_notificatio.Ports.{returns}
use event_driven_notificatio.Ports.Calm.{calm}
use event_driven_notificatio.Store.{Table}
use event_driven_notificatio.Listing.Query.{passes}
use event_driven_notificatio.Listing.Cursors.{Codec, decode_cursor, encode_cursor}
use event_driven_notificatio.Listing.Service.{
  ListNotificationsInput, read_pages, filter_of, status_filter, channel_filter,
}
use event_driven_notificatio.Listing.Order.{IsNewestFirst}
use event_driven_notificatio.Listing.Encoding
use event_driven_notificatio.Listing.Encoding.{IsCodec}
use event_driven_notificatio.Listing.Pages
use event_driven_notificatio.Base.{List, text_eq, if◌then◌else◌}
use event_driven_notificatio.Domain.Status.{is_valid}
use event_driven_notificatio.Domain.Notification.{Notification}
use event_driven_notificatio.Conversion.{
  Scan, Row, uuid_text, notification_to_create_params, notification_from_row,
}
use event_driven_notificatio.Conversion.Roundtrip
use event_driven_notificatio.Tests.{sample, accepting, world}

-- A time as one code point that is no bar.
abbrev parse_one : Text → Option ℕ
parse_one [] = none
parse_one (c ∷ t) = some (c - 200)

abbrev codec : Codec
codec = record {
  format_time = λ t. (t + 200) ∷ [];
  parse_time = parse_one;
  encode64 = λ s. s;
  decode64 = λ s. some s;
  is_uuid = λ _. true;
}

codec-IsCodec : IsCodec codec
codec-IsCodec = record {
  time_back = λ t h. ground arith;
  time_clean = λ t. (ground arith, tt);
  text_back = λ s. refl;
  visible = λ s h. h;
}

decode_cursor-encode_cursor_example :
    decode_cursor codec (encode_cursor codec 100 (codes "n-1")) ≡ ok (100, codes "n-1")
decode_cursor-encode_cursor_example =
    Encoding.decode_cursor-encode_cursor codec 100 (codes "n-1") codec-IsCodec (omega arith)

abbrev queued_only : ListNotificationsInput
queued_only = record {
  status = codes "queued";
  channel = [];
  batch_id = none;
  created_after = none;
  created_before = none;
  cursor = [];
  limit = 1;
}

world-IsKeyed : IsKeyed world.rows
unfolding find_row event_driven_notificatio.Base.text_eq
world-IsKeyed = (refl, (refl, tt))

read_pages_complete_example :
    (rows : Table) × (k : ℕ) × (read_pages codec 5 queued_only (calm accepting) world
      ≡ returns rows (record world { tick = k }))
    × IsNewestFirst rows
    × Perm (select (passes (filter_of queued_only (some queued) none)) world.rows) rows
unfolding status_filter channel_filter
read_pages_complete_example =
    Pages.read_pages_complete codec queued_only (some queued) none accepting world 5 codec-IsCodec
      (record { status_known = refl; channel_known = refl; batch_known = refl }) world-IsKeyed
      (
        record { in_time = omega arith; uuid = refl },
        (record { in_time = omega arith; uuid = refl }, tt),
      )
      refl (omega arith)

abbrev pub uuid : Text
uuid = codes "0193b1c2-0000-7000-8000-0000000000ff"

abbrev pub uuid_bytes : List ℕ
uuid_bytes =
    0x01
    ∷ (0x93
        ∷ (0xb1
            ∷ (0xc2
                ∷ (0
                    ∷ (0
                        ∷ (0x70
                            ∷ (0 ∷ (0x80 ∷ (0 ∷ (0 ∷ (0 ∷ (0 ∷ (0 ∷ (0 ∷ (0xff ∷ [])))))))))))))))

abbrev pub scan : Scan
scan t = if text_eq t uuid then some uuid_bytes else none

abbrev stored : Notification
stored = record sample { id = uuid; batch_id = some uuid }

notification_roundtrip_example :
    (row : Row) × (notification_to_create_params scan stored ≡ ok row)
    × (notification_from_row row ≡ ok stored)
unfolding text_eq uuid_text is_valid
notification_roundtrip_example = Roundtrip.notification_roundtrip scan stored (record {
  id_ok = (uuid_bytes, refl, refl);
  batch_ok = (uuid_bytes, refl, refl);
  template_ok = tt;
  channel_ok = refl;
  priority_ok = refl;
  status_ok = refl;
  attempts_ok = omega arith;
})
