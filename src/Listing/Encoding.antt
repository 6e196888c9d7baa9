-- ===== src/Listing/Encoding.antt =====
-- internal/adapters/postgres/notification_repository.go: a cursor comes back as it was.
use event_driven_notificatio.Base.{
  ℕ, ◌<◌, ◌≡◌, refl, true, false, ◌==◌, [], ◌∷◌, ◌++◌, some, Text, is_empty, All,
}
use event_driven_notificatio.Domain.Errors.{ok}
use event_driven_notificatio.Domain.Notification.{Notification}
use event_driven_notificatio.Listing.Cursors.{
  Codec, cursor_params, decode_cursor, encode_cursor, split_bar,
}

-- 10000-01-01, the first instant that RFC 3339 cannot write.
abbrev pub year_10000 : ℕ
year_10000 = 253402300800000000000

-- What the packages promise: a time and a text come back, a time has no bar, and what is not empty is
-- not encoded as the empty text.
pub record IsCodec (c : Codec) : Type 0 where
  pub time_back : (t : ℕ) → t < year_10000 → c.parse_time (c.format_time t) ≡ some t
  pub time_clean : (t : ℕ) → All (λ x. (x == b'|') ≡ false) (c.format_time t)
  pub text_back : (s : Text) → c.decode64 (c.encode64 s) ≡ some s
  pub visible : (s : Text) → is_empty s ≡ false → is_empty (c.encode64 s) ≡ false

split_bar-append :
    (s t : Text) → All (λ x. (x == b'|') ≡ false) s → split_bar (s ++ b'|' ∷ t) ≡ some (s, t)
unfolding split_bar
split_bar-append [] t v = refl
split_bar-append (c ∷ s) t v = rw (v.0, split_bar-append s t v.1)

-- decodeCursor inverts encodeCursor, for every time before the year 10000 and every id.
pub decode_cursor-encode_cursor :
    (c : Codec) (t : ℕ) (id : Text)
    → IsCodec c
    → t < year_10000
    → decode_cursor c (encode_cursor c t id) ≡ ok (t, id)
unfolding decode_cursor encode_cursor
decode_cursor-encode_cursor c t id v h = rw (
  v.text_back (c.format_time t ++ b'|' ∷ id),
  split_bar-append (c.format_time t) id (v.time_clean t),
  v.time_back t h,
)

-- A row that the cursors can name.
pub record IsNamed (c : Codec) (r : Notification) : Type 0 where
  pub in_time : r.created_at < year_10000
  pub uuid : c.is_uuid r.id ≡ true

pub encoded_visible :
    (c : Codec) (t : ℕ) (id : Text) → IsCodec c → is_empty (encode_cursor c t id) ≡ false
unfolding encode_cursor
encoded_visible c t id v = v.visible _ (never_empty (c.format_time t) id)
  where
    never_empty : (s id : Text) → is_empty (s ++ b'|' ∷ id) ≡ false
    never_empty [] id = refl
    never_empty (x ∷ s) id = refl

named :
    (c : Codec) (s : Text) (t : ℕ) (id : Text)
    → is_empty s ≡ false
    → decode_cursor c s ≡ ok (t, id)
    → c.is_uuid id ≡ true
    → cursor_params c s ≡ ok (some (t, id))
unfolding cursor_params
named c [] t id v d u = cc
named c (x ∷ s) t id v d u = rw (d, u)

pub cursor_params-encode_cursor :
    (c : Codec) (r : Notification)
    → IsCodec c
    → IsNamed c r
    → cursor_params c (encode_cursor c r.created_at r.id) ≡ ok (some (r.created_at, r.id))
cursor_params-encode_cursor c r v n =
    named c (encode_cursor c r.created_at r.id) r.created_at r.id
      (encoded_visible c r.created_at r.id v)
      (decode_cursor-encode_cursor c r.created_at r.id v n.in_time) n.uuid
