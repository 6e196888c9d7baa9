-- ===== src/Listing/Cursors.antt =====
-- internal/adapters/postgres/notification_repository.go: the cursors, the parameters of a page and
-- its end. An error that matches no sentinel is `adapter_failure`.
use mathlib.Core.Option
use event_driven_notificatio.Base.{
  ℕ, zero, suc, ◌+◌, Bool, [], ◌∷◌, ◌++◌, Option, none, some, Text, take, length, get_elem?, leb,
  ◌==◌, if◌then◌else◌,
}
use event_driven_notificatio.Domain.Errors.{Result, ok, err, guard, ◌>>=◌, ◌>>◌, adapter_failure}
use event_driven_notificatio.Domain.Notification.{Notification}
use event_driven_notificatio.Store.{Table}
use event_driven_notificatio.Listing.Query.{ListFilter, ListParams}

-- What the adapter takes from the packages time, encoding/base64 and pgtype: a time in RFC 3339 with
-- nanoseconds and back, base64 and back, and the test that a text is a UUID.
pub record Codec : Type 0 where
  pub format_time : ℕ → Text
  pub parse_time : Text → Option ℕ
  pub encode64 : Text → Text
  pub decode64 : Text → Option Text
  pub is_uuid : Text → Bool

-- strings.SplitN(s, "|", 2), where it has two parts.
unfoldable pub split_bar : Text → Option (Text × Text)
split_bar [] = none
split_bar (c ∷ t) =
    let rest = split_bar t in
    if c == b'|' then some ([], t) else Option.map (λ (p : Text × Text). (c ∷ p.0, p.1)) rest

abbrev pub found {ℓ} : {A : Type ℓ} → Option A → Result A
found none = err adapter_failure
found (some a) = ok a

-- encodeCursor.
unfoldable pub encode_cursor : Codec → ℕ → Text → Text
encode_cursor codec t id = codec.encode64 (codec.format_time t ++ b'|' ∷ id)

-- decodeCursor.
unfoldable pub decode_cursor : Codec → Text → Result (ℕ × Text)
unfolding split_bar
decode_cursor codec s = do
  raw ← found (codec.decode64 s)
  parts ← found (split_bar raw)
  t ← found (codec.parse_time parts.0)
  ok (t, parts.1)

-- The cursor of buildListParams.
unfoldable pub cursor_params : Codec → Text → Result (Option (ℕ × Text))
unfolding decode_cursor
cursor_params codec [] = ok none
cursor_params codec (c ∷ s) = do
  at ← decode_cursor codec (c ∷ s)
  guard (codec.is_uuid at.1) adapter_failure
  ok (some at)

-- The batch id of buildListParams.
abbrev pub check_batch_id : Codec → Option Text → Result (Unit {0})
check_batch_id codec none = ok tt
check_batch_id codec (some id) = guard (codec.is_uuid id) adapter_failure

-- buildListParams.
unfoldable pub build_list_params : Codec → ListFilter → Text → ℕ → Result ListParams
unfolding cursor_params
build_list_params codec filter cursor limit = do
  at ← cursor_params codec cursor
  check_batch_id codec filter.batch_id
  ok (record { filter = filter; cursor = at; row_limit = limit + 1 })

-- items[limit - 1], which panics on no such item; the server answers a panic like any other failure.
abbrev pub last_item : ℕ → Table → Result Notification
last_item zero items = err adapter_failure
last_item (suc k) items = found (get_elem? items k)

-- paginate.
unfoldable pub paginate : Codec → Table → ℕ → Result (Table × Text)
paginate codec items limit =
    if leb (length items) limit
    then ok (items, [])
    else last_item limit items >>= λ last.
        ok (take limit items, encode_cursor codec last.created_at last.id)
