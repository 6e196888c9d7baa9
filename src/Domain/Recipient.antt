-- ===== src/Domain/Recipient.antt =====
-- internal/domain/notification.go: the limits on content, the two recipient patterns, and the
-- validators that NewNotification calls.
pub mod Patterns
use event_driven_notificatio.Base.{
  ℕ, Bool, true, false, ◌&&◌, ◌||◌, not, [], ◌∷◌, Option, none, some, Text, length, all, leb, ltb,
  ◌==◌, if◌then◌else◌, is_empty, byte_len,
}
use event_driven_notificatio.Domain.Errors.{
  Result, ok, err, guard, ◌>>◌, invalid_recipient, invalid_content, invalid_channel,
}
use event_driven_notificatio.Domain.Channel.{Channel, sms, email, push, other_channel}

-- The map contentLimits.
unfoldable pub content_limit : Channel → Option ℕ
content_limit sms = some 160
content_limit email = some 10000
content_limit push = some 500
content_limit (other_channel t) = none

abbrev pub is_digit : ℕ → Bool
is_digit c = leb b'0' c && leb c b'9'

-- [1-9]\d{1,14}, to the end.
e164_digits : Text → Bool
e164_digits [] = false
e164_digits (c ∷ t) =
    leb b'1' c && leb c b'9' && all is_digit t && leb 1 (length t) && leb (length t) 14

-- e164Pattern: ^\+[1-9]\d{1,14}$
unfoldable pub e164_match : Text → Bool
unfolding e164_digits
e164_match [] = false
e164_match (c ∷ t) = (c == b'+') && e164_digits t

-- \s of the regexp package.
abbrev pub is_pattern_space : ℕ → Bool
is_pattern_space c = (c == 9) || (c == 10) || (c == 12) || (c == 13) || (c == 32)

-- [^@\s]
abbrev pub is_clean : ℕ → Bool
is_clean c = not (c == b'@') && not (is_pattern_space c)

-- Somewhere a dot with at least one character behind it.
unfoldable pub dot_before_more : Text → Bool
dot_before_more [] = false
dot_before_more (c ∷ []) = false
dot_before_more (c ∷ d ∷ t) = (c == b'.') || dot_before_more (d ∷ t)

-- [^@\s]+\.[^@\s]+ to the end.
unfoldable pub domain_match : Text → Bool
unfolding dot_before_more
domain_match [] = false
domain_match (c ∷ t) = all is_clean (c ∷ t) && dot_before_more t

-- [^@\s]+@ and the rest, once `seen` says that a character stands before.
unfoldable pub local_match : Bool → Text → Bool
unfolding domain_match
local_match seen [] = false
local_match seen (c ∷ t) =
    let more = local_match true t in
    if c == b'@' then seen && domain_match t else if is_pattern_space c then false else more

-- emailPattern: ^[^@\s]+@[^@\s]+\.[^@\s]+$
unfoldable pub email_match : Text → Bool
unfolding local_match
email_match t = local_match false t

recipient_shape : Channel → Text → Result (Unit {0})
recipient_shape sms t = guard (e164_match t) invalid_recipient
recipient_shape email t = guard (email_match t) invalid_recipient
recipient_shape push t = ok tt
recipient_shape (other_channel c) t = ok tt

-- validateRecipient.
unfoldable pub validate_recipient : Channel → Text → Result (Unit {0})
unfolding recipient_shape
validate_recipient c t = do guard (not (is_empty t)) invalid_recipient; recipient_shape c t

abbrev within_limit : Option ℕ → ℕ → Result (Unit {0})
within_limit none n = err invalid_channel
within_limit (some limit) n = if ltb limit n then err invalid_content else ok tt

-- validateContent.
unfoldable pub validate_content : Channel → Text → Result (Unit {0})
unfolding content_limit
validate_content c t = do
  guard (not (is_empty t)) invalid_content
  within_limit (content_limit c) (byte_len t)
