-- ===== src/Domain/Channel.antt =====
-- internal/domain/channel.go and internal/domain/priority.go. The Go types are strings: a
-- constructor for each constant, and one for every other string.
use event_driven_notificatio.Base.{
  ◌≡◌, refl, Bool, true, false, Text, codes, text_eq, normalise, if◌then◌else◌, arith,
}
use event_driven_notificatio.Domain.Errors.{Result, ok, err, invalid_channel, invalid_priority}

pub data Channel : Type 0 where
  sms email push : Channel
  other_channel : Text → Channel

-- Channel(s).
unfoldable pub channel_of : Text → Channel
unfolding text_eq
channel_of t =
    if text_eq t (codes "sms")
    then sms
    else if text_eq t (codes "email")
    then email
    else if text_eq t (codes "push")
    then push
    else other_channel t

unfoldable pub channel_text : Channel → Text
channel_text sms = codes "sms"
channel_text email = codes "email"
channel_text push = codes "push"
channel_text (other_channel t) = t

-- Channel.IsValid.
abbrev pub is_valid_channel : Channel → Bool
is_valid_channel (other_channel t) = false
is_valid_channel _ = true

abbrev known_channel : Channel → Result Channel
known_channel (other_channel t) = err invalid_channel
known_channel c = ok c

-- NewChannel.
unfoldable pub new_channel : Text → Result Channel
unfolding channel_of normalise
new_channel s = known_channel (channel_of (normalise s))

pub data Priority : Type 0 where
  low normal high : Priority
  other_priority : Text → Priority

unfoldable pub priority_of : Text → Priority
unfolding text_eq
priority_of t =
    if text_eq t (codes "low")
    then low
    else if text_eq t (codes "normal")
    then normal
    else if text_eq t (codes "high")
    then high
    else other_priority t

unfoldable pub priority_text : Priority → Text
priority_text low = codes "low"
priority_text normal = codes "normal"
priority_text high = codes "high"
priority_text (other_priority t) = t

-- Priority.IsValid.
abbrev pub is_valid_priority : Priority → Bool
is_valid_priority (other_priority t) = false
is_valid_priority _ = true

abbrev known_priority : Priority → Result Priority
known_priority (other_priority t) = err invalid_priority
known_priority p = ok p

-- NewPriority.
unfoldable pub new_priority : Text → Result Priority
unfolding priority_of normalise
new_priority s = known_priority (priority_of (normalise s))

pub new_channel_valid : (s : Text) (c : Channel) → new_channel s ≡ ok c → is_valid_channel c ≡ true
unfolding new_channel
new_channel_valid s c h = ground arith

shouted : new_channel (codes "  SMS ") ≡ ok sms
unfolding new_channel
shouted = refl
