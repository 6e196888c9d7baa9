-- ===== src/Domain/Notification/Creation.antt =====
-- internal/domain/notification.go: which inputs NewNotification accepts, and what it returns.
use event_driven_notificatio.Base.{
  ℕ, ◌≤◌, ◌≡◌, refl, ◌↔◌, Bool, true, not, none, [], ◌∷◌, Text, length, byte_len, is_empty, arith,
}
use event_driven_notificatio.Domain.Errors.{ok, guard, ◌>>◌, guard_iff, seq_iff, invalid_recipient}
use event_driven_notificatio.Domain.Channel.{
  Channel, sms, email, push, other_channel, is_valid_channel, is_valid_priority,
}
use event_driven_notificatio.Domain.Status.{pending}
use event_driven_notificatio.Domain.Recipient.{
  e164_match, email_match, validate_recipient, validate_content,
}
use event_driven_notificatio.Domain.Recipient.Patterns.{
  IsE164, IsEmail, e164_match_iff, email_match_iff,
}
use event_driven_notificatio.Domain.Notification.{
  Notification, NewNotificationInput, initial, new_notification,
}
use event_driven_notificatio.Domain.Notification.Marks.{IsCoherent}

-- The addresses that a channel can reach.
abbrev pub IsAddress : Channel → Text → Type 0
IsAddress sms t = IsE164 t
IsAddress email t = IsEmail t
IsAddress push t = 1 ≤ length t
IsAddress (other_channel c) t = ⊥

-- The most bytes that a channel carries.
abbrev pub capacity : Channel → ℕ
capacity sms = 160
capacity email = 10000
capacity push = 500
capacity (other_channel c) = 0

pub record IsAcceptable (input : NewNotificationInput) : Type 0 where
  pub id_given : 1 ≤ length input.id
  pub correlation_given : 1 ≤ length input.correlation_id
  pub channel_known : is_valid_channel input.channel ≡ true
  pub priority_known : is_valid_priority input.priority ≡ true
  pub recipient_fits : IsAddress input.channel input.recipient
  pub content_given : 1 ≤ length input.content
  pub content_fits : byte_len input.content ≤ capacity input.channel

given : (t : Text) → (not (is_empty t) ≡ true) ↔ (1 ≤ length t)
given [] = (λ h. cc, λ h. absurd (omega arith))
given (c ∷ t) = (λ h. omega arith, λ h. refl)

-- The shape test behind the test for an empty recipient.
shape_iff :
    (b : Bool) (t : Text) (P : Type 0)
    → (b ≡ true) ↔ P
    → (b ≡ true → 1 ≤ length t)
    → ((guard (not (is_empty t)) invalid_recipient >> guard b invalid_recipient) ≡ ok tt) ↔ P
shape_iff b [] P e g = (λ h. cc, λ p. absurd (omega (arith, g (e.1 p))))
shape_iff b (x ∷ t) P e g =
    (λ h. e.0 ((guard_iff b invalid_recipient).0 h), λ p. (guard_iff b invalid_recipient).1 (e.1 p))

e164_given : (t : Text) → e164_match t ≡ true → 1 ≤ length t
unfolding e164_match
e164_given [] h = cc
e164_given (c ∷ t) h = omega arith

email_given : (t : Text) → email_match t ≡ true → 1 ≤ length t
unfolding email_match
email_given [] h = cc
email_given (c ∷ t) h = omega arith

pub recipient_iff :
    (c : Channel) (t : Text)
    → is_valid_channel c ≡ true
    → (validate_recipient c t ≡ ok tt) ↔ IsAddress c t
unfolding validate_recipient
recipient_iff sms t v = shape_iff (e164_match t) t (IsE164 t) (e164_match_iff t) (e164_given t)
recipient_iff email t v =
    shape_iff (email_match t) t (IsEmail t) (email_match_iff t) (email_given t)
recipient_iff push [] v = (λ h. cc, λ h. absurd (omega arith))
recipient_iff push (x ∷ t) v = (λ h. omega arith, λ h. refl)
recipient_iff (other_channel c) t v = cc

pub content_iff :
    (c : Channel) (t : Text)
    → is_valid_channel c ≡ true
    → (validate_content c t ≡ ok tt) ↔ ((1 ≤ length t) × (byte_len t ≤ capacity c))
unfolding validate_content
content_iff (other_channel c) t v = cc
content_iff c [] v = (λ h. cc, λ h. absurd (omega arith))
content_iff c (x ∷ t) v = (λ h. ground arith, λ h. ground arith)

accepted :
    (input : NewNotificationInput) (now : ℕ) (n : Notification)
    → new_notification input now ≡ ok n
    → IsAcceptable input × (n ≡ initial input now)
unfolding new_notification
accepted input now n h =
    let (id, h₁) = (seq_iff _ _ n).0 h in
    let (correlation, h₂) = (seq_iff _ _ n).0 h₁ in
    let (channel, h₃) = (seq_iff _ _ n).0 h₂ in
    let (priority, h₄) = (seq_iff _ _ n).0 h₃ in
    let (address, h₅) = (seq_iff _ _ n).0 h₄ in
    let (body, h₆) = (seq_iff _ _ n).0 h₅ in
    let known = (guard_iff _ _).0 channel in
    let content = (content_iff input.channel input.content known).0 body in
    (
      record {
        id_given = (given input.id).0 ((guard_iff _ _).0 id);
        correlation_given = (given input.correlation_id).0 ((guard_iff _ _).0 correlation);
        channel_known = known;
        priority_known = (guard_iff _ _).0 priority;
        recipient_fits = (recipient_iff input.channel input.recipient known).0 address;
        content_given = content.0;
        content_fits = content.1;
      },
      cc,
    )

accepts :
    (input : NewNotificationInput) (now : ℕ)
    → IsAcceptable input
    → new_notification input now ≡ ok (initial input now)
unfolding new_notification
accepts input now v = rw (
  (given input.id).1 v.id_given,
  (given input.correlation_id).1 v.correlation_given,
  v.channel_known,
  v.priority_known,
  (recipient_iff input.channel input.recipient v.channel_known).1 v.recipient_fits,
  (content_iff input.channel input.content v.channel_known).1 (v.content_given, v.content_fits),
)

-- The entity that an input stands for.
abbrev pub as_new : NewNotificationInput → ℕ → Notification
as_new input now = record {
  id = input.id;
  batch_id = input.batch_id;
  idempotency_key = input.idempotency_key;
  correlation_id = input.correlation_id;
  channel = input.channel;
  priority = input.priority;
  recipient = input.recipient;
  content = input.content;
  status = pending;
  attempts = 0;
  last_error = [];
  next_retry_at = none;
  scheduled_at = input.scheduled_at;
  template_id = input.template_id;
  created_at = now;
  updated_at = now;
}

-- NewNotification succeeds on exactly the inputs with an id, a correlation id, a known channel and
-- priority, an address that the channel can reach and a content of 1 byte up to the channel's limit,
-- and then returns the pending entity with the input's fields, no attempts, no error, no next retry and
-- both times at `now`.
pub new_notification_iff :
    (input : NewNotificationInput) (now : ℕ) (n : Notification)
    → (new_notification input now ≡ ok n) ↔ (IsAcceptable input × (n ≡ as_new input now))
new_notification_iff input now n = (accepted input now n, λ (v, e). rw e (accepts input now v))

pub new_notification-IsCoherent :
    (input : NewNotificationInput) (now : ℕ) (n : Notification)
    → new_notification input now ≡ ok n
    → IsCoherent n
new_notification-IsCoherent input now n h = rw (accepted input now n h).1 (refl, refl, refl)
