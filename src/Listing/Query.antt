-- ===== src/Listing/Query.antt =====
-- internal/adapters/postgres/sqlc/notifications.sql.go: ListNotifications, with the filter of
-- internal/ports/ports.go. An id in the text form that the adapter writes has the order of its bytes,
-- so ids are compared as texts.
use event_driven_notificatio.Base.{
  ℕ, Bool, true, false, ◌&&◌, ◌||◌, [], ◌∷◌, Option, none, some, Text, text_eq, take, select, ltb,
  leb, ◌==◌, if◌then◌else◌,
}
use event_driven_notificatio.Domain.Status.{Status, status_eq}
use event_driven_notificatio.Domain.Channel.{Channel, channel_text}
use event_driven_notificatio.Domain.Notification.{Notification}
use event_driven_notificatio.Store.{Table}

-- ports.NotificationFilter.
pub record ListFilter : Type 0 where
  pub status : Option Status
  pub channel : Option Channel
  pub batch_id : Option Text
  pub created_after : Option ℕ
  pub created_before : Option ℕ

-- sqlc.ListNotificationsParams.
pub record ListParams : Type 0 where
  pub filter : ListFilter
  pub cursor : Option (ℕ × Text)
  pub row_limit : ℕ

-- id < $7.
unfoldable pub text_lt : Text → Text → Bool
text_lt t [] = false
text_lt [] (d ∷ u) = true
text_lt (c ∷ t) (d ∷ u) = ltb c d || ((c == d) && text_lt t u)

-- (created_at, id) < ($6, $7).
unfoldable pub key_lt : ℕ → Text → ℕ → Text → Bool
unfolding text_lt
key_lt a s b t = ltb a b || ((a == b) && text_lt s t)

abbrev pub older : Notification → Notification → Bool
older r n = key_lt r.created_at r.id n.created_at n.id

-- A clause `$k IS NULL OR test`.
abbrev pub null_or {ℓ} : {A : Type ℓ} → (A → Bool) → Option A → Bool
null_or test none = true
null_or test (some a) = test a

abbrev pub batch_is : Option Text → Text → Bool
batch_is none id = false
batch_is (some own) id = text_eq own id

-- The WHERE clause but for the cursor.
unfoldable pub passes : ListFilter → Notification → Bool
passes f r =
    null_or (λ s. status_eq r.status s) f.status
    && null_or (λ c. text_eq (channel_text r.channel) (channel_text c)) f.channel
    && null_or (λ id. batch_is r.batch_id id) f.batch_id
    && null_or (λ t. leb t r.created_at) f.created_after
    && null_or (λ t. leb r.created_at t) f.created_before

-- The clause on the cursor.
unfoldable pub behind : Option (ℕ × Text) → Notification → Bool
behind cursor r = null_or (λ c. key_lt r.created_at r.id c.0 c.1) cursor

-- ORDER BY created_at DESC, id DESC.
unfoldable pub insert_newest : Notification → Table → Table
unfolding key_lt
insert_newest n [] = n ∷ []
insert_newest n (r ∷ rows) =
    let rest = insert_newest n rows in if older r n then n ∷ r ∷ rows else r ∷ rest

unfoldable pub newest_first : Table → Table
unfolding insert_newest
newest_first [] = []
newest_first (r ∷ rows) = insert_newest r (newest_first rows)

-- ListNotifications of sqlc.
unfoldable pub list_rows : ListParams → Table → Table
unfolding newest_first passes behind
list_rows params rows =
    take params.row_limit
      (newest_first (select (λ r. passes params.filter r && behind params.cursor r) rows))
