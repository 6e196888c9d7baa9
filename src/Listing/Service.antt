-- ===== src/Listing/Service.antt =====
-- internal/application/list_notifications.go, over List of
-- internal/adapters/postgres/notification_repository.go.
use event_driven_notificatio.Base.{
  ℕ, zero, suc, ◌||◌, List, [], ◌∷◌, ◌++◌, Option, none, some, Text, is_empty, ltb, ◌==◌,
  if◌then◌else◌,
}
use event_driven_notificatio.Domain.Errors.{Result, ok, err, adapter_failure}
use event_driven_notificatio.Domain.Status.{Status, new_status}
use event_driven_notificatio.Domain.Channel.{Channel, new_channel}
use event_driven_notificatio.Domain.Notification.{Notification}
use event_driven_notificatio.Store.{Table}
use event_driven_notificatio.Ports.{M, ◌>>=◌, returns, return, fail, lift, call}
use event_driven_notificatio.Listing.Query.{ListFilter, ListParams, list_rows}
use event_driven_notificatio.Listing.Cursors.{Codec, build_list_params, paginate}

-- List, behind the parameters.
unfoldable pub query : Codec → ℕ → ListParams → M (Table × Text)
query codec limit params = do
  rows ← call λ e w. returns (list_rows params w.rows) w
  lift (paginate codec rows limit)

-- NotificationRepository.List.
unfoldable pub repo_list : Codec → ListFilter → Text → ℕ → M (Table × Text)
unfolding query
repo_list codec filter cursor limit = do
  params ← lift (build_list_params codec filter cursor limit)
  query codec limit params

-- ListNotificationsInput; a limit below 0 counts as 0.
pub record ListNotificationsInput : Type 0 where
  pub status : Text
  pub channel : Text
  pub batch_id : Option Text
  pub created_after : Option ℕ
  pub created_before : Option ℕ
  pub cursor : Text
  pub limit : ℕ

pub record ListNotificationsOutput : Type 0 where
  pub notifications : List Notification
  pub next_cursor : Text

abbrev pub default_list_limit : ℕ
default_list_limit = 20

abbrev pub max_list_limit : ℕ
max_list_limit = 100

abbrev pub given {ℓ} : {A : Type ℓ} → Result A → Result (Option A)
given (ok a) = ok (some a)
given (err x) = err x

-- The empty string is no filter.
unfoldable pub status_filter : Text → Result (Option Status)
unfolding new_status
status_filter [] = ok none
status_filter (c ∷ s) = given (new_status (c ∷ s))

unfoldable pub channel_filter : Text → Result (Option Channel)
unfolding new_channel
channel_filter [] = ok none
channel_filter (c ∷ s) = given (new_channel (c ∷ s))

abbrev pub filter_of : ListNotificationsInput → Option Status → Option Channel → ListFilter
filter_of input status channel = record {
  status = status;
  channel = channel;
  batch_id = input.batch_id;
  created_after = input.created_after;
  created_before = input.created_before;
}

-- The limit that Execute passes on.
unfoldable pub clamp_limit : ℕ → ℕ
clamp_limit limit = if (limit == 0) || ltb max_list_limit limit then default_list_limit else limit

-- Execute, behind the filters.
unfoldable pub list_filtered :
    Codec → ListNotificationsInput → Option Status → Option Channel → M ListNotificationsOutput
unfolding clamp_limit repo_list
list_filtered codec input status channel = do
  page ← repo_list codec (filter_of input status channel) input.cursor (clamp_limit input.limit)
  return (record { notifications = page.0; next_cursor = page.1 })

-- ListNotifications.Execute.
unfoldable pub list_notifications : Codec → ListNotificationsInput → M ListNotificationsOutput
unfolding status_filter channel_filter list_filtered
list_notifications codec input = do
  status ← lift (status_filter input.status)
  channel ← lift (channel_filter input.channel)
  list_filtered codec input status channel

-- A caller that asks for pages until the cursor is empty. Fuel that runs out is an error.
abbrev pub continue_with :
    (Text → M (List Notification)) → ListNotificationsOutput → M (List Notification)
continue_with rest page =
    if is_empty page.next_cursor
    then return page.notifications
    else (rest page.next_cursor >>= λ more. return (page.notifications ++ more))

unfoldable pub read_pages : Codec → ℕ → ListNotificationsInput → M (List Notification)
read_pages codec zero input = fail adapter_failure
read_pages codec (suc fuel) input =
    list_notifications codec input
    >>= continue_with (λ cursor. read_pages codec fuel (record input { cursor = cursor }))
