-- ===== src/Hub.antt =====
-- internal/adapters/websocket/hub.go: which client wants which notification. A Go map is a list of
-- entries, and a map to sets is one of keys with the members of each. A client is its ID; whether a
-- Send to it fails is an argument. Each method is one step, as where no other call comes between: `Broadcast` reads the
-- recipients under the lock and sends to them outside it.
pub mod Members
pub mod Subscriptions
use event_driven_notificatio.Base.{
  ℕ, Bool, true, false, ◌||◌, List, [], ◌∷◌, Text, text_eq, is_empty, if◌then◌else◌, length,
}

abbrev pub Index : Type 0
Index = List (Text × List Text)

unfoldable pub holds : Text → List Text → Bool
unfolding text_eq
holds v [] = false
holds v (x ∷ xs) = text_eq x v || holds v xs

unfoldable pub drop : Text → List Text → List Text
unfolding text_eq
drop v [] = []
drop v (x ∷ xs) = let rest = drop v xs in if text_eq x v then rest else x ∷ rest

-- The set at a key; a missing key has the empty one.
unfoldable pub members : Text → Index → List Text
unfolding text_eq
members k [] = []
members k ((j, vs) ∷ m) = if text_eq j k then vs else members k m

-- `m[k][v] = …`, with a new set where the key is missing.
unfoldable pub insert : Text → Text → Index → Index
unfolding holds text_eq
insert k v [] = (k, v ∷ []) ∷ []
insert k v ((j, vs) ∷ m) =
    let rest = insert k v m in
    if text_eq j k then (j, (if holds v vs then vs else v ∷ vs)) ∷ m else (j, vs) ∷ rest

-- A set that is left empty goes with its key.
abbrev pub put : Text → List Text → Index → Index
put j [] m = m
put j (v ∷ vs) m = (j, v ∷ vs) ∷ m

-- One half of removeLocked: `delete(m[k], v)`.
unfoldable pub remove : Text → Text → Index → Index
unfolding drop text_eq
remove k v [] = []
remove k v ((j, vs) ∷ m) =
    let rest = remove k v m in if text_eq j k then put j (drop v vs) m else (j, vs) ∷ rest

pub record Hub : Type 0 where
  pub subscribers : Index
  pub client_subs : Index

-- NewHub.
abbrev pub new_hub : Hub
new_hub = record { subscribers = []; client_subs = [] }

-- Hub.Subscribe.
unfoldable pub subscribe : Text → Text → Hub → Hub
unfolding insert
subscribe client id h = record {
  subscribers = insert id client h.subscribers;
  client_subs = insert client id h.client_subs;
}

-- removeLocked.
unfoldable pub remove_locked : Text → Text → Hub → Hub
unfolding remove
remove_locked client id h = record {
  subscribers = remove id client h.subscribers;
  client_subs = remove client id h.client_subs;
}

-- Hub.Unsubscribe.
unfoldable pub unsubscribe : Text → Text → Hub → Hub
unfolding remove_locked
unsubscribe client id h = remove_locked client id h

-- The loop of UnsubscribeAll.
unfoldable pub remove_each : Text → List Text → Hub → Hub
unfolding remove_locked
remove_each client [] h = h
remove_each client (id ∷ ids) h = remove_each client ids (remove_locked client id h)

-- Hub.UnsubscribeAll.
unfoldable pub unsubscribe_all : Text → Hub → Hub
unfolding remove_each members
unsubscribe_all client h = remove_each client (members client h.client_subs) h

-- The loop of Broadcast over its snapshot.
unfoldable pub deliver_each : (Text → Bool) → List Text → Hub → Hub
unfolding unsubscribe_all
deliver_each fails [] h = h
deliver_each fails (client ∷ clients) h =
    deliver_each fails clients (if fails client then unsubscribe_all client h else h)

-- Hub.Broadcast: the hub, and the clients that were sent to.
unfoldable pub broadcast : (Text → Bool) → Text → Hub → Hub × List Text
unfolding deliver_each members
broadcast fails id h =
    let recipients = members id h.subscribers in (deliver_each fails recipients h, recipients)

-- Hub.SubscriberCount.
unfoldable pub subscriber_count : Text → Hub → ℕ
unfolding members
subscriber_count id h = length (members id h.subscribers)
