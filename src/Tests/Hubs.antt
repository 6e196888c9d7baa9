-- ===== src/Tests/Hubs.antt =====
-- The theorems on the hub, at concrete inputs.
use event_driven_notificatio.Base.{◌≡◌, refl, Bool, true, ◌&&◌, not, Text, text_eq, codes}
use event_driven_notificatio.Hub.{
  Hub, holds, new_hub, subscribe, unsubscribe, unsubscribe_all, broadcast,
}
use event_driven_notificatio.Hub.Subscriptions
use event_driven_notificatio.Hub.Subscriptions.{InStep, subscribed}

abbrev one : Hub
one = subscribe (codes "c-1") (codes "n-1") new_hub

new_hub-InStep : InStep new_hub
unfolding event_driven_notificatio.Hub.members holds
new_hub-InStep = record { subscribers_ok = tt; client_subs_ok = tt; agree = λ c i. refl }

one-InStep : InStep one
one-InStep = (Subscriptions.subscribe_lem (codes "c-1") (codes "n-1") new_hub new_hub-InStep).0

unsubscribe_all_lem_example :
    InStep (unsubscribe_all (codes "c-1") one)
    × ((d j : Text)
        → subscribed d j (unsubscribe_all (codes "c-1") one)
          ≡ (subscribed d j one && not (text_eq (codes "c-1") d)))
unsubscribe_all_lem_example = Subscriptions.unsubscribe_all_lem (codes "c-1") one one-InStep

abbrev always : Text → Bool
always c = true

broadcast_lem_example :
    let (after, recipients) = broadcast always (codes "n-1") one in
    InStep after
    × ((d : Text) → holds d recipients ≡ subscribed d (codes "n-1") one)
    × ((d j : Text)
        → subscribed d j after
          ≡ (subscribed d j one && not (always d && subscribed d (codes "n-1") one)))
broadcast_lem_example = Subscriptions.broadcast_lem always (codes "n-1") one one-InStep
