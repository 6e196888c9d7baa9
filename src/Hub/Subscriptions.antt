-- ===== src/Hub/Subscriptions.antt =====
-- internal/adapters/websocket/hub.go: the two maps stay in lock-step, and together they are a set of
-- pairs of a client and a notification.
use event_driven_notificatio.Base.{
  ◌≡◌, refl, ap, ◌∙◌, Bool, true, false, ◌&&◌, ◌||◌, not, List, [], ◌∷◌, Text, text_eq, text_eq→eq,
  if◌then◌else◌, arith,
}
use event_driven_notificatio.Hub.{
  holds, members, Hub, subscribe, unsubscribe, remove_locked, remove_each, unsubscribe_all,
  deliver_each, broadcast,
}
use event_driven_notificatio.Hub.Members.{
  has, IsIndex, has-insert, has-remove, insert-IsIndex, remove-IsIndex,
}

-- The pair is in the set.
abbrev pub subscribed : Text → Text → Hub → Bool
subscribed client id h = has id client h.subscribers

pub record InStep (h : Hub) : Type 0 where
  pub subscribers_ok : IsIndex h.subscribers
  pub client_subs_ok : IsIndex h.client_subs
  pub agree : (client id : Text) → has id client h.subscribers ≡ has client id h.client_subs

-- Subscribe keeps the two maps in step and adds the pair to the set, and no other.
pub subscribe_lem :
    (c i : Text) (h : Hub)
    → InStep h
    → InStep (subscribe c i h)
      × ((d j : Text)
          → subscribed d j (subscribe c i h) ≡ ((text_eq i j && text_eq c d) || subscribed d j h))
unfolding subscribe
subscribe_lem c i h v = (
  record {
    subscribers_ok = insert-IsIndex i c h.subscribers v.subscribers_ok;
    client_subs_ok = insert-IsIndex c i h.client_subs v.client_subs_ok;
    agree = λ d j.
        ground
          (arith, has-insert i c j d h.subscribers, has-insert c i d j h.client_subs, v.agree d j);
  },
  λ d j. has-insert i c j d h.subscribers,
)

remove_locked_lem :
    (c i : Text) (h : Hub)
    → InStep h
    → InStep (remove_locked c i h)
      × ((d j : Text)
          → subscribed d j (remove_locked c i h)
            ≡ (subscribed d j h && not (text_eq i j && text_eq c d)))
unfolding remove_locked
remove_locked_lem c i h v = (
  record {
    subscribers_ok = remove-IsIndex i c h.subscribers v.subscribers_ok;
    client_subs_ok = remove-IsIndex c i h.client_subs v.client_subs_ok;
    agree = λ d j. ground (
      arith,
      has-remove i c j d h.subscribers v.subscribers_ok,
      has-remove c i d j h.client_subs v.client_subs_ok,
      v.agree d j,
    );
  },
  λ d j. has-remove i c j d h.subscribers v.subscribers_ok,
)

-- Unsubscribe keeps the two maps in step and takes the pair out of the set, and no other.
pub unsubscribe_lem :
    (c i : Text) (h : Hub)
    → InStep h
    → InStep (unsubscribe c i h)
      × ((d j : Text)
          → subscribed d j (unsubscribe c i h)
            ≡ (subscribed d j h && not (text_eq i j && text_eq c d)))
unfolding unsubscribe
unsubscribe_lem c i h v = remove_locked_lem c i h v

remove_each_lem :
    (c : Text) (ids : List Text) (h : Hub)
    → InStep h
    → InStep (remove_each c ids h)
      × ((d j : Text)
          → subscribed d j (remove_each c ids h)
            ≡ (subscribed d j h && not (holds j ids && text_eq c d)))
unfolding remove_each holds
remove_each_lem c [] h v = (v, λ d j. ground arith)
remove_each_lem c (i ∷ ids) h v =
    let (now, sets) = remove_locked_lem c i h v in
    let (after, rest) = remove_each_lem c ids (remove_locked c i h) now in
    (
      after,
      λ d j.
          rest d j
          ∙ rw (sets d j) (each_of (subscribed d j h) (text_eq i j) (text_eq c d) (holds j ids)),
    )
  where
    each_of : (s p q r : Bool) → ((s && not (p && q)) && not (r && q)) ≡ (s && not ((p || r) && q))
    each_of s p q r = ground arith

-- UnsubscribeAll keeps the two maps in step and takes every pair of the client out of the set, and no
-- other.
pub unsubscribe_all_lem :
    (c : Text) (h : Hub)
    → InStep h
    → InStep (unsubscribe_all c h)
      × ((d j : Text)
          → subscribed d j (unsubscribe_all c h) ≡ (subscribed d j h && not (text_eq c d)))
unfolding unsubscribe_all
unsubscribe_all_lem c h v =
    let (after, sets) = remove_each_lem c (members c h.client_subs) h v in
    (after, λ d j. sets d j ∙ ground (arith, v.agree c j, text_eq→eq c d))

-- A client that is dropped if its Send failed.
dropped_if :
    (b : Bool) (c : Text) (h : Hub)
    → InStep h
    → InStep (if b then unsubscribe_all c h else h)
      × ((d j : Text)
          → subscribed d j (if b then unsubscribe_all c h else h)
            ≡ (subscribed d j h && not (b && text_eq c d)))
dropped_if true c h v = unsubscribe_all_lem c h v
dropped_if false c h v = (v, λ d j. ground arith)

deliver_each_lem :
    (fails : Text → Bool) (clients : List Text) (h : Hub)
    → InStep h
    → InStep (deliver_each fails clients h)
      × ((d j : Text)
          → subscribed d j (deliver_each fails clients h)
            ≡ (subscribed d j h && not (fails d && holds d clients)))
unfolding deliver_each holds
deliver_each_lem fails [] h v = (v, λ d j. ground arith)
deliver_each_lem fails (c ∷ clients) h v =
    let (now, sets) = dropped_if (fails c) c h v in
    let (after, rest) =
      deliver_each_lem fails clients (if fails c then unsubscribe_all c h else h) now in
    (
      after,
      λ d j.
          rest d j
          ∙ rw (sets d j) (
              both_of (subscribed d j h) (fails c) (fails d) (text_eq c d) (holds d clients)
                (λ e. ap fails (text_eq→eq c d e))),
    )
  where
    both_of :
        (s p p' q r : Bool)
        → (q ≡ true → p ≡ p')
        → ((s && not (p && q)) && not (p' && r)) ≡ (s && not (p' && (q || r)))
    both_of s p p' true r h = rw (h refl) (ground arith)
    both_of s p p' false r h = ground arith

-- Broadcast sends to the subscribers of the notification, and to no one else. It keeps the two maps
-- in step, takes out every pair of a subscriber whose Send fails, and leaves every other pair.
pub broadcast_lem :
    (fails : Text → Bool) (i : Text) (h : Hub)
    → InStep h
    → let (after, recipients) = broadcast fails i h in
      InStep after
      × ((d : Text) → holds d recipients ≡ subscribed d i h)
      × ((d j : Text)
          → subscribed d j after ≡ (subscribed d j h && not (fails d && subscribed d i h)))
unfolding broadcast
broadcast_lem fails i h v =
    let (after, sets) = deliver_each_lem fails (members i h.subscribers) h v in
    (after, λ d. refl, sets)
