-- ===== src/Domain/Status/Machine.antt =====
-- internal/domain/status.go: the table of transitions against the diagram of its doc comment.
use event_driven_notificatio.Base.{◌≡◌, refl, ◌↔◌, true, false, text_eq→eq, text_eq_refl, arith}
use event_driven_notificatio.Domain.Errors.{ok}
use event_driven_notificatio.Domain.Status.{
  Status, pending, queued, processing, delivered, failed, retrying, cancelled, other_status,
  status_text, is_valid, is_terminal, status_eq, can_transition_to, new_status,
}

-- The diagram: pending → queued → processing → delivered | failed | retrying,
-- retrying → processing, pending | queued | retrying → cancelled.
infix 40 ◌⟶◌ ◌⟶*◌
pub data ◌⟶◌ : Status → Status → Type 0 where
  enqueue : pending ⟶ queued
  pick : queued ⟶ processing
  pick_again : retrying ⟶ processing
  deliver : processing ⟶ delivered
  give_up : processing ⟶ failed
  put_off : processing ⟶ retrying
  withdraw_pending : pending ⟶ cancelled
  withdraw_queued : queued ⟶ cancelled
  withdraw_retrying : retrying ⟶ cancelled

pub data ◌⟶*◌ (s : Status) : Status → Type 0 where
  here : s ⟶* s
  next : {t u : Status} → s ⟶* t → t ⟶ u → s ⟶* u

pub ⟶*-trans : {s t u : Status} → s ⟶* t → t ⟶* u → s ⟶* u
⟶*-trans p here = p
⟶*-trans p (next q e) = next (⟶*-trans p q) e

pub status_eq→eq : (s t : Status) → status_eq s t ≡ true → s ≡ t
unfolding status_eq
status_eq→eq (other_status t) (other_status u) h = ground (arith, text_eq→eq t u)
status_eq→eq s t h = ground arith

pub status_eq_refl : (s : Status) → status_eq s s ≡ true
unfolding status_eq
status_eq_refl (other_status t) = text_eq_refl t
status_eq_refl _ = refl

ruleset edges = (
  enqueue, pick, pick_again, deliver, give_up, put_off, withdraw_pending, withdraw_queued,
  withdraw_retrying,
)

pub can_transition_to→⟶ : (s t : Status) → can_transition_to s t ≡ true → s ⟶ t
unfolding can_transition_to
can_transition_to→⟶ s t h = grind (arith, edges)

pub ⟶→can_transition_to : {s t : Status} → s ⟶ t → can_transition_to s t ≡ true
unfolding can_transition_to
⟶→can_transition_to enqueue = refl
⟶→can_transition_to _ = refl

-- CanTransitionTo accepts exactly the arrows of the documented diagram, for all strings on both
-- sides.
pub can_transition_to_iff : (s t : Status) → (can_transition_to s t ≡ true) ↔ (s ⟶ t)
can_transition_to_iff s t = (can_transition_to→⟶ s t, λ e. ⟶→can_transition_to e)

pub IsTerminal-⟶ : {s t : Status} → is_terminal s ≡ true → ¬ (s ⟶ t)
unfolding is_terminal
IsTerminal-⟶ h enqueue = cc
IsTerminal-⟶ h _ = cc

-- From a terminal status only itself is reached.
pub terminal-⟶* : {s t : Status} → is_terminal s ≡ true → s ⟶* t → t ≡ s
terminal-⟶* h here = refl
terminal-⟶* h (next p e) = absurd (IsTerminal-⟶ (rw (terminal-⟶* h p) h) e)

-- A valid status has no outgoing transition exactly when IsTerminal says so.
pub is_terminal_iff :
    (s : Status)
    → is_valid s ≡ true
    → (is_terminal s ≡ true) ↔ ((t : Status) → can_transition_to s t ≡ false)
unfolding is_terminal can_transition_to is_valid
is_terminal_iff s v = (stays s v, ends s v)
  where
    stays :
        (s : Status)
        → is_valid s ≡ true
        → is_terminal s ≡ true
        → (t : Status) → can_transition_to s t ≡ false
    stays pending v h t = cc
    stays queued v h t = cc
    stays processing v h t = cc
    stays retrying v h t = cc
    stays _ v h t = refl

    ends :
        (s : Status)
        → is_valid s ≡ true
        → ((t : Status) → can_transition_to s t ≡ false)
        → is_terminal s ≡ true
    ends pending v h = cc (h queued)
    ends queued v h = cc (h processing)
    ends processing v h = cc (h failed)
    ends retrying v h = cc (h processing)
    ends (other_status t) v h = cc
    ends _ v h = refl

-- Every valid status that is not terminal has a way to `delivered` along the arrows of the diagram.
pub delivered_reachable : (s : Status) → is_valid s ≡ true → is_terminal s ≡ false → s ⟶* delivered
unfolding is_valid is_terminal
delivered_reachable pending v h = next (next (next here enqueue) pick) deliver
delivered_reachable queued v h = next (next here pick) deliver
delivered_reachable processing v h = next here deliver
delivered_reachable retrying v h = next (next here pick_again) deliver
delivered_reachable (other_status t) v h = cc
delivered_reachable _ v h = cc

pub ⟶-valid : {s t : Status} → s ⟶ t → (is_valid s ≡ true) × (is_valid t ≡ true)
unfolding is_valid
⟶-valid enqueue = (refl, refl)
⟶-valid _ = (refl, refl)

-- NewStatus inverts String on the valid statuses.
pub new_status-status_text : (s : Status) → is_valid s ≡ true → new_status (status_text s) ≡ ok s
unfolding new_status status_text is_valid
new_status-status_text (other_status t) v = cc
new_status-status_text _ v = refl
