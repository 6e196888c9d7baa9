-- ===== src/System/Safety.antt =====
-- internal/application: what no interleaving of the workers, the API and the reconciler can break.
use event_driven_notificatio.Base.{
  ℕ, ◌+◌, ◌≤◌, ◌≡◌, refl, ap, subst, ◌∙◌, ◌⊎◌, inl, inr, true, false, List, [], ◌∷◌, some, Text,
  text_eq, text_eq→eq, All, Bool-cases, arith,
}
use event_driven_notificatio.Domain.Status.{
  Status, pending, queued, processing, failed, retrying, other_status, is_terminal, status_eq,
}
use event_driven_notificatio.Domain.Notification.{Notification, apply}
use event_driven_notificatio.Store.{find_row, claimable}
use event_driven_notificatio.System.{
  Worker, State, verdict, Step, creates, reads, writes, leaves, claims, claims_unheard, sends,
  settles, dies, empty, Steps, done, then_step, held, unasked, unsent, count,
}
use event_driven_notificatio.System.Lists.{Takes-All, unsent-Takes}
use event_driven_notificatio.System.Slots.{Carries, Counts, Counted, Legal}
use event_driven_notificatio.System.Tables.{
  Holds, claim_id, insert_keeps, claim_refused, update_refused,
}
use event_driven_notificatio.System.Invariant.{Inv, IsLegal, Steps-Inv, reachable-Inv}

unsent-le-held : (j : Text) (ws : List Worker) → unsent j ws ≤ held j ws
unsent-le-held j [] = omega arith
unsent-le-held j (w ∷ ws) = ground (arith, unsent-le-held j ws)

Counts-open : (s : Status) (a k : ℕ) → is_terminal s ≡ false → Counts s a k → k ≡ a
unfolding is_terminal
Counts-open pending a k o c = omega arith
Counts-open queued a k o c = c
Counts-open processing a k o c = c
Counts-open retrying a k o c = c
Counts-open (other_status t) a k o c = absurd c
Counts-open _ a k o c = cc

-- In every state that the interleaved service can reach, at most one worker is between its claim of a
-- row and its update of it; and while the row is not terminal, the messages sent for it are at most
-- its attempts.
pub one_worker :
    {s : State} (j : Text) (r : Notification)
    → Steps empty s
    → find_row j s.rows ≡ some r
    → is_terminal r.status ≡ false
    → (held j s.workers ≤ 1) × (count j s.sent ≤ r.attempts)
one_worker {s} j r path found open_ =
    let v = reachable-Inv path in
    let c : Counted (some r) (count j s.claimed) =
      subst (λ o. Counted o (count j s.claimed)) found (v.counted j) in
    (
      v.alone j,
      omega (arith, v.paid j, Counts-open r.status r.attempts (count j s.claimed) open_ c),
    )

-- A row that ended is held by nobody, unless the reconciler gave it up under a worker.
Carries-ended :
    (r c : Notification) → is_terminal r.status ≡ true → Carries (some r) c → r.status ≡ failed
unfolding is_terminal
Carries-ended r c e v = ground arith

Legal-ended : (e s t : Status) (a : ℕ) → is_terminal t ≡ true → Legal e s a → status_eq t e ≡ false
unfolding is_terminal status_eq
Legal-ended e s t a h l = ground arith

processing-ended : (t : Status) → is_terminal t ≡ true → status_eq t processing ≡ false
unfolding is_terminal status_eq
processing-ended t h = ground arith

claimable-ended : (t : Status) → is_terminal t ≡ true → claimable t ≡ false
unfolding is_terminal status_eq claimable
claimable-ended t h = ground arith

-- What a terminal row and its messages may still do.
record Rests (j : Text) (r : Notification) (s u : State) : Type 0 where
  row : find_row j u.rows ≡ some r
  messages : unsent j u.workers + count j u.sent ≤ unsent j s.workers + count j s.sent
  sent : count j s.sent ≤ count j u.sent

Step-Rests :
    {s u : State} (j : Text) (r : Notification)
    → Step s u
    → Inv s
    → find_row j s.rows ≡ some r
    → is_terminal r.status ≡ true
    → Rests j r s u
Step-Rests {s} j r (creates input t n rows made stored) v found e = record {
  row = insert_keeps n s.rows rows stored j r found;
  messages = omega arith;
  sent = omega arith;
}
Step-Rests {s} j r (reads id mark t n found' outside made) v found e = record {
  row = found;
  messages = omega arith;
  sent = omega arith;
}
Step-Rests {s} j r (writes w ws took) v found e = record {
  row = update_refused w.entity w.expected s.rows j r v.keyed found (
      Legal-ended w.expected w.entity.status r.status w.entity.attempts e
        (Takes-All IsLegal took v.legal).0);
  messages = omega arith;
  sent = omega arith;
}
Step-Rests {s} j r (leaves w ws took) v found e = record {
  row = found;
  messages = omega arith;
  sent = omega arith;
}
Step-Rests {s} j r (claims id t n got) v found e =
    let (other, row) =
      claim_refused id t n s.rows j r v.keyed got found (claimable-ended r.status e) in
    record {
      row = row;
      messages = ground (arith, claim_id id t n s.rows v.keyed got);
      sent = omega arith;
    }
Step-Rests {s} j r (claims_unheard id t n got) v found e =
    let (other, row) =
      claim_refused id t n s.rows j r v.keyed got found (claimable-ended r.status e) in
    record { row = row; messages = omega arith; sent = omega arith }
Step-Rests {s} j r (sends w ws result took asked) v found e =
    let fresh : unasked w ≡ true = rw asked in
    record { row = found; messages = ground (arith, unsent-Takes j took); sent = ground arith }
Step-Rests {s} j r (settles w ws t took made) v found e = record {
  row =
      update_refused (apply (verdict w t) t w.copy).0 processing s.rows j r v.keyed found
        (processing-ended r.status e);
  messages = omega (arith, unsent-Takes j took);
  sent = omega arith;
}
Step-Rests {s} j r (dies w ws took) v found e = record {
  row = found;
  messages = omega (arith, unsent-Takes j took);
  sent = omega arith;
}

Steps-Rests :
    {s u : State} (j : Text) (r : Notification)
    → Steps s u
    → Inv s
    → find_row j s.rows ≡ some r
    → is_terminal r.status ≡ true
    → Rests j r s u
Steps-Rests j r done v found e = record { row = found; messages = omega arith; sent = omega arith }
Steps-Rests j r (then_step path step) v found e =
    let before = Steps-Rests j r path v found e in
    let after = Step-Rests j r step (Steps-Inv path v) before.row e in
    record {
      row = after.row;
      messages = omega (arith, before.messages, after.messages);
      sent = omega (arith, before.sent, after.sent);
    }

ended_held :
    (s : State) (j : Text) (r : Notification)
    → Inv s
    → find_row j s.rows ≡ some r
    → is_terminal r.status ≡ true
    → (r.status ≡ failed) ⊎ (unsent j s.workers ≡ 0)
ended_held s j r v found e = free s.workers v.carried
  where
    free : (ws : List Worker) → All (Holds s.rows) ws → (r.status ≡ failed) ⊎ (unsent j ws ≡ 0)
    free [] h = inr refl
    free (w ∷ ws) h = elim (Bool-cases (text_eq w.copy.id j)) [
      | inl same ↦ inl (
          Carries-ended r w.copy e (
            subst (λ o. Carries o w.copy)
              (ap (λ i. find_row i s.rows) (text_eq→eq w.copy.id j same) ∙ found) h.0.0))
      | inr other ↦ elim (free ws h.1) [ inl over ↦ inl over | inr none_left ↦ inr (ground arith) ]
    ]

-- From any state that the service can reach, a row in a terminal status is never changed again,
-- whatever the workers and writers that are under way do with their older copies of it. At most one
-- more message is sent for it; and none is, unless it failed (which the reconciler may decide under a
-- worker): in particular none after it was cancelled or delivered.
pub ended_for_good :
    {s u : State} (j : Text) (r : Notification)
    → Steps empty s
    → find_row j s.rows ≡ some r
    → is_terminal r.status ≡ true
    → Steps s u
    → (find_row j u.rows ≡ some r)
      × (count j u.sent ≤ count j s.sent + 1)
      × ((r.status ≡ failed) ⊎ (count j u.sent ≡ count j s.sent))
ended_for_good {s} j r path found e later =
    let v = reachable-Inv path in
    let rest = Steps-Rests j r later v found e in
    (
      rest.row,
      omega (arith, rest.messages, unsent-le-held j s.workers, v.alone j),
      elim (ended_held s j r v found e) [
        | inl over ↦ inl over
        | inr quiet ↦ inr (omega (arith, rest.messages, rest.sent))
      ],
    )
