-- ===== src/Process/Moves.antt =====
-- internal/application/process_notification.go: what one task may do to the table, statement by
-- statement, whatever fails.
use event_driven_notificatio.Base.{
  ℕ, ◌+◌, ◌≡◌, refl, sym, ap, ◌∙◌, ◌⊎◌, inl, inr, true, ◌++◌, Option, none, some, Text, codes, leb,
  not, ◌||◌, Bool-cases,
}
use event_driven_notificatio.Domain.Errors.{
  Error, already_claimed, provider_transient, outbound_rate_limited, adapter_failure,
}
use event_driven_notificatio.Domain.Channel.{channel_text}
use event_driven_notificatio.Domain.Status.{Status, processing, queued, retrying, status_eq}
use event_driven_notificatio.Domain.Status.Machine.{◌⟶◌, pick, pick_again}
use event_driven_notificatio.Domain.Notification.{Notification, Mark, apply}
use event_driven_notificatio.Domain.Notification.Marks.{SameIdentity}
use event_driven_notificatio.Domain.Log
use event_driven_notificatio.Domain.Log.{LogEvent, new_notification_log}
use event_driven_notificatio.Domain.Delivery.{DeliveryResult}
use event_driven_notificatio.Store.{
  Table, find_row, claimable, claimed, claim_row, written, update_row,
}
use event_driven_notificatio.Store.Claims.{
  IsKeyed, OthersStay, others_stay, after_claim, after_update, claim_result, claim_row-IsKeyed,
  update_row-IsKeyed, find_row-claim_row_self, find_row-claim_row_other, find_row-update_row_self,
  find_row-update_row_other, find_row_id,
}
use event_driven_notificatio.Ports.{
  Env, World, Fault, fine, lost, unconfirmed, Outcome, returns, raises, final, M, ◌>>◌, fail, lift,
  entry_input, ticked, got, won, repo_get, repo_take, repo_claim, append_log, emit,
  notification_delivered, notification_failed, notification_attempt, observe_processing,
  outbound_rate_limit_hit, now, new_id, allow, send,
}
use event_driven_notificatio.Ports.Rows.{claimed-same, written-same, SameIdentity-trans}
use event_driven_notificatio.Ports.Once.{
  Quiet, Quiet-bind, Quiet-fail, Quiet-now, Quiet-new_id, Quiet-lift, Quiet-append_log,
  Quiet-publish, Quiet-allow, Quiet-send, Quiet-emit, Wrote, wrote_around, Once, Once-after,
  Once-if, Once-marked,
}
use event_driven_notificatio.Process.{
  record_event, mark_delivered, mark_failed, mark_retrying, reschedule_for_rate_limit, finally,
  settle, apply_result, handle, claim_failed, execute, failure_label, attempt_outcome,
}
use event_driven_notificatio.Process
use event_driven_notificatio.Retry.{backoff_for, rate_limit_backoff, max_attempts}

Quiet-record_event : (n : Notification) (event : LogEvent) → Quiet (record_event n event)
unfolding record_event
Quiet-record_event n event = Quiet-bind new_id _ Quiet-new_id λ id. Quiet-bind now _ Quiet-now λ t.
    Quiet-bind (lift (new_notification_log (entry_input id n event) t)) _ (Quiet-lift _) λ entry.
      Quiet-bind (append_log entry) _ (Quiet-append_log entry) λ _. Quiet-publish n.id n.status

-- A task that ends with an error behind its log row.
Quiet-logged :
    (n : Notification) (event : LogEvent) (x : Error)
    → Quiet (record_event n event >> fail {A = Unit {0}} x)
Quiet-logged n event x =
    Quiet-bind (record_event n event) _ (Quiet-record_event n event) λ _. Quiet-fail (Unit {0}) x

module _ (n : Notification) (held : n.status ≡ processing) where
  Once-mark_delivered : (t : ℕ) → Once n (mark_delivered n t)
  unfolding mark_delivered apply
  Once-mark_delivered t =
      Once-marked Mark.deliver t n
        (λ m. emit (notification_delivered m.channel) >> record_event m Log.delivered) held refl
        λ m.
          Quiet-bind (emit (notification_delivered m.channel)) _ (Quiet-emit _)
            λ _. Quiet-record_event m Log.delivered

  Once-mark_failed : (result : DeliveryResult) (t : ℕ) → Once n (mark_failed n result t)
  unfolding mark_failed apply
  Once-mark_failed result t =
      Once-marked (Mark.fail result.reason) t n
        (λ m.
          emit (notification_failed m.channel (failure_label result.reason))
          >> record_event m Log.failed)
        held refl
        λ m.
          Quiet-bind (emit (notification_failed m.channel (failure_label result.reason))) _
            (Quiet-emit _) λ _. Quiet-record_event m Log.failed

  Once-mark_retrying : (result : DeliveryResult) (t : ℕ) → Once n (mark_retrying n result t)
  unfolding mark_retrying apply
  Once-mark_retrying result t =
      Once-marked (Mark.retry result.reason (t + backoff_for n.attempts)) t n
        (λ m. record_event m Log.retrying >> fail provider_transient) held refl
        λ m. Quiet-logged m Log.retrying provider_transient

  Once-reschedule_for_rate_limit : Once n (reschedule_for_rate_limit n)
  unfolding reschedule_for_rate_limit apply
  Once-reschedule_for_rate_limit = Once-after n now _ Quiet-now λ t.
      Once-marked (Mark.retry (codes "outbound rate limit exceeded") (t + rate_limit_backoff)) t n
        (λ m.
          emit (outbound_rate_limit_hit m.channel)
          >> (record_event m Log.retrying >> fail outbound_rate_limited))
        held refl
        λ m.
          Quiet-bind (emit (outbound_rate_limit_hit m.channel)) _ (Quiet-emit _)
            λ _. Quiet-logged m Log.retrying outbound_rate_limited

  Once-finally : (m k : M (Unit {0})) → Once n m → Quiet k → Once n (finally m k)
  Once-finally m k p q = record { run = λ e w. go e w (m e w) (p.run e w) }
    where
      go :
          (e : Env) (w : World) (o : Outcome (Unit {0}))
          → Wrote n w.rows (final o).rows
          → Wrote n w.rows
              (final (elim o [
                | returns a w' ↦ returns a (final (k e w'))
                | raises x w' ↦ raises x (final (k e w'))
              ])).rows
      go e w (returns a w') h = wrote_around n w.rows w.rows w'.rows _ refl h (q.run e w')
      go e w (raises x w') h = wrote_around n w.rows w.rows w'.rows _ refl h (q.run e w')

  Once-settle : (result : DeliveryResult) (t : ℕ) → Once n (settle n result t)
  unfolding settle
  Once-settle result t = Once-if n result.success _ _ (Once-mark_delivered t) (
      Once-if n (not result.retryable || leb max_attempts n.attempts) _ _
        (Once-mark_failed result t) (Once-mark_retrying result t))

  Once-deliver : (start : ℕ) → Once n (Process.deliver n start)
  unfolding Process.deliver apply_result
  Once-deliver start =
      Once-after n (send n.channel n.recipient n.content) _ (Quiet-send _ _ _) λ result.
        Once-after n (emit (notification_attempt n.channel (attempt_outcome result))) _
          (Quiet-emit _)
          λ _. Once-after n now _ Quiet-now λ t.
            Once-finally (settle n result t) (emit (observe_processing n.channel start t))
              (Once-settle result t) (Quiet-emit _)

  Once-handle : (start : ℕ) → Once n (handle n start)
  unfolding handle
  Once-handle start =
      Once-after n (record_event n Log.processing) _ (Quiet-record_event n Log.processing) λ _.
        Once-after n (allow (codes "channel:" ++ channel_text n.channel)) _ (Quiet-allow _)
          λ allowed. Once-if n allowed _ _ (Once-deliver start) Once-reschedule_for_rate_limit

-- What a task does to the row of its id: nothing; or the claim, which is one arrow to processing and one
-- more attempt, and behind it at most one arrow from processing.
abbrev pub RowTask : Option Notification → Option Notification → Type 0
RowTask none none = Unit
RowTask none (some s) = ⊥
RowTask (some r) none = ⊥
RowTask (some r) (some s) =
    (s ≡ r)
    ⊎ ((r.status ⟶ processing)
        × ((s.status ≡ processing) ⊎ (processing ⟶ s.status))
        × (s.attempts ≡ r.attempts + 1)
        × SameIdentity s r)

pub record TaskMoves (id : Text) (rows rows' : Table) : Type 0 where
  pub keyed : IsKeyed rows'
  pub own : RowTask (find_row id rows) (find_row id rows')
  pub others : OthersStay id rows rows'

-- The end of a claim: nothing is written, or the claim is written and its reply is lost, or the worker
-- gets the row.
data Claims (id : Text) (t : ℕ) (rows : Table) : Outcome Notification → Type 0 where
  idle : (x : Error) (w' : World) → w'.rows ≡ rows → Claims id t rows (raises x w')
  unheard :
      (x : Error) (w' : World) → w'.rows ≡ (claim_row id t rows).0 → Claims id t rows (raises x w')
  gets :
      (n : Notification) (w' : World)
      → (claim_row id t rows).1 ≡ some n
      → w'.rows ≡ (claim_row id t rows).0
      → Claims id t rows (returns n w')

take-Claims : (id : Text) (t : ℕ) (e : Env) (w : World) → Claims id t w.rows (repo_take id t e w)
unfolding repo_take
take-Claims id t e w = go (e.fault w.tick) (claim_row id t w.rows) refl
  where
    go :
        (x : Fault) (q : Table × Option Notification)
        → claim_row id t w.rows ≡ q
        → Claims id t w.rows (elim x [
          | fine ↦ won q.1 (record (ticked w) { rows = q.0 })
          | lost ↦ raises adapter_failure (ticked w)
          | unconfirmed ↦
              raises adapter_failure (final (won q.1 (record (ticked w) { rows = q.0 })))
        ])
    go fine (table, none) h = unheard _ _ (sym (ap (λ (p : Table × Option Notification). p.0) h))
    go fine (table, some n) h =
        gets n _ (ap (λ (p : Table × Option Notification). p.1) h)
          (sym (ap (λ (p : Table × Option Notification). p.0) h))
    go lost q h = idle _ _ refl
    go unconfirmed (table, none) h =
        unheard _ _ (sym (ap (λ (p : Table × Option Notification). p.0) h))
    go unconfirmed (table, some n) h =
        unheard _ _ (sym (ap (λ (p : Table × Option Notification). p.0) h))

claim-Claims : (id : Text) (t : ℕ) (e : Env) (w : World) → Claims id t w.rows (repo_claim id t e w)
unfolding repo_claim repo_get
claim-Claims id t e w = go (e.fault w.tick) (find_row id w.rows)
  where
    go :
        (x : Fault) (o : Option Notification)
        → let first : Outcome Notification = elim x [
          | fine ↦ got o (ticked w)
          | lost ↦ raises adapter_failure (ticked w)
          | unconfirmed ↦ raises adapter_failure (final (got o (ticked w)))
        ] in
          Claims id t w.rows
            (elim first [ returns a w' ↦ repo_take id t e w' | raises y w' ↦ raises y w' ])
    go fine none = idle _ _ refl
    go fine (some n) = take-Claims id t e (ticked w)
    go lost o = idle _ _ refl
    go unconfirmed none = idle _ _ refl
    go unconfirmed (some n) = idle _ _ refl

RowTask-refl : (o : Option Notification) → RowTask o o
RowTask-refl none = tt
RowTask-refl (some r) = inl refl

stays-TaskMoves : (id : Text) (rows : Table) → IsKeyed rows → TaskMoves id rows rows
stays-TaskMoves id rows k = record {
  keyed = k;
  own = RowTask-refl (find_row id rows);
  others = λ j. inr refl;
}

claimable-⟶ : (s : Status) → claimable s ≡ true → s ⟶ processing
unfolding claimable
claimable-⟶ queued h = pick
claimable-⟶ retrying h = pick_again
claimable-⟶ _ h = cc

claim-RowTask : (t : ℕ) (o : Option Notification) → RowTask o (after_claim t o)
claim-RowTask t none = tt
claim-RowTask t (some r) = elim (Bool-cases (claimable r.status)) [
  | inl c ↦ rw c (inr (claimable-⟶ r.status c, inl refl, refl, claimed-same t r))
  | inr c ↦ rw c (inl refl)
]

claim-TaskMoves :
    (id : Text) (t : ℕ) (rows : Table) → IsKeyed rows → TaskMoves id rows (claim_row id t rows).0
claim-TaskMoves id t rows k = record {
  keyed = claim_row-IsKeyed id t rows k;
  own = rw (find_row-claim_row_self id t rows k).0 (claim-RowTask t (find_row id rows));
  others =
      others_stay id rows (claim_row id t rows).0 λ j e. find_row-claim_row_other id j t rows e;
}

-- The row behind a claim that the worker got and its update.
claim_result-RowTask :
    (id : Text) (t : ℕ) (n m : Notification) (o : Option Notification)
    → claim_result t o ≡ some n
    → processing ⟶ m.status
    → m.attempts ≡ n.attempts
    → SameIdentity m n
    → RowTask o (after_update m processing (after_claim t o))
unfolding status_eq
claim_result-RowTask id t n m none h arrow a same = cc
claim_result-RowTask id t n m (some r) h arrow a same = elim (Bool-cases (claimable r.status)) [
  | inl c ↦
      let taken : claimed t r ≡ n = cc (rw c at h) in
      rw c (
        inr (
          claimable-⟶ r.status c,
          inr arrow,
          a ∙ ap (λ (x : Notification). x.attempts) (sym taken),
          SameIdentity-trans r (claimed t r) (written m (claimed t r)) (claimed-same t r)
              (written-same m (claimed t r)),
        ))
  | inr c ↦ absurd (cc (rw c at h))
]

claim_result_id :
    (id : Text) (t : ℕ) (n : Notification) (rows : Table)
    → claim_result t (find_row id rows) ≡ some n
    → n.id ≡ id
claim_result_id id t n rows h = go (find_row id rows) refl h
  where
    go : (o : Option Notification) → find_row id rows ≡ o → claim_result t o ≡ some n → n.id ≡ id
    go none e h' = cc
    go (some r) e h' = elim (Bool-cases (claimable r.status)) [
      | inl c ↦
          let taken : claimed t r ≡ n = cc (rw c at h') in
          ap (λ (x : Notification). x.id) (sym taken) ∙ find_row_id id rows r e
      | inr c ↦ absurd (cc (rw c at h'))
    ]

write-TaskMoves :
    (id : Text) (t : ℕ) (n m : Notification) (rows : Table)
    → IsKeyed rows
    → (claim_row id t rows).1 ≡ some n
    → processing ⟶ m.status
    → m.attempts ≡ n.attempts
    → SameIdentity m n
    → TaskMoves id rows (update_row m processing (claim_row id t rows).0).0
write-TaskMoves id t n m rows k h arrow a same =
    let taken = (claim_row id t rows).0 in
    let after = claim_row-IsKeyed id t rows k in
    let (found, result) = find_row-claim_row_self id t rows k in
    let got_n : claim_result t (find_row id rows) ≡ some n = sym result ∙ h in
    let own_id : m.id ≡ id = same.id ∙ claim_result_id id t n rows got_n in
    let now_found : find_row id (update_row m processing taken).0
        ≡ after_update m processing (after_claim t (find_row id rows)) =
      ap (λ i. find_row i (update_row m processing taken).0) (sym own_id)
      ∙ (find_row-update_row_self m processing taken after).0
      ∙ ap (λ i. after_update m processing (find_row i taken)) own_id
      ∙ ap (after_update m processing) found in
    record {
      keyed = update_row-IsKeyed m processing taken after;
      own = rw now_found (claim_result-RowTask id t n m (find_row id rows) got_n arrow a same);
      others = others_stay id rows (update_row m processing taken).0 λ j e.
          find_row-update_row_other m processing j taken (rw own_id e)
          ∙ find_row-claim_row_other id j t rows e;
    }

claimed_processing :
    (id : Text) (t : ℕ) (n : Notification) (o : Option Notification)
    → claim_result t o ≡ some n
    → n.status ≡ processing
claimed_processing id t n none h = cc
claimed_processing id t n (some r) h = elim (Bool-cases (claimable r.status)) [
  | inl c ↦
      let taken : claimed t r ≡ n = cc (rw c at h) in
      ap (λ (x : Notification). x.status) (sym taken)
  | inr c ↦ absurd (cc (rw c at h))
]

claim_failed_keeps : (x : Error) (w : World) → (final (claim_failed x w)).rows ≡ w.rows
claim_failed_keeps already_claimed w = refl
claim_failed_keeps _ w = refl

-- One task of the worker, from any table with distinct ids and with any sequence of failures of the
-- database, the log, the limiter and the broadcaster, either leaves the row of its id, or claims it,
-- which is one arrow of the diagram to processing and one more attempt, and moves it at most one arrow
-- on from processing; what identifies the row stays, every other row stays, and ids stay distinct.
pub execute_moves :
    (id : Text) (e : Env) (w : World)
    → IsKeyed w.rows
    → TaskMoves id w.rows (final (execute id e w)).rows
unfolding execute
execute_moves id e w k =
    go (repo_claim id (e.time w.tick) e (ticked w)) (claim-Claims id (e.time w.tick) e (ticked w))
  where
    wrote :
        (n : Notification) (rows rows' : Table)
        → (claim_row id (e.time w.tick) w.rows).1 ≡ some n
        → rows ≡ (claim_row id (e.time w.tick) w.rows).0
        → Wrote n rows rows'
        → TaskMoves id w.rows rows'
    wrote n rows rows' h p (inl same) = rw (same, p) (claim-TaskMoves id (e.time w.tick) w.rows k)
    wrote n rows rows' h p (inr (m, arrow, a, same, r)) =
        rw (r, p) (write-TaskMoves id (e.time w.tick) n m w.rows k h arrow a same)

    go :
        (o : Outcome Notification)
        → Claims id (e.time w.tick) w.rows o
        → TaskMoves id w.rows
            (final (elim o [
              | returns n w' ↦ handle n (e.time w.tick) e w'
              | raises x w' ↦ claim_failed x w'
            ])).rows
    go _ (idle x w' h) = rw (claim_failed_keeps x w', h) (stays-TaskMoves id w.rows k)
    go _ (unheard x w' h) =
        rw (claim_failed_keeps x w', h) (claim-TaskMoves id (e.time w.tick) w.rows k)
    go _ (gets n w' h p) =
        let held =
          claimed_processing id (e.time w.tick) n (find_row id w.rows)
            (sym (find_row-claim_row_self id (e.time w.tick) w.rows k).1 ∙ h) in
        wrote n w'.rows (final (handle n (e.time w.tick) e w')).rows h p
          ((Once-handle n held (e.time w.tick)).run e w')
