-- ===== src/Process/Tasks.antt =====
-- internal/application/process_notification.go: how a task on a row that is queued or retrying runs
-- where no adapter fails, up to the verdict of the limiter and of the provider.
use mathlib.Core.List.{append_assoc}
use event_driven_notificatio.Base.{
  ℕ, ◌+◌, ◌≤◌, ◌<◌, ◌≡◌, refl, sym, ap, ◌∙◌, ◌⊎◌, Bool, true, false, ◌||◌, not, List, [], ◌∷◌, ◌++◌,
  Option, some, Text, text_eq, codes, if◌then◌else◌, leb, arith,
}
use event_driven_notificatio.Domain.Channel.{Channel, channel_text}
use event_driven_notificatio.Domain.Status.{Status, processing, status_eq}
use event_driven_notificatio.Domain.Notification.{Notification}
use event_driven_notificatio.Domain.Notification.Marks.{SameIdentity}
use event_driven_notificatio.Domain.Log
use event_driven_notificatio.Domain.Log.{LogEvent, NotificationLog, entry_of}
use event_driven_notificatio.Domain.Delivery.{DeliveryResult}
use event_driven_notificatio.Store.{
  Table, find_row, claimable, claimed, claim_row, written, update_row,
}
use event_driven_notificatio.Store.Claims.{
  IsKeyed, OthersStay, others_stay, after_claim, after_update, claim_row-IsKeyed,
  find_row-claim_row_self, find_row-claim_row_other, find_row-update_row_self,
  find_row-update_row_other,
}
use event_driven_notificatio.Ports.{
  Env, World, Outcome, returns, raises, ticked, M, ◌>>=◌, allow, send, emit, notification_attempt,
  observe_processing,
}
use event_driven_notificatio.Ports.Calm.{calm, step, IsLoggable, repo_claim-calm}
use event_driven_notificatio.Process.{
  record_event, settle, apply_result, deliver, handle, claim_failed, execute, attempt_outcome,
  mark_delivered, mark_failed, mark_retrying, reschedule_for_rate_limit,
}
use event_driven_notificatio.Process.Settle.{recorded, record_event-calm, emitted, IsHeld}
use event_driven_notificatio.Retry.{max_attempts}
use event_driven_notificatio.Domain.Log.{trail, trail_two}

-- The state `w'` in which a task leaves the row `r` of the state `w`.
pub record IsSettled (r : Notification) (w w' : World) (status : Status) (event : LogEvent)
    (reason : Text) (messages : List (Channel × Text × Text)) (next : Option ℕ) : Type 0 where
  pub row : Notification
  pub found : find_row r.id w'.rows ≡ some row
  pub status_is : row.status ≡ status
  pub attempts_is : row.attempts ≡ r.attempts + 1
  pub error_is : row.last_error ≡ reason
  pub next_is : row.next_retry_at ≡ next
  pub same : SameIdentity row r
  pub others : OthersStay r.id w.rows w'.rows
  pub sent : w'.sent ≡ w.sent ++ messages
  pub trailed : trail w'.logs ≡ trail w.logs ++ ((r.id, Log.processing) ∷ (r.id, event) ∷ [])
  pub published : w'.published ≡ w.published ++ ((r.id, processing) ∷ (r.id, status) ∷ [])

-- The table after a claim and an update by the same worker.
abbrev pub both : ℕ → Notification → Notification → Table → Table
both s r m rows = (update_row m processing (claim_row r.id s rows).0).0

pub claim_found :
    (r : Notification) (s : ℕ) (rows : Table)
    → IsKeyed rows
    → find_row r.id rows ≡ some r
    → claimable r.status ≡ true
    → find_row r.id (claim_row r.id s rows).0 ≡ some (claimed s r)
claim_found r s rows k h c = (find_row-claim_row_self r.id s rows k).0 ∙ ap (after_claim s) h ∙ rw c

pub both_found :
    (s : ℕ) (r m : Notification) (rows : Table)
    → IsKeyed rows
    → find_row r.id rows ≡ some r
    → claimable r.status ≡ true
    → m.id ≡ r.id
    → find_row r.id (both s r m rows) ≡ some (written m (claimed s r))
unfolding status_eq
both_found s r m rows k h c e =
    let after = claim_row-IsKeyed r.id s rows k in
    ap (λ i. find_row i (both s r m rows)) (sym e)
    ∙ (find_row-update_row_self m processing (claim_row r.id s rows).0 after).0
    ∙ ap (λ i. after_update m processing (find_row i (claim_row r.id s rows).0)) e
    ∙ ap (after_update m processing) (claim_found r s rows k h c)

pub both_others :
    (s : ℕ) (r m : Notification) (rows : Table) (j : Text)
    → m.id ≡ r.id
    → text_eq r.id j ≡ false
    → find_row j (both s r m rows) ≡ find_row j rows
both_others s r m rows j e h =
    find_row-update_row_other m processing j (claim_row r.id s rows).0 (rw e h)
    ∙ find_row-claim_row_other r.id j s rows h

pub settled :
    (r m : Notification) (w w' : World) (s : ℕ) (a b : NotificationLog) (event : LogEvent)
    (messages : List (Channel × Text × Text))
    → IsKeyed w.rows
    → find_row r.id w.rows ≡ some r
    → claimable r.status ≡ true
    → SameIdentity m r
    → m.attempts ≡ r.attempts + 1
    → w'.rows ≡ both s r m w.rows
    → w'.logs ≡ (w.logs ++ a ∷ []) ++ b ∷ []
    → (a.notification_id ≡ r.id)
      × (a.event ≡ Log.processing)
      × (b.notification_id ≡ r.id)
      × (b.event ≡ event)
    → w'.published ≡ (w.published ++ (r.id, processing) ∷ []) ++ (r.id, m.status) ∷ []
    → w'.sent ≡ w.sent ++ messages
    → IsSettled r w w' m.status event m.last_error messages m.next_retry_at
settled r m w w' s a b event messages k h c same att rows logs (ai, ae, bi, be) pub_eq sent =
    record {
      row = written m (claimed s r);
      found = rw rows (both_found s r m w.rows k h c same.id);
      status_is = refl;
      attempts_is = att;
      error_is = refl;
      next_is = refl;
      same = ground arith;
      others = rw rows (
          others_stay r.id w.rows (both s r m w.rows)
            (λ j d. both_others s r m w.rows j same.id d));
      sent = sent;
      trailed = rw (logs, trail_two w.logs a b, ai, ae, bi, be);
      published = rw (pub_eq, append_assoc);
    }

-- The row as the worker holds it, and the states that the task passes through.
abbrev pub taken : Env → Notification → World → Notification
taken e r w = claimed (e.time w.tick) r

abbrev pub after_take : Env → Notification → World → World
after_take e r w = record w {
  rows = (claim_row r.id (e.time w.tick) w.rows).0;
  tick = w.tick + 1 + 1 + 1;
}

abbrev pub asked : Env → Notification → World → World
asked e r w = ticked (recorded e (taken e r w) Log.processing (after_take e r w))

abbrev pub tried : Env → Notification → DeliveryResult → World → World
tried e r result w = ticked (
    emitted (notification_attempt r.channel (attempt_outcome result))
      (record (ticked (asked e r w)) { sent = w.sent ++ (r.channel, r.recipient, r.content) ∷ [] }))

-- A row that is ready for a worker, in a table that is well formed.
pub record IsReady (e : Env) (w : World) (r : Notification) : Type 0 where
  pub keyed : IsKeyed w.rows
  pub found : find_row r.id w.rows ≡ some r
  pub free : claimable r.status ≡ true
  pub loggable : IsLoggable e r.id r.correlation_id

pub ready_taken :
    (e : Env) (r : Notification) (w : World)
    → IsReady e w r
    → execute r.id (calm e) w ≡ handle (taken e r w) (e.time w.tick) (calm e) (after_take e r w)
unfolding execute
ready_taken e r w v =
    ap
      (λ (o : Outcome Notification). elim o [
        | returns n w' ↦ handle n (e.time w.tick) (calm e) w'
        | raises x w' ↦ claim_failed x w'
      ])
      (repo_claim-calm r.id (e.time w.tick) e (ticked w) r v.keyed v.found v.free)

-- The task behind the log of its claim.
abbrev pub gate : Notification → ℕ → M (Unit {0})
gate n start = do
  allowed ← allow (codes "channel:" ++ channel_text n.channel)
  if allowed then deliver n start else reschedule_for_rate_limit n

pub ready_asked :
    (e : Env) (r : Notification) (w : World) (b : Bool)
    → IsReady e w r
    → e.allow (asked e r w).tick (codes "channel:" ++ channel_text r.channel) ≡ b
    → execute r.id (calm e) w
      ≡ (if b
            then deliver (taken e r w) (e.time w.tick)
            else reschedule_for_rate_limit (taken e r w))
          (calm e)
          (asked e r w)
unfolding handle allow
ready_asked e r w b v h =
    let n = taken e r w in
    ready_taken e r w v
    ∙ step (record_event n Log.processing) (λ _. gate n (e.time w.tick)) (calm e) (after_take e r w)
        (record_event-calm n Log.processing e (after_take e r w) v.loggable refl)
    ∙ ap
        (λ (c : Bool).
          (if c then deliver n (e.time w.tick) else reschedule_for_rate_limit n) (calm e)
            (asked e r w))
        h

pub ready-IsHeld :
    (e : Env) (r : Notification) (w w' : World)
    → IsReady e w r
    → w'.rows ≡ (after_take e r w).rows
    → IsHeld e w' (taken e r w)
ready-IsHeld e r w w' v h = record {
  keyed = rw h (claim_row-IsKeyed r.id (e.time w.tick) w.rows v.keyed);
  found = rw h (claim_found r (e.time w.tick) w.rows v.keyed v.found v.free);
  held = refl;
  loggable = v.loggable;
}

-- The time at which the provider has answered.
abbrev pub ended : Env → Notification → World → ℕ
ended e r w = e.time ((asked e r w).tick + 1)

-- The last call of the recorder.
abbrev pub observed : Env → Notification → World → World → World
observed e r w w' = emitted (observe_processing r.channel (e.time w.tick) (ended e r w)) w'

abbrev pub closed : Env → Notification → World → Outcome (Unit {0}) → Outcome (Unit {0})
closed e r w (returns a w') = returns a (observed e r w w')
closed e r w (raises x w') = raises x (observed e r w w')

-- The provider was asked: what is left of the task.
pub ready_sent :
    (e : Env) (r : Notification) (w : World) (result : DeliveryResult)
    → IsReady e w r
    → ((k : ℕ) → e.allow k (codes "channel:" ++ channel_text r.channel) ≡ true)
    → ((k : ℕ) → e.send k r.channel r.recipient r.content ≡ result)
    → execute r.id (calm e) w
      ≡ closed e r w (settle (taken e r w) result (ended e r w) (calm e) (tried e r result w))
unfolding deliver send emit apply_result
ready_sent e r w result v a h =
    ready_asked e r w true v (a _)
    ∙ ap
        (λ (x : DeliveryResult).
          closed e r w (settle (taken e r w) x (ended e r w) (calm e) (tried e r x w)))
        (h _)

pub settle_accepted :
    (n : Notification) (result : DeliveryResult) (t : ℕ)
    → result.success ≡ true
    → settle n result t ≡ mark_delivered n t
unfolding settle
settle_accepted n result t s = rw s

pub settle_gives_up :
    (n : Notification) (result : DeliveryResult) (t : ℕ)
    → result.success ≡ false
    → (not result.retryable || leb max_attempts n.attempts) ≡ true
    → settle n result t ≡ mark_failed n result t
unfolding settle
settle_gives_up n result t s h = rw (s, h)

pub settle_again :
    (n : Notification) (result : DeliveryResult) (t : ℕ)
    → result.success ≡ false
    → (not result.retryable || leb max_attempts n.attempts) ≡ false
    → settle n result t ≡ mark_retrying n result t
unfolding settle
settle_again n result t s h = rw (s, h)

-- The test of applyResult that ends the retries.
pub exhausted :
    (b : Bool) (k : ℕ) → (b ≡ false) ⊎ (max_attempts ≤ k) → (not b || leb max_attempts k) ≡ true
exhausted b k h = ground arith

pub remaining :
    (b : Bool) (k : ℕ) → b ≡ true → k < max_attempts → (not b || leb max_attempts k) ≡ false
remaining b k h l = ground arith

pub same_taken :
    (r : Notification) (s : Status) (t a : ℕ) (x : Text) (next : Option ℕ)
    → SameIdentity
        (record r {
          status = s;
          updated_at = t;
          attempts = a;
          last_error = x;
          next_retry_at = next;
        })
        r
same_taken r s t a x next = record {
  id = refl;
  batch_id = refl;
  idempotency_key = refl;
  correlation_id = refl;
  channel = refl;
  priority = refl;
  recipient = refl;
  content = refl;
  scheduled_at = refl;
  template_id = refl;
  created_at = refl;
}
