-- ===== src/Create/Created.antt =====
-- internal/application/create_notification.go: what one call leaves behind where no adapter fails.
use mathlib.Core.Option
use event_driven_notificatio.Base.{
  ℕ, ◌+◌, ◌≤◌, ◌≡◌, refl, sym, ap, subst, Bool-cases, inl, inr, ◌∙◌, true, false, [], ◌∷◌, ◌++◌,
  Option, none, some, Text, text_eq→eq, text_eq_refl, is_empty, length, arith,
}
use event_driven_notificatio.Domain.Errors.{Error, Result, ok, err, adapter_failure}
use event_driven_notificatio.Domain.Channel.{new_channel, new_priority}
use event_driven_notificatio.Domain.Status.{pending, queued, status_eq, can_transition_to}
use event_driven_notificatio.Domain.Notification.{
  Notification, NewNotificationInput, new_notification, mark_queued,
}
use event_driven_notificatio.Domain.Notification.Creation.{new_notification_iff}
use event_driven_notificatio.Domain.Log
use event_driven_notificatio.Domain.Log.{
  trail, trail_two, LogEvent, NotificationLog, entry_of, is_valid_event, new_notification_log,
}
use event_driven_notificatio.Store.{Table, find_row, insert_row, conflicts, update_row, written}
use event_driven_notificatio.Store.Claims.{conflicts→none}
use event_driven_notificatio.Ports.{
  Env, World, returns, raises, ticked, M, ◌>>=◌, ◌>>◌, return, lift, attempt, now, new_id,
  entry_input, stored, append_log, append_event, repo_create, repo_update, enqueue,
  enqueue_scheduled, emit, notification_created,
}
use event_driven_notificatio.Ports.Calm.{
  calm, step, step_raises, IsLoggable, new_notification_log_ok,
}
use event_driven_notificatio.Create.{
  CreateNotificationInput, correlation_for, content_for, entity_input, enqueue_at, store_created,
  create_notification,
}
use event_driven_notificatio.Create.Answers.{
  task_at, IsCreated, IsAnswer, Answers, Answers-bind, lift-Reader, now-Reader, new_id-Reader,
  correlation_for-Reader, content_for-Reader,
}

update_row-append :
    (m n : Notification) (rows : Table)
    → m.id ≡ n.id
    → n.status ≡ pending
    → find_row n.id rows ≡ none
    → update_row m pending (rows ++ n ∷ []) ≡ (rows ++ written m n ∷ [], 1)
unfolding update_row find_row status_eq
update_row-append m n [] i s h = ground (arith, text_eq_refl n.id)
update_row-append m n (r ∷ rows) i s h =
    ground (arith, text_eq→eq r.id m.id, text_eq_refl n.id, update_row-append m n rows i s)

append_event-calm :
    (n : Notification) (event : LogEvent) (t : ℕ) (e : Env) (w : World)
    → IsLoggable e n.id n.correlation_id
    → is_valid_event event ≡ true
    → append_event n event t (calm e) w
      ≡ returns tt (record w {
        logs = w.logs ++ entry_of (entry_input (e.fresh w.tick) n event) t ∷ [];
        tick = w.tick + 1 + 1;
      })
unfolding append_event append_log
append_event-calm n event t e w v h = rw (new_notification_log_ok e n event w.tick t v h) refl

enqueue_at-calm :
    (o : Option ℕ) (n : Notification) (e : Env) (w : World)
    → enqueue_at o n (calm e) w
      ≡ returns tt (record w {
        calls = w.calls ++ task_at o n.id n.priority n.idempotency_key ∷ [];
        tick = w.tick + 1;
      })
unfolding enqueue_at enqueue enqueue_scheduled
enqueue_at-calm none n e w = refl
enqueue_at-calm (some at) n e w = refl

abbrev as_queued : ℕ → Notification → Notification
as_queued t n = record n { status = queued; updated_at = t }

queued_ok :
    (t : ℕ) (n : Notification) → n.status ≡ pending → mark_queued t n ≡ (as_queued t n, none)
unfolding mark_queued can_transition_to
queued_ok t n h = rw h refl

queued_row :
    (t : ℕ) (n : Notification) (rows : Table) (e : Env) (v : World)
    → v.rows ≡ rows ++ n ∷ []
    → find_row n.id rows ≡ none
    → n.status ≡ pending
    → repo_update (as_queued t n) pending (calm e) v
      ≡ returns tt (record v { rows = rows ++ as_queued t n ∷ []; tick = v.tick + 1 })
unfolding repo_update
queued_row t n rows e v same absent h =
    ap (λ (q : Table × ℕ). stored q.1 (record v { rows = q.0; tick = v.tick + 1 }))
      (ap (update_row (as_queued t n) pending) same
        ∙ update_row-append (as_queued t n) n rows refl h absent)

-- What Execute does once the row is in the table.
abbrev announced : ℕ → Notification → M Notification
announced t m = do
  append_event m Log.queued t
  emit (notification_created m.channel m.priority)
  return m

abbrev requeued : ℕ → Notification → M Notification
requeued t m = do repo_update m pending; announced t m

abbrev marked : Notification → ℕ → M Notification
marked n t = attempt (mark_queued t n) >>= requeued t

abbrev enqueued : Notification → ℕ → M Notification
enqueued n t = do enqueue_at n.scheduled_at n; marked n t

abbrev kept : Notification → ℕ → M Notification
kept n t = do append_event n Log.created t; enqueued n t

abbrev kept_once : Notification → ℕ → Env → World → World
kept_once n t e v = record v {
  logs = v.logs ++ entry_of (entry_input (e.fresh v.tick) n Log.created) t ∷ [];
  tick = v.tick + 1 + 1;
}

abbrev kept_twice : Notification → ℕ → Env → World → World
kept_twice n t e v = record (kept_once n t e v) {
  calls = v.calls ++ task_at n.scheduled_at n.id n.priority n.idempotency_key ∷ [];
  tick = v.tick + 1 + 1 + 1;
}

abbrev kept_thrice : Notification → ℕ → Env → Table → World → World
kept_thrice n t e rows v = record (kept_twice n t e v) {
  rows = rows ++ as_queued t n ∷ [];
  tick = v.tick + 1 + 1 + 1 + 1;
}

abbrev kept_last : Notification → ℕ → Env → Table → World → World
kept_last n t e rows v =
    let u = kept_thrice n t e rows v in
    record u {
      logs = u.logs ++ entry_of (entry_input (e.fresh u.tick) (as_queued t n) Log.queued) t ∷ [];
      metrics = Option.map (λ ms. ms ++ notification_created n.channel n.priority ∷ []) u.metrics;
      tick = u.tick + 1 + 1;
    }

kept-calm :
    (n : Notification) (t : ℕ) (e : Env) (rows : Table) (v : World)
    → v.rows ≡ rows ++ n ∷ []
    → find_row n.id rows ≡ none
    → n.status ≡ pending
    → IsLoggable e n.id n.correlation_id
    → kept n t (calm e) v ≡ returns (as_queued t n) (kept_last n t e rows v)
unfolding emit
kept-calm n t e rows v same absent h l =
    let m = as_queued t n in
    step (append_event n Log.created t) (λ _. enqueued n t) (calm e) v
      (append_event-calm n Log.created t e v l refl)
    ∙ step (enqueue_at n.scheduled_at n) (λ _. marked n t) (calm e) (kept_once n t e v)
        (enqueue_at-calm n.scheduled_at n e (kept_once n t e v))
    ∙ ap
        (λ (q : Notification × Option Error).
          (attempt q >>= requeued t) (calm e) (kept_twice n t e v))
        (queued_ok t n h)
    ∙ step (repo_update m pending) (λ _. announced t m) (calm e) (kept_twice n t e v)
        (queued_row t n rows e (kept_twice n t e v) same absent h)
    ∙ step (append_event m Log.queued t)
        (λ _. emit (notification_created m.channel m.priority) >> return m) (calm e)
        (kept_thrice n t e rows v)
        (append_event-calm m Log.queued t e (kept_thrice n t e rows v) l refl)

created_clash :
    (n : Notification) (e : Env) (v : World)
    → conflicts n v.rows ≡ true
    → repo_create n (calm e) v ≡ raises adapter_failure (ticked v)
unfolding repo_create insert_row
created_clash n e v h = rw h refl

created_row :
    (n : Notification) (e : Env) (v : World)
    → conflicts n v.rows ≡ false
    → repo_create n (calm e) v
      ≡ returns tt (record v { rows = v.rows ++ n ∷ []; tick = v.tick + 1 })
unfolding repo_create insert_row
created_row n e v h = rw h refl

kept_last-IsCreated :
    (n : Notification) (t : ℕ) (e : Env) (w : World) (k : ℕ)
    → find_row n.id w.rows ≡ none
    → IsCreated w
        (kept_last n t e w.rows (record w { rows = w.rows ++ n ∷ []; tick = k }))
        (as_queued t n)
kept_last-IsCreated n t e w k absent = record {
  status = refl;
  fresh = absent;
  rows = refl;
  calls = refl;
  trailed = trail_two w.logs _ _;
  published = refl;
  sent = refl;
}

store_created-Answers :
    (n : Notification) (t : ℕ) (e : Env) (w : World)
    → n.status ≡ pending
    → IsLoggable e n.id n.correlation_id
    → Answers e w (store_created n t)
unfolding store_created
store_created-Answers n t e w h l = record {
  run = λ k. elim (Bool-cases (conflicts n w.rows)) [
    | inl c ↦
        subst (IsAnswer w)
          (sym (
            step_raises (repo_create n) (λ _. kept n t) (calm e) (record w { tick = k })
              (created_clash n e (record w { tick = k }) c)))
          refl
    | inr c ↦
        let v = record w { rows = w.rows ++ n ∷ []; tick = k + 1 } in
        let absent = conflicts→none n w.rows c in
        subst (IsAnswer w)
          (sym (
            step (repo_create n) (λ _. kept n t) (calm e) (record w { tick = k })
              (created_row n e (record w { tick = k }) c)
            ∙ kept-calm n t e w.rows v refl absent h l))
          (kept_last-IsCreated n t e w (k + 1) absent)
  ];
}

given_text : (t : Text) → 1 ≤ length t → is_empty t ≡ false
given_text [] h = absurd (omega arith)
given_text (c ∷ t) h = refl

-- A constructed entity has ids to log.
constructed :
    (input : NewNotificationInput) (t : ℕ) (n : Notification) (e : Env)
    → ((k : ℕ) → is_empty (e.fresh k) ≡ false)
    → new_notification input t ≡ ok n
    → (n.status ≡ pending) × IsLoggable e n.id n.correlation_id
constructed input t n e f h =
    let (v, same) = (new_notification_iff input t n).0 h in
    rw same (
      refl,
      record {
        fresh = f;
        id_given = given_text input.id v.id_given;
        correlation_given = given_text input.correlation_id v.correlation_given;
      },
    )

store_new-Answers :
    (r : Result Notification) (t : ℕ) (e : Env) (w : World)
    → ((n : Notification) → r ≡ ok n → (n.status ≡ pending) × IsLoggable e n.id n.correlation_id)
    → Answers e w (lift r >>= λ n. store_created n t)
store_new-Answers (ok n) t e w g = let (h, l) = g n refl in store_created-Answers n t e w h l
store_new-Answers (err x) t e w g = record { run = λ k. refl }

create_notification-Answers :
    (input : CreateNotificationInput) (e : Env) (w : World)
    → ((k : ℕ) → is_empty (e.fresh k) ≡ false)
    → Answers e w (create_notification input)
unfolding create_notification
create_notification-Answers input e w f =
    Answers-bind (lift (new_channel input.channel)) _ (lift-Reader _ e w) λ c.
      Answers-bind (lift (new_priority input.priority)) _ (lift-Reader _ e w) λ p.
        Answers-bind (correlation_for input.correlation_id) _
          (correlation_for-Reader input.correlation_id e w)
          λ cid. Answers-bind now _ (now-Reader e w) λ t.
            Answers-bind (content_for input.template_id input.content) _
              (content_for-Reader input.template_id input.content e w)
              λ content. Answers-bind new_id _ (new_id-Reader e w) λ id.
                store_new-Answers (new_notification (entity_input input c p cid content id) t) t e w
                  (λ n h. constructed (entity_input input c p cid content id) t n e f h)

pub create_notification-IsAnswer :
    (input : CreateNotificationInput) (e : Env) (w : World)
    → ((k : ℕ) → is_empty (e.fresh k) ≡ false)
    → IsAnswer w (create_notification input (calm e) w)
create_notification-IsAnswer input e w f = (create_notification-Answers input e w f).run w.tick
