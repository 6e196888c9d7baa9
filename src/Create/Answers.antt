-- ===== src/Create/Answers.antt =====
-- internal/application/create_notification.go: the promise of one call, all or nothing, and the calls
-- on the way to it that change nothing.
use event_driven_notificatio.Base.{
  ℕ, ◌+◌, ◌≡◌, refl, Bool, true, false, not, [], ◌∷◌, ◌++◌, Option, none, some, Text, is_empty,
  if◌then◌else◌,
}
use event_driven_notificatio.Domain.Errors.{Error, Result, ok, err}
use event_driven_notificatio.Domain.Channel.{Priority}
use event_driven_notificatio.Domain.Status.{queued}
use event_driven_notificatio.Domain.Notification.{Notification}
use event_driven_notificatio.Domain.Log
use event_driven_notificatio.Domain.Log.{
  trail, trail_two, LogEvent, NotificationLog, entry_of, is_valid_event, new_notification_log,
}
use event_driven_notificatio.Queue.{
  QueueCall, enqueues, new_process_notification_task, scheduled_task,
}
use event_driven_notificatio.Store.{find_row}
use event_driven_notificatio.Ports.{
  Env, World, Outcome, returns, raises, M, ◌>>=◌, return, lift, now, new_id, render_template,
}
use event_driven_notificatio.Ports.Calm.{calm}
use event_driven_notificatio.Create.{correlation_for, content_for}

-- The task that the new notification asks the queue for.
abbrev pub task_at : Option ℕ → Text → Priority → Text → QueueCall
task_at none id priority key = enqueues (new_process_notification_task id priority key)
task_at (some at) id priority key = enqueues (scheduled_task id priority at)

-- The state after a creation of `m`.
pub record IsCreated (w w' : World) (m : Notification) : Type 0 where
  pub status : m.status ≡ queued
  pub fresh : find_row m.id w.rows ≡ none
  pub rows : w'.rows ≡ w.rows ++ m ∷ []
  pub calls : w'.calls ≡ w.calls ++ task_at m.scheduled_at m.id m.priority m.idempotency_key ∷ []
  pub trailed : trail w'.logs ≡ trail w.logs ++ ((m.id, Log.created) ∷ (m.id, Log.queued) ∷ [])
  pub published : w'.published ≡ w.published
  pub sent : w'.sent ≡ w.sent

-- Nothing but the number of calls has changed.
abbrev pub IsUntouched : World → World → Type 0
IsUntouched w w' = w' ≡ record w { tick = w'.tick }

abbrev pub IsAnswer : World → Outcome Notification → Type 0
IsAnswer w (returns m w') = IsCreated w w' m
IsAnswer w (raises x w') = IsUntouched w w'

-- An action that changes nothing where no adapter fails.
pub data Reads {ℓ} {A : Type ℓ} (w : World) : Outcome A → Type ℓ where
  reads : (a : A) (k : ℕ) → Reads w (returns a (record w { tick = k }))
  refuses : (x : Error) (k : ℕ) → Reads w (raises x (record w { tick = k }))

pub record Reader {ℓ} {A : Type ℓ} (e : Env) (w : World) (m : M A) : Type ℓ where
  pub run : (k : ℕ) → Reads w (m (calm e) (record w { tick = k }))

-- An action that is all or nothing.
pub record Answers (e : Env) (w : World) (m : M Notification) : Type 0 where
  pub run : (k : ℕ) → IsAnswer w (m (calm e) (record w { tick = k }))

pub Answers-bind {ℓ} :
    {A : Type ℓ} {e : Env} {w : World} (m : M A) (f : A → M Notification)
    → Reader e w m
    → ((a : A) → Answers e w (f a))
    → Answers e w (m >>= f)
Answers-bind {A = A} {e = e} {w = w} m f p q = record {
  run = λ k. go (m (calm e) (record w { tick = k })) (p.run k);
}
  where
    go :
        (o : Outcome A)
        → Reads w o
        → IsAnswer w (elim o [ returns a w' ↦ f a (calm e) w' | raises x w' ↦ raises x w' ])
    go _ (reads a k) = (q a).run k
    go _ (refuses x k) = refl

lift-Reads {ℓ} :
    {A : Type ℓ} (r : Result A) (e : Env) (w : World) (k : ℕ)
    → Reads w (lift r e (record w { tick = k }))
lift-Reads (ok a) e w k = reads a k
lift-Reads (err x) e w k = refuses x k

pub lift-Reader {ℓ} : {A : Type ℓ} (r : Result A) (e : Env) (w : World) → Reader e w (lift r)
lift-Reader r e w = record { run = lift-Reads r (calm e) w }

pub now-Reader : (e : Env) (w : World) → Reader e w now
now-Reader e w = record { run = λ k. reads (e.time k) (k + 1) }

pub new_id-Reader : (e : Env) (w : World) → Reader e w new_id
new_id-Reader e w = record { run = λ k. reads (e.fresh k) (k + 1) }

pub correlation_for-Reader : (t : Text) (e : Env) (w : World) → Reader e w (correlation_for t)
unfolding correlation_for
correlation_for-Reader t e w = record { run = λ k. go k (is_empty t) }
  where
    go :
        (k : ℕ) (b : Bool)
        → Reads w ((if b then new_id else return t) (calm e) (record w { tick = k }))
    go k true = reads (e.fresh k) (k + 1)
    go k false = reads t k

pub content_for-Reader :
    (o : Option Text) (t : Text) (e : Env) (w : World) → Reader e w (content_for o t)
unfolding content_for render_template
content_for-Reader none t e w = record { run = λ k. reads t k }
content_for-Reader (some id) t e w = record { run = λ k. go k (is_empty id) }
  where
    go :
        (k : ℕ) (b : Bool)
        → Reads w
            ((if not b then render_template id else return t) (calm e) (record w { tick = k }))
    go k true = reads t k
    go k false = lift-Reads (e.rendered (k + 1) id) (calm e) w (k + 1)
