-- ===== src/Tests/UseCases.antt =====
-- The theorems on the creation, the cancellation and the reconciler, at concrete inputs.
use event_driven_notificatio.Base.{◌≡◌, refl, List, [], ◌∷◌, ◌++◌, Option, none, some, codes}
use event_driven_notificatio.Domain.Status.{cancelled, delivered}
use event_driven_notificatio.Domain.Notification.{Notification}
use event_driven_notificatio.Store.{find_row}
use event_driven_notificatio.Store.Claims.{IsKeyed}
use event_driven_notificatio.Ports.{World, Outcome, returns, final}
use event_driven_notificatio.Ports.Calm.{calm}
use event_driven_notificatio.Process.{execute}
use event_driven_notificatio.Process.Ended
use event_driven_notificatio.Create.{CreateNotificationInput, create_notification}
use event_driven_notificatio.Create.Answers.{IsAnswer}
use event_driven_notificatio.Create.Created
use event_driven_notificatio.Cancel.{cancel_notification}
use event_driven_notificatio.Cancel.Stops
use event_driven_notificatio.Batching.{CreateBatchInput, create_batch}
use event_driven_notificatio.Batching.Atomic
use event_driven_notificatio.Batching.Atomic.{IsAtomic}
use event_driven_notificatio.Runs
use event_driven_notificatio.Runs.{Lasts, run_all, creates_batch, reconciles, delivers}
use event_driven_notificatio.Tests.{sample, accepting, cut_off, world}

world-IsKeyed : IsKeyed world.rows
unfolding find_row event_driven_notificatio.Base.text_eq
world-IsKeyed = (refl, (refl, tt))

abbrev request : CreateNotificationInput
request = record {
  channel = codes " SMS ";
  priority = codes "high";
  recipient = codes "+905551234567";
  content = codes "hello";
  idempotency_key = codes "order-9";
  correlation_id = [];
  scheduled_at = none;
  template_id = none;
}

create_notification-IsAnswer_example :
    IsAnswer world (create_notification request (calm accepting) world)
create_notification-IsAnswer_example =
    Created.create_notification-IsAnswer request accepting world (λ k. refl)

abbrev after_cancel : World
after_cancel = final (cancel_notification (codes "n-1") accepting world)

abbrev sample_cancelled : Notification
sample_cancelled = record sample { status = cancelled; updated_at = 1001 }

cancel_returns :
    cancel_notification (codes "n-1") accepting world ≡ returns sample_cancelled after_cancel
unfolding cancel_notification event_driven_notificatio.Ports.repo_get find_row
    event_driven_notificatio.Base.text_eq event_driven_notificatio.Domain.Notification.cancel
    event_driven_notificatio.Domain.Status.can_transition_to
    event_driven_notificatio.Ports.repo_update event_driven_notificatio.Store.update_row
    event_driven_notificatio.Ports.append_event
    event_driven_notificatio.Domain.Log.new_notification_log
    event_driven_notificatio.Ports.queue_cancel
cancel_returns = refl

cancel_stops_example :
    ((r : Notification) × (find_row (codes "n-1") after_cancel.rows ≡ some r)
      × (r.status ≡ cancelled))
    × ((final (execute (codes "n-1") cut_off after_cancel)).sent ≡ after_cancel.sent)
    × ((final (execute (codes "n-1") cut_off after_cancel)).rows ≡ after_cancel.rows)
cancel_stops_example =
    Stops.cancel_stops (codes "n-1") accepting cut_off world after_cancel sample_cancelled
      world-IsKeyed cancel_returns

abbrev world_done : World
world_done = record world { rows = (record sample { status = delivered }) ∷ [] }

execute_ended_example :
    ((final (execute (codes "n-1") cut_off world_done)).sent ≡ [])
    × ((final (execute (codes "n-1") cut_off world_done)).rows ≡ world_done.rows)
unfolding find_row event_driven_notificatio.Base.text_eq event_driven_notificatio.Store.claimable
execute_ended_example =
    Ended.execute_ended (codes "n-1") cut_off world_done (record sample { status = delivered })
      (refl, tt) refl (λ q. cc) (λ q. cc)

abbrev batch : CreateBatchInput
batch = record {
  correlation_id = [];
  notifications =
      record {
        channel = codes "sms";
        priority = codes "low";
        recipient = codes "+905551234567";
        content = codes "hello";
        idempotency_key = [];
        template_id = none;
      }
      ∷ [];
}

create_batch_atomic_example : IsAtomic 1 world (create_batch batch accepting world)
create_batch_atomic_example = Atomic.create_batch_atomic batch accepting world

run_all_safe_example :
    Lasts world.rows
      (run_all
        ((creates_batch batch, accepting)
          ∷ ((reconciles, cut_off) ∷ ((delivers (codes "n-1"), accepting) ∷ [])))
        world).rows
run_all_safe_example =
    Runs.run_all_safe
      ((creates_batch batch, accepting)
        ∷ ((reconciles, cut_off) ∷ ((delivers (codes "n-1"), accepting) ∷ [])))
      world world-IsKeyed
