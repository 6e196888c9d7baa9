-- ===== src/Tests/Workers.antt =====
-- The theorems on the table and on the worker, at concrete inputs.
use event_driven_notificatio.Base.{
  ℕ, ◌+◌, ◌≡◌, ◌≢◌, refl, ◌⊎◌, inl, [], ◌∷◌, true, none, some, codes, arith, text_eq,
}
use event_driven_notificatio.Domain.Errors.{provider_transient, outbound_rate_limited}
use event_driven_notificatio.Domain.Channel.{sms}
use event_driven_notificatio.Domain.Status.{
  pending, queued, processing, delivered, failed, retrying,
}
use event_driven_notificatio.Domain.Log
use event_driven_notificatio.Domain.Delivery.{
  delivered_result, transient_failure_result, permanent_failure_result,
}
use event_driven_notificatio.Store.{
  find_row, claim_row, update_row, claimable, retry_key, find_orphaned_pending,
  find_stuck_processing, find_overdue_retrying, find_stuck_queued,
}
use event_driven_notificatio.Store.Claims
use event_driven_notificatio.Store.Claims.{row_in_work, row_saved, IsKeyed, OthersStay}
use event_driven_notificatio.Store.Scans
use event_driven_notificatio.Store.Scans.{IsScan, IsOrphaned, IsStuck, IsOverdue, IsStranded}
use event_driven_notificatio.Ports.{World, Env, returns, raises, final}
use event_driven_notificatio.Ports.Calm.{calm}
use event_driven_notificatio.Process.{execute}
use event_driven_notificatio.Process.Moves
use event_driven_notificatio.Process.Moves.{TaskMoves}
use event_driven_notificatio.Process.Results
use event_driven_notificatio.Process.Tasks.{IsReady, IsSettled}
use event_driven_notificatio.Retry.{backoff_for, rate_limit_backoff}
use event_driven_notificatio.Tests.{
  sample, sample_queued, accepting, refusing, unreachable, rejecting, cut_off, world,
}

world-IsKeyed : IsKeyed world.rows
unfolding find_row text_eq
world-IsKeyed = (refl, (refl, tt))

sample_found : find_row sample_queued.id world.rows ≡ some sample_queued
unfolding find_row text_eq
sample_found = refl

sample_claimable : claimable sample_queued.status ≡ true
unfolding claimable
sample_claimable = refl

claim_row_once_example :
    let (taken, result) = claim_row (codes "n-1") 500 world.rows in
    (((queued ≡ queued) ⊎ (queued ≡ retrying))
      × (result ≡ some (row_in_work 500 sample_queued))
      × (find_row (codes "n-1") taken ≡ some (row_in_work 500 sample_queued))
      × OthersStay (codes "n-1") world.rows taken
      × (claim_row (codes "n-1") 900 taken ≡ (taken, none)))
    ⊎ ((queued ≢ queued) × (queued ≢ retrying) × (taken ≡ world.rows) × (result ≡ none))
claim_row_once_example =
    Claims.claim_row_once (codes "n-1") 500 900 world.rows sample_queued world-IsKeyed sample_found

update_row_guarded_example :
    let (table, count) = update_row sample pending world.rows in
    ((queued ≡ pending)
      × (count ≡ 1)
      × (find_row sample.id table ≡ some (row_saved sample sample_queued))
      × OthersStay sample.id world.rows table)
    ⊎ ((queued ≢ pending) × (table ≡ world.rows) × (count ≡ 0))
update_row_guarded_example =
    Claims.update_row_guarded sample pending world.rows sample_queued world-IsKeyed sample_found

scans-AreScans_example :
    IsScan
      (IsOrphaned 300)
      (λ r. r.created_at)
      2
      world.rows
      (find_orphaned_pending 300 2 world.rows)
    × IsScan (IsStuck 300) (λ r. r.updated_at) 2 world.rows (find_stuck_processing 300 2 world.rows)
    × IsScan (IsOverdue 300) retry_key 2 world.rows (find_overdue_retrying 300 2 world.rows)
    × IsScan (IsStranded 300) (λ r. r.updated_at) 2 world.rows (find_stuck_queued 300 2 world.rows)
scans-AreScans_example = Scans.scans-AreScans 300 2 world.rows

execute_moves_example :
    TaskMoves (codes "n-1") world.rows (final (execute (codes "n-1") cut_off world)).rows
execute_moves_example = Moves.execute_moves (codes "n-1") cut_off world world-IsKeyed

ready : (e : Env) → ((k : ℕ) → e.fresh k ≡ codes "log-1") → IsReady e world sample_queued
ready e h = record {
  keyed = world-IsKeyed;
  found = sample_found;
  free = sample_claimable;
  loggable = record { fresh = λ k. rw (h k) refl; id_given = refl; correlation_given = refl };
}

execute_delivers_example :
    (w' : World) × (execute (codes "n-1") (calm accepting) world ≡ returns tt w')
    × IsSettled sample_queued world w' delivered Log.delivered []
        ((sms, codes "+905551234567", codes "hello") ∷ [])
        none
execute_delivers_example =
    Results.execute_delivers accepting sample_queued world (delivered_result (codes "m-1") 40)
      (ready accepting (λ k. refl)) (λ k. refl) (λ k. refl) refl

execute_fails_example :
    (w' : World) × (execute (codes "n-1") (calm rejecting) world ≡ returns tt w')
    × IsSettled sample_queued world w' failed Log.failed
        (codes "provider 4xx")
        ((sms, codes "+905551234567", codes "hello") ∷ [])
        none
execute_fails_example =
    Results.execute_fails rejecting sample_queued world
      (permanent_failure_result (codes "provider 4xx") 400 40) (ready rejecting (λ k. refl))
      (λ k. refl) (λ k. refl) refl (inl refl)

execute_retries_example :
    (w' : World) × (k : ℕ) × (execute (codes "n-1") (calm unreachable) world
      ≡ raises provider_transient w')
    × IsSettled sample_queued world w' retrying Log.retrying
        (codes "provider 5xx")
        ((sms, codes "+905551234567", codes "hello") ∷ [])
        (some (1000 + k + backoff_for 1))
execute_retries_example =
    Results.execute_retries unreachable sample_queued world
      (transient_failure_result (codes "provider 5xx") 503 40) (ready unreachable (λ k. refl))
      (λ k. refl) (λ k. refl) refl refl (omega arith)

execute_rate_limited_example :
    (w' : World) × (k : ℕ) × (execute (codes "n-1") (calm refusing) world
      ≡ raises outbound_rate_limited w')
    × IsSettled sample_queued world w' retrying Log.retrying
        (codes "outbound rate limit exceeded")
        []
        (some (1000 + k + rate_limit_backoff))
execute_rate_limited_example =
    Results.execute_rate_limited refusing sample_queued world (ready refusing (λ k. refl))
      (λ k. refl)

abbrev world_taken : World
world_taken = record world { rows = (record sample { status = processing }) ∷ [] }
