-- ===== src/Tests/Interleaving.antt =====
-- The collector under one schedule each: with the channel open, and through a shutdown.
use api_observability_platfo.Base.{
  ℕ, ◌+◌, ◌≤◌, ◌≡◌, refl, true, false, none, some, List, [], ◌∷◌, ◌++◌, arith, All, length,
}
use api_observability_platfo.Metrics.Total.{total}
use api_observability_platfo.Collector.Chan.{try_send, try_receive}
use api_observability_platfo.Collector.Config.{normalize}
use api_observability_platfo.Collector.Pool.{copy_payload}
use api_observability_platfo.Collector.Service.{
  new_service, send_or_refuse, evict_oldest, observe_depth, record_accepted,
}
use api_observability_platfo.Collector.Worker.{handle_job}
use api_observability_platfo.Collector.Enqueue.{enqueue_step}
use api_observability_platfo.Collector.System.{
  System, Move, advance, conclude, take_job, handle, shut, start, fire, run,
}
use api_observability_platfo.Collector.System.Invariant.{
  as_accepted, as_evicted, as_finished, is_accepted, is_busy, is_exited,
}
use api_observability_platfo.Collector.System.Accounts.{accepted_accounted, shutdown_drains}
use api_observability_platfo.Collector.System.Calls.{is_crashed}
use api_observability_platfo.Collector.System.Drain.{
  IsWorkerMove, moves_left, worker_moves_bounded, shutdown_ends,
}
use api_observability_platfo.Tests.Fixtures.{
  one_slot, exactly, accepting, counting, post, times, handling,
}

abbrev reached : List Move → System ℕ
reached mvs = elim (run exactly accepting counting mvs (start 4 one_slot 0)) [
  | none ↦ start 4 one_slot 0
  | some s ↦ s
]

-- The second call finds the channel full, drops the first job and puts its own in.
abbrev crowded : List Move
crowded =
    post 1
    ∷ advance 0
    ∷ post 2
    ∷ advance 1
    ∷ advance 1
    ∷ advance 1
    ∷ conclude times 0
    ∷ take_job 0
    ∷ []

crowded_runs : run exactly accepting counting crowded (start 4 one_slot 0) ≡ some (reached crowded)
unfolding run start fire exactly new_service normalize enqueue_step try_send try_receive
    send_or_refuse evict_oldest observe_depth record_accepted copy_payload handle_job
crowded_runs = refl

still_open : (reached crowded).service.ch.closed ≡ false
unfolding run start fire exactly new_service normalize enqueue_step try_send try_receive
    send_or_refuse evict_oldest observe_depth record_accepted copy_payload handle_job
still_open = refl

accepted_accounted_example :
    total as_accepted (reached crowded).service.m + total is_accepted (reached crowded).producers
    ≡ length (reached crowded).service.ch.items
      + total is_busy (reached crowded).workers
      + total as_finished (reached crowded).service.m
      + total as_evicted (reached crowded).service.m
accepted_accounted_example =
    accepted_accounted exactly accepting counting 4 one_slot 0 (omega arith) crowded
      (reached crowded) crowded_runs still_open

-- Shutdown closes the channel with one job in it, and the worker then finishes both jobs.
abbrev ended : List Move
ended =
    crowded
    ++ post 3
      ∷ advance 2
      ∷ shut true
      ∷ handle handling 0
      ∷ take_job 0
      ∷ handle handling 0
      ∷ take_job 0
      ∷ []

ended_runs : run exactly accepting counting ended (start 4 one_slot 0) ≡ some (reached ended)
unfolding run start fire exactly new_service normalize enqueue_step try_send try_receive
    send_or_refuse evict_oldest observe_depth record_accepted copy_payload handle_job
ended_runs = refl

all_left : total is_exited (reached ended).workers ≡ length (reached ended).workers
unfolding run start fire exactly new_service normalize enqueue_step try_send try_receive
    send_or_refuse evict_oldest observe_depth record_accepted copy_payload handle_job
all_left = refl

both_published : (reached ended).world ≡ 2
unfolding run start fire exactly new_service normalize enqueue_step try_send try_receive
    send_or_refuse evict_oldest observe_depth record_accepted copy_payload handle_job
both_published = refl

shutdown_drains_example :
    ((reached ended).service.ch.closed ≡ true)
    × ((reached ended).service.ch.items ≡ [])
    × (total as_accepted (reached ended).service.m
          + total is_accepted (reached ended).producers
          + (reached ended).phantoms
        ≡ total as_finished (reached ended).service.m + total as_evicted (reached ended).service.m)
shutdown_drains_example =
    shutdown_drains exactly accepting counting 4 one_slot 0 (omega arith) ended (reached ended)
      ended_runs all_left

-- The state in which `Shutdown` has just closed the channel, and the moves of the workers from it.
abbrev closing : List Move
closing = crowded ++ post 3 ∷ advance 2 ∷ shut true ∷ []

abbrev draining : List Move
draining = handle handling 0 ∷ take_job 0 ∷ handle handling 0 ∷ take_job 0 ∷ []

now_closed : (reached closing).service.ch.closed ≡ true
unfolding run start fire exactly new_service normalize enqueue_step try_send try_receive
    send_or_refuse evict_oldest observe_depth record_accepted copy_payload handle_job
now_closed = refl

draining_runs : run exactly accepting counting draining (reached closing) ≡ some (reached ended)
unfolding run start fire exactly new_service normalize enqueue_step try_send try_receive
    send_or_refuse evict_oldest observe_depth record_accepted copy_payload handle_job
draining_runs = refl

worker_moves_bounded_example : length draining ≤ moves_left (reached closing)
worker_moves_bounded_example =
    worker_moves_bounded exactly accepting counting draining (reached closing) (reached ended)
      now_closed (tt, (tt, (tt, (tt, tt)))) draining_runs

shutdown_ends_example :
    (mvs : List Move) × All IsWorkerMove mvs
    × (t : System ℕ) × (run exactly accepting counting mvs (reached closing) ≡ some t)
    × (total is_exited t.workers ≡ length t.workers)
shutdown_ends_example =
    shutdown_ends exactly accepting counting handling (reached closing) now_closed

-- A call that is still about to send when `Shutdown` closes the channel panics.
late_send_panics : total is_crashed (reached (post 1 ∷ shut true ∷ advance 0 ∷ [])).producers ≡ 1
unfolding run start fire exactly new_service normalize enqueue_step try_send try_receive
    send_or_refuse evict_oldest observe_depth record_accepted copy_payload handle_job
late_send_panics = refl
