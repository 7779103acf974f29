-- ===== src/Tests/Lifecycle.antt =====
-- The collector's `main` through a graceful end, and through one that leaves a handler running.
use api_observability_platfo.Base.{
  ℕ, ◌+◌, ◌≡◌, refl, true, none, some, List, [], ◌∷◌, ◌++◌, map, arith, All,
}
use api_observability_platfo.Domain.{deadline_exceeded}
use api_observability_platfo.Metrics.Total.{total}
use api_observability_platfo.Collector.Chan.{try_send, try_receive}
use api_observability_platfo.Collector.Config.{normalize}
use api_observability_platfo.Collector.Pool.{copy_payload}
use api_observability_platfo.Collector.Service.{
  new_service, send_or_refuse, evict_oldest, observe_depth, record_accepted,
}
use api_observability_platfo.Collector.Worker.{handle_job}
use api_observability_platfo.Collector.Enqueue.{enqueue_step}
use api_observability_platfo.Collector.System.{
  System, Move, advance, conclude, take_job, handle, start, fire,
}
use api_observability_platfo.Collector.System.Invariant.{as_accepted, as_evicted, as_finished}
use api_observability_platfo.Collector.System.Drain.{IsWorkerMove}
use api_observability_platfo.Collector.System.Calls.{is_crashed}
use api_observability_platfo.Cmd.Lifecycle.{
  draining, stopped, Main, MainMove, collect, leave_select, http_stopped, drain_over, wait_over,
  fire_main, run_main, serve,
}
use api_observability_platfo.Cmd.Lifecycle.Exit.{graceful_exit, closed_for_good}
use api_observability_platfo.Cmd.Lifecycle.Progress.{exit_reached}
use api_observability_platfo.Tests.Fixtures.{
  one_slot, exactly, accepting, counting, post, times, handling,
}

abbrev ended_at : List MainMove → Main ℕ
ended_at mvs = elim (run_main exactly accepting counting mvs (serve 4 one_slot 0)) [
  | none ↦ serve 4 one_slot 0
  | some m ↦ m
]

-- A call is served, the server stops, and the collector drains.
abbrev served : List MainMove
served =
    collect (post 1)
    ∷ collect (advance 0)
    ∷ leave_select
    ∷ collect (conclude times 0)
    ∷ http_stopped none
    ∷ []

abbrev graceful : List MainMove
graceful =
    served
    ++ drain_over true
      ∷ collect (take_job 0)
      ∷ collect (handle handling 0)
      ∷ collect (take_job 0)
      ∷ wait_over
      ∷ []

graceful_runs :
    run_main exactly accepting counting graceful (serve 4 one_slot 0) ≡ some (ended_at graceful)
unfolding run_main fire_main serve start fire exactly new_service normalize enqueue_step try_send
    try_receive send_or_refuse evict_oldest observe_depth record_accepted copy_payload handle_job
graceful_runs = refl

graceful_ends : (ended_at graceful).phase ≡ stopped none
unfolding run_main fire_main serve start fire exactly new_service normalize enqueue_step try_send
    try_receive send_or_refuse evict_oldest observe_depth record_accepted copy_payload handle_job
graceful_ends = refl

graceful_exit_example :
    ((ended_at graceful).system.service.ch.closed ≡ true)
    × ((ended_at graceful).system.service.ch.items ≡ [])
    × (total is_crashed (ended_at graceful).system.producers ≡ 0)
    × (total as_accepted (ended_at graceful).system.service.m
        ≡ total as_finished (ended_at graceful).system.service.m
          + total as_evicted (ended_at graceful).system.service.m)
graceful_exit_example =
    graceful_exit exactly accepting counting 4 one_slot 0 (omega arith) graceful (ended_at graceful)
      graceful_runs graceful_ends

one_published : (ended_at graceful).system.world ≡ 1
unfolding run_main fire_main serve start fire exactly new_service normalize enqueue_step try_send
    try_receive send_or_refuse evict_oldest observe_depth record_accepted copy_payload handle_job
one_published = refl

served_runs :
    run_main exactly accepting counting served (serve 4 one_slot 0) ≡ some (ended_at served)
unfolding run_main fire_main serve start fire exactly new_service normalize enqueue_step try_send
    try_receive send_or_refuse evict_oldest observe_depth record_accepted copy_payload handle_job
served_runs = refl

served_drains : (ended_at served).phase ≡ draining none
unfolding run_main fire_main serve start fire exactly new_service normalize enqueue_step try_send
    try_receive send_or_refuse evict_oldest observe_depth record_accepted copy_payload handle_job
served_drains = refl

exit_reached_example :
    (own : List Move) × All IsWorkerMove own
    × (t : System ℕ) × (run_main exactly accepting counting
          (drain_over true ∷ (map collect own ++ wait_over ∷ []))
          (ended_at served)
        ≡ some (record {
          phase = stopped none;
          system = record t { world = (counting.close t.world).1 };
        }))
exit_reached_example =
    exit_reached exactly accepting counting 4 one_slot 0 (omega arith) served (ended_at served)
      served_runs handling none served_drains

-- The server does not stop in time: a call comes in between the close and the end, and panics.
abbrev hurried : List MainMove
hurried =
    leave_select
    ∷ http_stopped (some deadline_exceeded)
    ∷ drain_over true
    ∷ collect (take_job 0)
    ∷ wait_over
    ∷ []

abbrev straggler : List MainMove
straggler = collect (post 1) ∷ collect (advance 0) ∷ []

hurried_runs :
    run_main exactly accepting counting hurried (serve 4 one_slot 0) ≡ some (ended_at hurried)
unfolding run_main fire_main serve start fire exactly new_service normalize enqueue_step try_send
    try_receive send_or_refuse evict_oldest observe_depth record_accepted copy_payload handle_job
hurried_runs = refl

hurried_ends : (ended_at hurried).phase ≡ stopped (some deadline_exceeded)
unfolding run_main fire_main serve start fire exactly new_service normalize enqueue_step try_send
    try_receive send_or_refuse evict_oldest observe_depth record_accepted copy_payload handle_job
hurried_ends = refl

straggler_runs :
    run_main exactly accepting counting straggler (ended_at hurried)
    ≡ some (ended_at (hurried ++ straggler))
unfolding run_main fire_main serve start fire exactly new_service normalize enqueue_step try_send
    try_receive send_or_refuse evict_oldest observe_depth record_accepted copy_payload handle_job
straggler_runs = refl

straggler_panics : total is_crashed (ended_at (hurried ++ straggler)).system.producers ≡ 1
unfolding run_main fire_main serve start fire exactly new_service normalize enqueue_step try_send
    try_receive send_or_refuse evict_oldest observe_depth record_accepted copy_payload handle_job
straggler_panics = refl

closed_for_good_example :
    (ended_at (hurried ++ straggler)).system.world ≡ (ended_at hurried).system.world
closed_for_good_example =
    closed_for_good exactly accepting counting 4 one_slot 0 (omega arith) hurried (ended_at hurried)
      hurried_runs (some deadline_exceeded) straggler (ended_at (hurried ++ straggler)) hurried_ends
      straggler_runs
