-- ===== src/Tests/Platform.antt =====
-- A small collector with one eviction and one payload that does not decode.
use mathlib.Core.List.{Sublist}
use api_observability_platfo.Base.{
  pos, ℕ, ◌≡◌, refl, none, some, List, [], ◌∷◌, ◌++◌, Perm, arith, length,
}
use api_observability_platfo.Domain.{empty_event}
use api_observability_platfo.Collector.Chan.{try_send, try_receive}
use api_observability_platfo.Collector.Config.{normalize}
use api_observability_platfo.Collector.Pool.{copy_payload}
use api_observability_platfo.Collector.Service.{
  new_service, send_or_refuse, evict_oldest, observe_depth, record_accepted,
}
use api_observability_platfo.Collector.Worker.{handle_job}
use api_observability_platfo.Collector.Enqueue.{enqueue_step}
use api_observability_platfo.Collector.System.{
  System, Move, advance, conclude, take_job, handle, shut, start, fire,
}
use api_observability_platfo.Collector.System as System
use api_observability_platfo.Collector.System.Hands.{in_hand, jobs_of}
use api_observability_platfo.Collector.System.Jobs.{each_job_once}
use api_observability_platfo.Collector.System.Order.{single_worker_order}
use api_observability_platfo.Kafka.{publisher, publish}
use api_observability_platfo.Parser.{json, parse}
use api_observability_platfo.Tests.Fixtures.{one_slot, exactly, post, times, handling}
use api_observability_platfo.Tests.EndToEnd.{toy_unmarshal, encode, marshal, topic_writer}

-- The second call drops the first job; the payload of the third does not decode.
abbrev day : List Move
day =
    post 1
    ∷ advance 0
    ∷ post 2
    ∷ advance 1
    ∷ advance 1
    ∷ advance 1
    ∷ conclude times 0
    ∷ take_job 0
    ∷ post 0
    ∷ advance 2
    ∷ handle handling 0
    ∷ take_job 0
    ∷ post 3
    ∷ advance 3
    ∷ []

abbrev reached : List Move → System (List (List ℕ))
reached mvs =
    elim (System.run exactly (json toy_unmarshal) (publisher marshal topic_writer) mvs
      (start 4 one_slot [])) [ none ↦ start 4 one_slot [] | some s ↦ s ]

day_runs :
    System.run exactly
      (json toy_unmarshal)
      (publisher marshal topic_writer)
      day
      (start 4 one_slot [])
    ≡ some (reached day)
unfolding System.run start fire exactly new_service normalize enqueue_step try_send try_receive
    send_or_refuse evict_oldest observe_depth record_accepted copy_payload handle_job json publisher
    publish toy_unmarshal encode parse empty_event
day_runs = refl

each_job_once_example :
    let s = reached day in
    Perm s.entered (s.evicted ++ (in_hand s.workers ++ (jobs_of s.handled ++ s.service.ch.items)))
each_job_once_example =
    each_job_once exactly (json toy_unmarshal) (publisher marshal topic_writer) 4 one_slot []
      (omega arith) day (reached day) day_runs

-- One job each was evicted, is with the worker, was handled and is in the queue.
all_kinds :
    let s = reached day in
    (length s.evicted ≡ 1)
    × (length (in_hand s.workers) ≡ 1)
    × (length s.handled ≡ 1)
    × (length s.service.ch.items ≡ 1)
unfolding System.run start fire exactly new_service normalize enqueue_step try_send try_receive
    send_or_refuse evict_oldest observe_depth record_accepted copy_payload handle_job json publisher
    publish toy_unmarshal encode parse empty_event
all_kinds = (refl, refl, refl, refl)

single : (normalize 4 one_slot).worker_count ≡ pos 1
unfolding normalize
single = refl

single_worker_order_example :
    Sublist
      ((jobs_of (reached day).handled ++ in_hand (reached day).workers)
        ++ (reached day).service.ch.items)
      (reached day).entered
single_worker_order_example =
    single_worker_order exactly (json toy_unmarshal) (publisher marshal topic_writer) 4 one_slot []
      (omega arith) single day (reached day) day_runs
