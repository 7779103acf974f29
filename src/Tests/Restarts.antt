-- ===== src/Tests/Restarts.antt =====
-- The collector's `main` through a small day, and a processor that crashes and comes back behind it.
use api_observability_platfo.Base.{
  ℕ, ◌≡◌, refl, true, none, some, List, [], ◌∷◌, ◌++◌, map, Perm, arith, All, length, take, drop,
}
use api_observability_platfo.Domain.{empty_event}
use api_observability_platfo.Metrics.Total.{total}
use api_observability_platfo.Collector.Chan.{try_send, try_receive}
use api_observability_platfo.Collector.Config.{normalize}
use api_observability_platfo.Collector.Pool.{copy_payload}
use api_observability_platfo.Collector.Service.{
  new_service, send_or_refuse, evict_oldest, observe_depth, record_accepted,
}
use api_observability_platfo.Collector.Worker.{handle_job}
use api_observability_platfo.Collector.Enqueue.{enqueue_step}
use api_observability_platfo.Collector.System.{advance, conclude, take_job, handle, start, fire}
use api_observability_platfo.Collector.System.Invariant.{as_accepted}
use api_observability_platfo.Collector.System.Hands.{jobs_of}
use api_observability_platfo.Kafka.{publisher, publish}
use api_observability_platfo.Parser.{json, parse}
use api_observability_platfo.Processor.Default.{process, default}
use api_observability_platfo.Processor.Runner.{
  Message, Call, Event, ticked, fetched, goes_on, run, run_loop, with_defaults, flush, step,
}
use api_observability_platfo.Processor.Runner.Written.{IsMade, IsWriteFirst}
use api_observability_platfo.Processor.Runner.Bounds.{AllOk}
use api_observability_platfo.Processor.Runner.Restarts.{
  received, of_partition, all_released, AreOnlyFrom, lives, Rereads,
}
use api_observability_platfo.Processor.Runner.Restarts.Covered.{lives_cover}
use api_observability_platfo.Cmd.Lifecycle.{
  stopped, Main, MainMove, collect, leave_select, http_stopped, drain_over, wait_over, fire_main,
  run_main, serve,
}
use api_observability_platfo.Pipeline.{
  numbered, stored, event_of_task, decoded, Survives, repeated, Deliveries,
}
use api_observability_platfo.Pipeline.Delivered.{with_default}
use api_observability_platfo.Pipeline.Lives.{all_stored}
use api_observability_platfo.Pipeline.EndToEnd.{platform_stores}
use api_observability_platfo.Tests.Fixtures.{one_slot, exactly, post, times, handling}
use api_observability_platfo.Tests.EndToEnd.{
  toy_unmarshal, encode, marshal, Broker, flaky_write, flaky_writer, topic_of, flaky_writer-IsTopic,
  reading, live, clock,
}

-- The second call drops the first job, and the payload of the third does not decode. The last job is
-- still in the queue when `svc.Shutdown` closes it.
abbrev whole_day : List MainMove
whole_day =
    map collect (
      post 1
      ∷ advance 0
      ∷ post 2
      ∷ advance 1
      ∷ advance 1
      ∷ advance 1
      ∷ conclude times 0
      ∷ take_job 0
      ∷ post 0
      ∷ advance 2
      ∷ handle handling 0
      ∷ take_job 0
      ∷ post 3
      ∷ advance 3
      ∷ conclude times 1
      ∷ conclude times 2
      ∷ conclude times 3
      ∷ [])
    ++ leave_select
      ∷ http_stopped none
      ∷ drain_over true
      ∷ collect (handle handling 0)
      ∷ collect (take_job 0)
      ∷ collect (handle handling 0)
      ∷ collect (take_job 0)
      ∷ wait_over
      ∷ []

abbrev at_end : Main Broker
at_end =
    elim (run_main exactly (json toy_unmarshal) (publisher marshal flaky_writer) whole_day
      (serve 4 one_slot ([], 0))) [ none ↦ serve 4 one_slot ([], 0) | some m ↦ m ]

day_ends :
    run_main exactly
      (json toy_unmarshal)
      (publisher marshal flaky_writer)
      whole_day
      (serve 4 one_slot ([], 0))
    ≡ some at_end
unfolding run_main fire_main serve start fire exactly new_service normalize enqueue_step try_send
    try_receive send_or_refuse evict_oldest observe_depth record_accepted copy_payload handle_job
    json publisher publish flaky_write toy_unmarshal encode parse empty_event
day_ends = refl

end_stopped : at_end.phase ≡ stopped none
unfolding run_main fire_main serve start fire exactly new_service normalize enqueue_step try_send
    try_receive send_or_refuse evict_oldest observe_depth record_accepted copy_payload handle_job
    json publisher publish flaky_write toy_unmarshal encode parse empty_event
end_stopped = refl

-- The broker, and the numbers of evicted and handled jobs.
end_counts :
    (at_end.system.world ≡ ((2 ∷ []) ∷ (2 ∷ []) ∷ [], 2))
    × (length at_end.system.evicted ≡ 1)
    × (length at_end.system.handled ≡ 3)
unfolding run_main fire_main serve start fire exactly new_service normalize enqueue_step try_send
    try_receive send_or_refuse evict_oldest observe_depth record_accepted copy_payload handle_job
    json publisher publish flaky_write toy_unmarshal encode parse empty_event
end_counts = (refl, refl, refl)

end_survive : All (Survives toy_unmarshal marshal encode) at_end.system.handled
unfolding run_main fire_main serve start fire exactly new_service normalize enqueue_step try_send
    try_receive send_or_refuse evict_oldest observe_depth record_accepted copy_payload handle_job
    json publisher publish flaky_write toy_unmarshal encode parse empty_event
end_survive = (λ g. (refl, refl), (λ g. absurd (cc), (λ g. (refl, refl), tt)))

abbrev two_messages : List Message
two_messages = numbered 0 ((2 ∷ []) ∷ (2 ∷ []) ∷ [])

abbrev fetch : ℕ → ℕ → Event
fetch n v =
    fetched live clock
      (record { msg = record { partition = 0; offset = n; value = v ∷ [] }; err = none })

-- The first life fetches a message and crashes before it writes; the second fetches it again, writes
-- and commits.
abbrev two_lives : List (List Event)
two_lives = (fetch 0 2 ∷ []) ∷ (fetch 0 2 ∷ ticked live clock ∷ []) ∷ []

two_reread : Rereads toy_unmarshal (with_default reading) 0 two_messages two_lives 0 0
unfolding toy_unmarshal run run_loop with_defaults step flush default process
two_reread = ((_, refl), ((_, refl), tt))

two_positions :
    ((lives toy_unmarshal (with_default reading) 0 two_lives 0 0).1 ≡ 1)
    × (length (all_released (lives toy_unmarshal (with_default reading) 0 two_lives 0 0).0) ≡ 1)
unfolding lives toy_unmarshal run run_loop with_defaults step flush default process
two_positions = (refl, refl)

two_sound : All (λ m. (toy_unmarshal m.value).1 ≡ none) two_messages
unfolding toy_unmarshal
two_sound = (refl, (refl, tt))

default_works : (ctx : _) → (e : _) → (default.process ctx e).1 ≡ none
unfolding default process
default_works ctx e = refl

two_only : AreOnlyFrom 0 two_lives
two_only = ((refl, tt), ((refl, tt), tt))

-- A first life that also meets a message of another partition that does not decode.
abbrev mixed_lives : List (List Event)
mixed_lives =
    (fetch 0 2
      ∷ fetched live clock
          (record { msg = record { partition = 1; offset = 7; value = 0 ∷ [] }; err = none })
      ∷ [])
    ∷ (fetch 0 2 ∷ ticked live clock ∷ [])
    ∷ []

mixed_reread : Rereads toy_unmarshal (with_default reading) 0 two_messages mixed_lives 0 0
unfolding toy_unmarshal run run_loop with_defaults step flush default process
mixed_reread = ((_, refl), ((_, refl), tt))

lives_cover_example :
    let (css, end, w') = lives toy_unmarshal (with_default reading) 0 mixed_lives 0 0 in
    All (IsWriteFirst (IsMade toy_unmarshal default)) css
    × (of_partition 0 (all_released css) ≡ take end two_messages)
lives_cover_example =
    lives_cover toy_unmarshal (with_default reading) 0 two_messages (refl, refl, (refl, refl, tt))
      two_sound default_works mixed_lives 0 mixed_reread

-- The last life fetches the other message.
abbrev end_lived : List (List Call) × ℕ × ℕ
end_lived = lives toy_unmarshal (with_default reading) 0 two_lives 0 0

abbrev last_life : List Event
last_life = fetch 1 2 ∷ []

end_reread :
    Rereads toy_unmarshal
      (with_default reading)
      0
      (numbered 0 (topic_of at_end.system.world))
      two_lives
      0
      0
unfolding toy_unmarshal run run_loop with_defaults step flush default process run_main fire_main
    serve start fire exactly new_service normalize enqueue_step try_send try_receive send_or_refuse
    evict_oldest observe_depth record_accepted copy_payload handle_job json publisher publish
    flaky_write encode parse empty_event
end_reread = ((_, refl), ((_, refl), tt))

end_rest : received last_life ≡ drop end_lived.1 (numbered 0 (topic_of at_end.system.world))
unfolding lives toy_unmarshal run run_loop with_defaults step flush default process run_main
    fire_main serve start fire exactly new_service normalize enqueue_step try_send try_receive
    send_or_refuse evict_oldest observe_depth record_accepted copy_payload handle_job json publisher
    flaky_write publish encode parse empty_event
end_rest = refl

end_goes_on : (run toy_unmarshal (with_default reading) last_life end_lived.2).0 ≡ goes_on
unfolding lives toy_unmarshal run run_loop with_defaults step flush default process
end_goes_on = refl

end_ok :
    AllOk
      (run toy_unmarshal
        (with_default reading)
        (last_life ++ ticked live clock ∷ [])
        end_lived.2).1.calls
unfolding lives toy_unmarshal run run_loop with_defaults step flush default process
end_ok = (refl, (refl, tt))

platform_stores_example :
    let s = at_end.system in
    (total as_accepted s.service.m ≡ length s.entered)
    × Perm s.entered (s.evicted ++ jobs_of s.handled)
    × (ks : List ℕ) × Deliveries toy_unmarshal topic_of flaky_writer encode
        (decoded toy_unmarshal s.handled)
        ks
        ([], 0)
    × (all_stored end_lived.0
          ++ stored
              (run toy_unmarshal
                (with_default reading)
                (last_life ++ ticked live clock ∷ [])
                end_lived.2).1.calls
        ≡ repeated ks (
            map
              (λ x. (process live (event_of_task toy_unmarshal x)).0)
              (decoded toy_unmarshal s.handled)))
platform_stores_example =
    platform_stores toy_unmarshal marshal encode exactly topic_of flaky_writer flaky_writer-IsTopic
      (λ t. refl) 4 one_slot ([], 0) refl whole_day at_end day_ends end_survive (omega arith)
      end_stopped reading two_lives 0 end_reread two_only last_life live clock end_rest end_goes_on
      end_ok
