-- ===== src/Tests/Consumer.antt =====
-- The runner on a few events, with a storage that works and with one that is down.
use api_observability_platfo.Base.{
  ℕ, ◌<◌, ◌≡◌, refl, none, some, List, [], ◌∷◌, ◌++◌, map, pos, arith, length,
}
use api_observability_platfo.Domain.{foreign, LogEvent, float_zero}
use api_observability_platfo.Processor.Default.{process, process_batch, default}
use api_observability_platfo.Processor.Default.Laws.{event_of, event_of-process, process_batch-map}
use api_observability_platfo.Processor.Runner.{
  Message, BatchItem, RunState, Event, ticked, goes_on, commit_poison, with_defaults, flush, step,
  run,
}
use api_observability_platfo.Processor.Runner.Written.{msg_of, released, IsMade, IsWriteFirst}
use api_observability_platfo.Processor.Runner.History.{run_history}
use api_observability_platfo.Processor.Runner.Intake.{wanted, run_intake}
use api_observability_platfo.Processor.Runner.Delivery.{run_delivers}
use api_observability_platfo.Processor.Runner.Bounds.{AllOk, Sized, effective_batch, run_bounded}
use api_observability_platfo.Storage.Influx
use api_observability_platfo.Processor.Runner.OverInflux.{influx-IsDown}
use api_observability_platfo.Processor.Runner.Faults.{
  restart_at, flushed_by, write_answer, commit_answer, flush_lem, IsDown, outage_grows,
  poison_overtakes,
}
use api_observability_platfo.Tests.ConsumerFixtures.{
  toy_unmarshal, pairs, refusing, down, live, times, message, fetch, three_and_poison,
  still_running,
}

run_history_example :
    let s = (run toy_unmarshal pairs three_and_poison 0).1 in
    IsWriteFirst (IsMade toy_unmarshal default) s.calls
    × (map msg_of s.taken ≡ released s.calls ++ map msg_of s.buf)
run_history_example = run_history toy_unmarshal pairs three_and_poison 0

two_stored : (run toy_unmarshal pairs three_and_poison 0).1.world ≡ 2
unfolding run with_defaults step flush default process toy_unmarshal
two_stored = refl

run_intake_example :
    let s = (run toy_unmarshal pairs three_and_poison 0).1 in
    wanted toy_unmarshal default three_and_poison ≡ released s.calls ++ map msg_of s.buf
run_intake_example = run_intake toy_unmarshal pairs three_and_poison 0 still_running

no_failure : AllOk (run toy_unmarshal pairs three_and_poison 0).1.calls
unfolding run with_defaults step flush default process toy_unmarshal
no_failure = (refl, (refl, tt))

run_bounded_example :
    (length (run toy_unmarshal pairs three_and_poison 0).1.buf < effective_batch pairs)
    × Sized (effective_batch pairs) (run toy_unmarshal pairs three_and_poison 0).1.calls
run_bounded_example = run_bounded toy_unmarshal pairs three_and_poison 0 no_failure

abbrev and_tick : List Event
and_tick = three_and_poison ++ ticked live times ∷ []

no_failure_tick : AllOk (run toy_unmarshal pairs and_tick 0).1.calls
unfolding run with_defaults step flush default process toy_unmarshal
no_failure_tick = (refl, (refl, (refl, (refl, tt))))

run_delivers_example :
    let s = (run toy_unmarshal pairs and_tick 0).1 in
    (s.buf ≡ []) × (released s.calls ≡ wanted toy_unmarshal default three_and_poison)
run_delivers_example =
    run_delivers toy_unmarshal pairs three_and_poison 0 live times still_running no_failure_tick

down-IsDown : IsDown down
down-IsDown = influx-IsDown refusing (λ ctx p w e. cc) pairs

still_running_down : (run toy_unmarshal down three_and_poison 0).0 ≡ goes_on
unfolding run with_defaults step flush default process toy_unmarshal Influx.storage
    Influx.write_points Influx.write_loop Influx.count_write Influx.write_error
still_running_down = refl

outage_grows_example :
    map msg_of (run toy_unmarshal down three_and_poison 0).1.buf
    ≡ wanted toy_unmarshal default three_and_poison
outage_grows_example =
    outage_grows toy_unmarshal down three_and_poison 0 down-IsDown still_running_down

abbrev waiting : BatchItem
waiting = record {
  msg = message 1;
  pt = record { measurement = "vsan_api"; tags = []; fields = []; time = times.start };
}

abbrev one_waiting : RunState ℕ
one_waiting = record {
  buf = waiting ∷ [];
  world = 0;
  metrics = [];
  calls = [];
  taken = waiting ∷ [];
}

flushed_once :
    ((flush live times pairs one_waiting).0, (flush live times pairs one_waiting).1.buf)
    ≡ flushed_by one_waiting.buf
        (write_answer live pairs one_waiting).0.1
        (commit_answer live pairs one_waiting).0
flushed_once = flush_lem live times pairs one_waiting

abbrev poison : Message
poison = record { partition = 0; offset = 2; value = [] }

poison_fails : (toy_unmarshal poison.value).1 ≡ some (foreign "unexpected end of JSON input")
unfolding toy_unmarshal
poison_fails = refl

poison_overtakes_example :
    let s' = (step toy_unmarshal pairs (fetch poison) one_waiting).1 in
    (s'.buf ≡ waiting ∷ [])
    × (s'.calls ≡ commit_poison poison none ∷ one_waiting.calls)
    × (waiting.msg.offset < restart_at poison.partition s'.calls)
poison_overtakes_example =
    poison_overtakes toy_unmarshal pairs live times poison one_waiting waiting []
      (foreign "unexpected end of JSON input") refl refl (omega arith) poison_fails refl

abbrev slow_call : LogEvent
slow_call = record {
  timestamp = times.start;
  source = "esx";
  tenant = "t1";
  api_name = "list";
  latency_ms = float_zero;
  status_code = pos 200;
  raw_meta = ("k", "v") ∷ [];
}

event_of-process_example : event_of (process live slow_call).0 ≡ record slow_call { raw_meta = [] }
event_of-process_example = event_of-process live slow_call

batch_of_two :
    process_batch live (slow_call ∷ slow_call ∷ [])
    ≡ (some (map (λ e. (process live e).0) (slow_call ∷ slow_call ∷ [])), none)
batch_of_two = process_batch-map live (slow_call ∷ slow_call ∷ [])
