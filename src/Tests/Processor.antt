-- ===== src/Tests/Processor.antt =====
-- The processor whose metrics server fails, from its start to the end of its `main`.
use api_observability_platfo.Base.{ℕ, ◌≡◌, refl, none, some, List, [], ◌∷◌}
use api_observability_platfo.Domain.{canceled, foreign}
use api_observability_platfo.Collector.Chan.{try_send, try_receive}
use api_observability_platfo.Processor.Default.{process, default}
use api_observability_platfo.Processor.Runner.{
  FetchOutcome, run, run_loop, with_defaults, flush, step,
}
use api_observability_platfo.Processor.Runner.Fetching.{
  ends, checks, answers, offers, sees_end, sees_outcome, begin_run, fire_run,
}
use api_observability_platfo.Cmd.{processor_runner}
use api_observability_platfo.Cmd.ProcessorMain.{close_down, processor_main}
use api_observability_platfo.Cmd.ProcessorMain.Beside.{
  ProcessorLife, LifeMove, runs, listen_returns, begins_shutdown, closes_down, begin_life,
  fire_life, run_life,
}
use api_observability_platfo.Cmd.ProcessorMain.Beside.Refines.{beside_main}
use api_observability_platfo.Tests.ConsumerFixtures.{
  toy_unmarshal, committing, live, times, message,
}
use api_observability_platfo.Tests.Exits.{toy_env, influx, close_reader}

abbrev first_outcome : FetchOutcome
first_outcome = record { msg = message 1; err = none }

abbrev whole_life : List LifeMove
whole_life =
    listen_returns (some (foreign "address in use"))
    ∷ runs checks
    ∷ runs (answers first_outcome)
    ∷ runs offers
    ∷ runs (sees_outcome times)
    ∷ runs (ends canceled)
    ∷ begins_shutdown
    ∷ runs (sees_end times)
    ∷ closes_down
    ∷ []

abbrev lived : ProcessorLife ℕ
lived =
    elim (run_life toy_unmarshal (processor_runner toy_env influx committing) close_reader
      whole_life (begin_life live 0)) [ none ↦ begin_life live 0 | some l ↦ l ]

life_runs :
    run_life toy_unmarshal
      (processor_runner toy_env influx committing)
      close_reader
      whole_life
      (begin_life live 0)
    ≡ some lived
unfolding run_life fire_life begin_life begin_run fire_run run run_loop with_defaults step flush
    default process toy_unmarshal processor_runner toy_env close_down try_send try_receive
life_runs = refl

-- One point is stored, and storage and reader are closed.
life_over : lived.exited ≡ some (none, 1101)
unfolding run_life fire_life begin_life begin_run fire_run run run_loop with_defaults step flush
    default process toy_unmarshal processor_runner toy_env close_down try_send try_receive
life_over = refl

beside_main_example :
    processor_main toy_env influx committing close_reader toy_unmarshal lived.running.events 0
    ≡ some (none, 1101)
beside_main_example =
    beside_main toy_env influx committing close_reader toy_unmarshal live 0 whole_life lived
      (none, 1101) life_runs life_over
