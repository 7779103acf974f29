-- ===== src/Cmd/ProcessorMain.antt =====
-- cmd/processor/main.go from `run.Run` to its end, on the events that `Run` sees.
pub mod Ending
pub mod Beside
use api_observability_platfo.Base.{ℕ, String, Option, none, some, List}
use api_observability_platfo.Domain.{Error, canceled, LogEvent}
use api_observability_platfo.Contract.{Storage}
use api_observability_platfo.Processor.Runner.{
  Reader, RunState, Event, Verdict, goes_on, stops, run,
}
use api_observability_platfo.Cmd.{processor_runner}

-- `err != nil && err != context.Canceled`: what is logged.
abbrev pub reported : Option Error → Option Error
reported none = none
reported (some canceled) = none
reported (some e) = some e

module _ {W : Type 0} where
  -- Behind `Run` the storage is closed, then the reader; both errors are ignored. `none` where `Run`
  -- has not returned.
  unfoldable pub close_down :
      Storage W → (W → Option Error × W) → Verdict × RunState W → Option (Option Error × W)
  close_down st close_reader (goes_on, s) = none
  close_down st close_reader (stops err, s) =
      some (reported err, (close_reader (st.close s.world).1).1)

  unfoldable pub processor_main :
      (String → String)
      → (String → String → String → String → Storage W)
      → Reader W
      → (W → Option Error × W)
      → (List ℕ → LogEvent × Option Error)
      → List Event
      → W
      → Option (Option Error × W)
  unfolding close_down
  processor_main env influx rdr close_reader unmarshal es w =
      let r = processor_runner env influx rdr in
      close_down r.storage close_reader (run unmarshal r es w)
