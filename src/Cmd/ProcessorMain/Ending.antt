-- ===== src/Cmd/ProcessorMain/Ending.antt =====
-- How cmd/processor/main.go ends when a signal cancels its context.
use api_observability_platfo.Base.{ℕ, ◌≡◌, ap, ◌∙◌, String, Option, none, some, List, [], ◌∷◌, ◌++◌}
use api_observability_platfo.Domain.{Error, canceled, LogEvent}
use api_observability_platfo.Contract.{Context, Storage}
use api_observability_platfo.Processor.Default.{default}
use api_observability_platfo.Processor.Runner.{
  Reader, RunState, FlushTimes, Event, cancelled, Verdict, goes_on, stops, run,
}
use api_observability_platfo.Processor.Runner.Written.{released}
use api_observability_platfo.Processor.Runner.Intake.{wanted}
use api_observability_platfo.Processor.Runner.Bounds.{AllOk}
use api_observability_platfo.Processor.Runner.Exit.{cancelled_delivers}
use api_observability_platfo.Cmd.{processor_runner}
use api_observability_platfo.Cmd.ProcessorMain.{reported, close_down, processor_main}

module _ {W : Type 0} where
  close_down-stops :
      (st : Storage W) (close_reader : W → Option Error × W) (p : Verdict × RunState W)
      (err : Option Error)
      → p.0 ≡ stops err
      → close_down st close_reader p ≡ some (reported err, (close_reader (st.close p.1.world).1).1)
  unfolding close_down
  close_down-stops st close_reader (goes_on, s) err h = cc
  close_down-stops st close_reader (stops e, s) err h =
      let same : e ≡ err = cc in
      ap (λ q. some (reported q, (close_reader (st.close s.world).1).1)) same

  -- If the processor is running and a signal then cancels its context, and no write and no commit of
  -- a batch has failed up to the end of the final flush, then `main` ends without an error in the log,
  -- having closed the storage and then the reader; and every message that was fetched, decodes and is
  -- processed is, once and in the order of arrival, in a batch whose commit succeeded.
  pub signalled_exit :
      (env : String → String) (influx : String → String → String → String → Storage W)
      (rdr : Reader W) (close_reader : W → Option Error × W)
      (unmarshal : List ℕ → LogEvent × Option Error) (es : List Event) (w : W) (ctx : Context)
      (t : FlushTimes)
      → ctx.err ≡ some canceled
      → let r = processor_runner env influx rdr in
        (run unmarshal r es w).0 ≡ goes_on
        → AllOk (run unmarshal r (es ++ cancelled ctx t ∷ []) w).1.calls
        → let s = (run unmarshal r (es ++ cancelled ctx t ∷ []) w).1 in
          (processor_main env influx rdr close_reader unmarshal (es ++ cancelled ctx t ∷ []) w
            ≡ some (none, (close_reader (r.storage.close s.world).1).1))
          × (released s.calls ≡ wanted unmarshal default es)
  unfolding processor_main processor_runner
  signalled_exit env influx rdr close_reader unmarshal es w ctx t signal h ok =
      let r = processor_runner env influx rdr in
      let (verdict, empty, all) = cancelled_delivers unmarshal r es w ctx t h ok in
      (
        close_down-stops r.storage close_reader (run unmarshal r (es ++ cancelled ctx t ∷ []) w)
            (some canceled) (verdict ∙ ap stops signal),
        all,
      )
