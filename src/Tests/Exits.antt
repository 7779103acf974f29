-- ===== src/Tests/Exits.antt =====
-- The runner and the processor's main on a context that is cancelled, and the limits of the waits.
use api_observability_platfo.Base.{
  true, String, negsuc, pos, if◌then◌else◌, str_eq, ℕ, ◌+◌, ◌≡◌, ◌≢◌, refl, Option, none, some, [],
  ◌∷◌, ◌++◌,
}
use api_observability_platfo.Domain.{canceled, Error}
use api_observability_platfo.Contract.{Context, Storage}
use api_observability_platfo.Processor.Default.{process, default}
use api_observability_platfo.Processor.Runner.{
  Runner, cancelled, goes_on, stops, with_defaults, flush, step, run,
}
use api_observability_platfo.Processor.Runner.Written.{released}
use api_observability_platfo.Processor.Runner.Intake.{wanted}
use api_observability_platfo.Processor.Runner.Exit.{
  HeedsContext, cancelled_keeps, cancelled_delivers,
}
use api_observability_platfo.Processor.Runner.Bounds.{AllOk}
use api_observability_platfo.Processor.Runner.Partial.{over_influx}
use api_observability_platfo.Processor.Runner.OverInflux.{influx-HeedsContext}
use api_observability_platfo.Storage.Influx
use api_observability_platfo.Tests.ConsumerFixtures.{
  toy_unmarshal, counting, committing, pairs, live, times, message, fetch, three_and_poison,
  still_running,
}
use api_observability_platfo.Cmd.Timeouts.{shutdown_timeout, drain_timeout}
use api_observability_platfo.Runtime.Server.{
  timer, context_done, sleep_interruptible, must_hostname,
}
use api_observability_platfo.Cmd.{processor_runner}
use api_observability_platfo.Cmd.ProcessorMain.{processor_main}
use api_observability_platfo.Cmd.ProcessorMain.Ending.{signalled_exit}

-- A client that heeds its context, under the InfluxDB storage; the world counts the points.
heeding_point : Option Error → ℕ → Option Error × ℕ
heeding_point (some e) w = (some e, w)
heeding_point none w = (none, 1 + w)

heeding_point_lem :
    (err : Option Error) (w : ℕ)
    → err ≢ none
    → ((heeding_point err w).0 ≢ none) × ((heeding_point err w).1 ≡ w)
unfolding heeding_point
heeding_point_lem (some e) w over = (over, refl)
heeding_point_lem none w over = absurd (over refl)

abbrev heeding_client : Influx.Client ℕ
heeding_client = record {
  write_point = λ ctx p w. heeding_point ctx.err w;
  ping = λ ctx w. ((true, none), w);
  close = λ w. w;
}

heeding-HeedsContext : HeedsContext (Influx.storage heeding_client)
heeding-HeedsContext = influx-HeedsContext heeding_client (λ ctx over.
    (λ p w. (heeding_point_lem ctx.err w over).0, λ p w. (heeding_point_lem ctx.err w over).1))

abbrev heeding_pairs : Runner ℕ
heeding_pairs = over_influx heeding_client pairs

abbrev over : Context
over = record { err = some canceled }

still_running_heeding : (run toy_unmarshal heeding_pairs three_and_poison 0).0 ≡ goes_on
unfolding run with_defaults step flush default process toy_unmarshal heeding_point Influx.storage
    Influx.write_points Influx.write_loop Influx.count_write Influx.write_error
still_running_heeding = refl

cancelled_keeps_example :
    let s = (run toy_unmarshal heeding_pairs three_and_poison 0).1 in
    let q = run toy_unmarshal heeding_pairs (three_and_poison ++ cancelled over times ∷ []) 0 in
    (q.0 ≡ stops (some canceled))
    × (q.1.buf ≡ s.buf)
    × (q.1.world ≡ s.world)
    × (released q.1.calls ≡ released s.calls)
cancelled_keeps_example =
    cancelled_keeps toy_unmarshal heeding_pairs three_and_poison 0 over times heeding-HeedsContext
      (λ e. cc) still_running_heeding

no_failure_end :
    AllOk (run toy_unmarshal pairs (three_and_poison ++ cancelled over times ∷ []) 0).1.calls
unfolding run with_defaults step flush default process toy_unmarshal
no_failure_end = (refl, (refl, (refl, (refl, tt))))

cancelled_delivers_example :
    let q = run toy_unmarshal pairs (three_and_poison ++ cancelled over times ∷ []) 0 in
    (q.0 ≡ stops (some canceled))
    × (q.1.buf ≡ [])
    × (released q.1.calls ≡ wanted toy_unmarshal default three_and_poison)
cancelled_delivers_example =
    cancelled_delivers toy_unmarshal pairs three_and_poison 0 over times still_running
      no_failure_end

-- A context that has ended makes the loop flush and return.
cancelled_flushes :
    (run toy_unmarshal pairs (fetch (message 1) ∷ cancelled live times ∷ []) 0).1.world ≡ 1
unfolding run with_defaults step flush default process toy_unmarshal
cancelled_flushes = refl

-- The processor with an InfluxDB, whose storage and reader count their closing in the world.
unfoldable pub toy_env : String → String
toy_env k = if str_eq k "INFLUX_URL" then "http://influx:8086" else ""

abbrev pub influx : String → String → String → String → Storage ℕ
influx url token org bucket = record counting { close = λ w. (none, 100 + w) }

abbrev pub close_reader : ℕ → Option Error × ℕ
close_reader w = (none, 1000 + w)

main_running :
    (run toy_unmarshal (processor_runner toy_env influx committing) three_and_poison 0).0 ≡ goes_on
unfolding run with_defaults step flush default process toy_unmarshal processor_runner toy_env
main_running = refl

no_failure_main :
    AllOk
      (run toy_unmarshal
        (processor_runner toy_env influx committing)
        (three_and_poison ++ cancelled over times ∷ [])
        0).1.calls
unfolding run with_defaults step flush default process toy_unmarshal processor_runner toy_env
no_failure_main = (refl, (refl, tt))

signalled_exit_example :
    let r = processor_runner toy_env influx committing in
    let s = (run toy_unmarshal r (three_and_poison ++ cancelled over times ∷ []) 0).1 in
    (processor_main toy_env influx committing close_reader toy_unmarshal
        (three_and_poison ++ cancelled over times ∷ [])
        0
      ≡ some (none, (close_reader (r.storage.close s.world).1).1))
    × (released s.calls ≡ wanted toy_unmarshal default three_and_poison)
signalled_exit_example =
    signalled_exit toy_env influx committing close_reader toy_unmarshal three_and_poison 0 over
      times refl main_running no_failure_main

three_stored :
    processor_main toy_env influx committing close_reader toy_unmarshal
      (three_and_poison ++ cancelled over times ∷ [])
      0
    ≡ some (none, 1103)
unfolding run with_defaults step flush default process toy_unmarshal processor_runner toy_env
    processor_main
three_stored = refl

-- Without SHUTDOWN_TIMEOUT the collector's two limits are 45 and 22.5 seconds; a text that is no
-- duration does not change them, and half of a negative one is rounded towards zero.
limits :
    (shutdown_timeout (λ k. "") (λ t. none) ≡ pos 45_000_000_000)
    × (drain_timeout (λ k. "") (λ t. none) ≡ pos 22_500_000_000)
    × (drain_timeout (λ k. "soon") (λ t. none) ≡ pos 22_500_000_000)
    × (drain_timeout (λ k. "-3ns") (λ t. some (negsuc 2)) ≡ negsuc 0)
unfolding shutdown_timeout drain_timeout
limits = (refl, refl, refl, refl)

woken :
    (sleep_interruptible timer ≡ none)
    × (sleep_interruptible (context_done over) ≡ some canceled)
    × (must_hostname ("", some canceled) ≡ "unknown")
unfolding sleep_interruptible must_hostname
woken = (refl, refl, refl)
