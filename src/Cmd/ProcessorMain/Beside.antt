-- ===== src/Cmd/ProcessorMain/Beside.antt =====
-- cmd/processor/main.go from its signal context to its end with all that runs beside `main`: the
-- goroutines of `Run`, the one of the metrics server and the one that shuts this server down. The
-- server is net/http's.
pub mod Refines
use api_observability_platfo.Base.{
  ℕ, String, Bool, true, false, Option, none, some, List, [], ◌∷◌, if◌then◌else◌,
}
use api_observability_platfo.Domain.{Error, is_err, LogEvent}
use api_observability_platfo.Contract.{Context, Storage}
use api_observability_platfo.Http.{Route, health_endpoint, metrics_endpoint}
use api_observability_platfo.Processor.Runner.{Reader, Runner}
use api_observability_platfo.Processor.Runner.Fetching.{Running, RunMove, begin_run, fire_run}
use api_observability_platfo.Cmd.{processor_runner}
use api_observability_platfo.Cmd.ProcessorMain.{close_down}

unfoldable pub processor_routes : List Route
processor_routes =
    record { method = "GET"; path = "/healthz"; endpoint = health_endpoint }
    ∷ record { method = "GET"; path = "/metrics"; endpoint = metrics_endpoint }
    ∷ []

-- The goroutine that shuts the server down: before `<-ctx.Done()`, in `srv.Shutdown`, at its end.
pub data Closer : Type 0 where
  awaiting shutting shut_down : Closer

-- `exited` is the error that `main` has logged of `Run` and the world when `main` has returned.
pub record ProcessorLife (W : Type 0) : Type 0 where
  pub running : Running W
  -- whether `ListenAndServe` has not returned
  pub listening : Bool
  pub closer : Closer
  pub exited : Option (Option Error × W)

pub data LifeMove : Type 0 where
  -- a goroutine of `Run` moves, or a signal comes
  runs : RunMove → LifeMove
  listen_returns : Option Error → LifeMove
  begins_shutdown : LifeMove
  shutdown_returns : Option Error → LifeMove
  -- `main` goes on behind `Run`
  closes_down : LifeMove

module _ {W : Type 0} where
  abbrev pub with_running : ProcessorLife W → Option (Running W) → Option (ProcessorLife W)
  with_running l none = none
  with_running l (some s) = some (record l { running = s })

  -- The error of `ListenAndServe` is dropped.
  abbrev pub on_listen_returns : Option Error → Bool → ProcessorLife W → Option (ProcessorLife W)
  on_listen_returns err true l = some (record l { listening = false })
  on_listen_returns err false l = none

  abbrev pub on_begins_shutdown : Closer → ProcessorLife W → Option (ProcessorLife W)
  on_begins_shutdown awaiting l =
      if is_err (l.running.ctx.err) then some (record l { closer = shutting }) else none
  on_begins_shutdown _ l = none

  -- And that of `srv.Shutdown`.
  abbrev pub on_closer_returns : Option Error → Closer → ProcessorLife W → Option (ProcessorLife W)
  on_closer_returns err shutting l = some (record l { closer = shut_down })
  on_closer_returns err _ l = none

  abbrev pub with_exit : ProcessorLife W → Option (Option Error × W) → Option (ProcessorLife W)
  with_exit l none = none
  with_exit l (some x) = some (record l { exited = some x })

  unfoldable pub begin_life : Context → W → ProcessorLife W
  begin_life ctx w = record {
    running = begin_run ctx w;
    listening = true;
    closer = awaiting;
    exited = none;
  }

module _ {W : Type 0} (unmarshal : List ℕ → LogEvent × Option Error) (r : Runner W)
    (close_reader : W → Option Error × W) where
  abbrev pub move_life : LifeMove → ProcessorLife W → Option (ProcessorLife W)
  move_life (runs mv) l = with_running l (fire_run unmarshal r mv l.running)
  move_life (listen_returns err) l = on_listen_returns err l.listening l
  move_life begins_shutdown l = on_begins_shutdown l.closer l
  move_life (shutdown_returns err) l = on_closer_returns err l.closer l
  move_life closes_down l =
      with_exit l (close_down r.storage close_reader (l.running.verdict, l.running.state))

  -- The end of `main` is the end of all.
  unfoldable pub fire_life : LifeMove → ProcessorLife W → Option (ProcessorLife W)
  fire_life mv l = elim (l.exited) [ none ↦ move_life mv l | some x ↦ none ]

  unfoldable pub run_life : List LifeMove → ProcessorLife W → Option (ProcessorLife W)
  unfolding fire_life
  run_life [] l = some l
  run_life (mv ∷ mvs) l = elim (fire_life mv l) [ none ↦ none | some m ↦ run_life mvs m ]
