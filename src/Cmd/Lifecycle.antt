-- ===== src/Cmd/Lifecycle.antt =====
-- cmd/collector/main.go from the start of the server to its end: serving, `srv.Shutdown`,
-- `svc.Shutdown` and `pub.Close`, with the collector's goroutines running beside it. The server is
-- net/http's: its handlers are calls of `Ingest`, and as its documentation says, `Shutdown` returns
-- nil only when no handler is running, and none is started from then on.
pub mod Phases
pub mod Lawful
pub mod Exit
pub mod Progress
pub mod Kept
use api_observability_platfo.Base.{
  ℕ, Bool, true, false, ◌||◌, Option, none, some, List, [], ◌∷◌, leb, if◌then◌else◌,
}
use api_observability_platfo.Domain.{Error, is_err}
use api_observability_platfo.Contract.{Parser, Publisher}
use api_observability_platfo.Metrics.Total.{total}
use api_observability_platfo.Collector.Config.{BackpressureConfig}
use api_observability_platfo.Collector.System.{System, Move, arrive, shut, start, fire}
use api_observability_platfo.Collector.System.Settled.{is_running, is_working}

-- Where `main` stands. From `draining` on with what `srv.Shutdown` returned.
pub data Phase : Type 0 where
  -- in the `select` on the server's error and the signal
  serving : Phase
  -- in `srv.Shutdown`
  stopping : Phase
  -- in `svc.Shutdown` before it closes the channel
  draining : Option Error → Phase
  -- in its `wg.Wait`
  waiting : Option Error → Phase
  -- behind `pub.Close`
  stopped : Option Error → Phase

pub record Main (W : Type 0) : Type 0 where
  pub phase : Phase
  pub system : System W

pub data MainMove : Type 0 where
  -- a goroutine of the collector or a handler of the server moves
  collect : Move → MainMove
  -- the server failed or a signal came: both cases of the `select` go on alike
  leave_select : MainMove
  -- `srv.Shutdown` returns
  http_stopped : Option Error → MainMove
  -- `svc.Shutdown` closes the channel, because its context is done or because the channel is empty
  drain_over : (ctx_done : Bool) → MainMove
  -- `wg.Wait` returns, and `pub.Close` is called
  wait_over : MainMove

-- Whether a handler may call `Ingest`: not after `srv.Shutdown` has returned nil.
abbrev pub takes_calls : Phase → Bool
takes_calls (draining none) = false
takes_calls (waiting none) = false
takes_calls (stopped none) = false
takes_calls _ = true

-- The moves of the goroutines beside `main`, which alone calls `svc.Shutdown`.
abbrev pub admits : Phase → Move → Bool
admits p (shut b) = false
admits p (arrive r) = takes_calls p
admits p _ = true

module _ {W : Type 0} where
  -- `main` is somewhere else, and the collector where a move has brought it.
  pub enter : Phase → Option (System W) → Option (Main W)
  enter p none = none
  enter p (some s) = some (record { phase = p; system = s })

  pub fire_leave_select : Phase → System W → Option (Main W)
  fire_leave_select serving s = some (record { phase = stopping; system = s })
  fire_leave_select _ s = none

  pub fire_http_stopped : Option Error → Phase → System W → Option (Main W)
  fire_http_stopped err stopping s =
      if is_err err || leb (total is_running s.producers) 0
      then some (record { phase = draining err; system = s })
      else none
  fire_http_stopped err _ s = none

module _ {W : Type 0} (grow : ℕ → ℕ → ℕ) (parser : Parser) (publisher : Publisher W) where
  pub fire_collect : Move → Phase → System W → Option (Main W)
  unfolding enter
  fire_collect mv p s = if admits p mv then enter p (fire grow parser publisher mv s) else none

  pub fire_drain_over : Bool → Phase → System W → Option (Main W)
  unfolding enter
  fire_drain_over ctx_done (draining err) s =
      enter (waiting err) (fire grow parser publisher (shut ctx_done) s)
  fire_drain_over ctx_done _ s = none

  -- The error of `pub.Close` is logged.
  pub fire_wait_over : Phase → System W → Option (Main W)
  fire_wait_over (waiting err) s =
      if leb (total is_working s.workers) 0
      then some (record {
        phase = stopped err;
        system = record s { world = (publisher.close s.world).1 };
      })
      else none
  fire_wait_over _ s = none

  unfoldable pub fire_main : MainMove → Main W → Option (Main W)
  unfolding fire_collect fire_leave_select fire_http_stopped fire_drain_over fire_wait_over
  fire_main (collect mv) m = fire_collect mv m.phase m.system
  fire_main leave_select m = fire_leave_select m.phase m.system
  fire_main (http_stopped err) m = fire_http_stopped err m.phase m.system
  fire_main (drain_over ctx_done) m = fire_drain_over ctx_done m.phase m.system
  fire_main wait_over m = fire_wait_over m.phase m.system

  unfoldable pub run_main : List MainMove → Main W → Option (Main W)
  unfolding fire_main
  run_main [] m = some m
  run_main (mv ∷ mvs) m = elim (fire_main mv m) [ none ↦ none | some n ↦ run_main mvs n ]

-- `main` when the server has been started.
unfoldable pub serve : {W : Type 0} → ℕ → BackpressureConfig → W → Main W
serve num_cpu c w = record { phase = serving; system = start num_cpu c w }
