-- ===== src/Processor/Runner/Fetching.antt =====
-- `Run` of internal/app/processor/runner.go with both of its goroutines: the one that fetches, the
-- channel `outcomes`, and the loop. A move is one step of one of them, or the end of the context.
pub mod Fed
pub mod Feed
pub mod Ends
use api_observability_platfo.Base.{
  ℕ, Bool, true, false, Option, none, some, List, [], ◌∷◌, ◌++◌, if◌then◌else◌,
}
use api_observability_platfo.Domain.{Error, is_err, LogEvent}
use api_observability_platfo.Contract.{Context}
use api_observability_platfo.Collector.Chan.{
  Chan, make, Sent, sent, would_block, send_panics, try_send, Received, received, drained,
  nothing_yet, try_receive,
}
use api_observability_platfo.Processor.Runner.{
  Runner, RunState, FlushTimes, FetchOutcome, Event, cancelled, ticked, fetched, Verdict, goes_on,
  stops, with_defaults, step,
}

-- Where the goroutine that fetches stands.
pub data Fetcher : Type 0 where
  -- at the head of its loop
  checking : Fetcher
  -- in `FetchMessage`
  asking : Fetcher
  -- in the `select` that sends
  offering : FetchOutcome → Fetcher
  -- it has returned at the head of its loop
  left_idle : Fetcher
  -- it has returned from the `select`, with an outcome that was not sent
  left_with : FetchOutcome → Fetcher

-- `verdict` is `stops` when `Run` has returned. `events` and `answered` record the history of the loop
-- and of `FetchMessage`, and influence nothing.
pub record Running (W : Type 0) : Type 0 where
  pub ctx : Context
  pub fetcher : Fetcher
  pub outcomes : Chan FetchOutcome
  pub verdict : Verdict
  pub state : RunState W
  pub events : List Event
  pub answered : List FetchOutcome

pub data RunMove : Type 0 where
  -- the context ends
  ends : Error → RunMove
  -- the goroutine asks `ctx.Err()`
  checks : RunMove
  -- `FetchMessage` returns
  answers : FetchOutcome → RunMove
  -- the `select` of the goroutine sends, or sees that the context is done
  offers : RunMove
  gives_up : RunMove
  -- the `select` of the loop takes one of its cases
  sees_end : FlushTimes → RunMove
  sees_tick : FlushTimes → RunMove
  sees_outcome : FlushTimes → RunMove

module _ {W : Type 0} where
  -- A context ends once.
  pub fire_ends : Error → Running W → Option (Running W)
  fire_ends e s =
      if is_err (s.ctx.err) then none else some (record s { ctx = record { err = some e } })

  pub fire_checks : Fetcher → Running W → Option (Running W)
  fire_checks checking s =
      some (record s { fetcher = if is_err (s.ctx.err) then left_idle else asking })
  fire_checks _ s = none

  pub fire_answers : FetchOutcome → Fetcher → Running W → Option (Running W)
  fire_answers fo asking s =
      some (record s { fetcher = offering fo; answered = s.answered ++ fo ∷ [] })
  fire_answers fo _ s = none

  abbrev pub after_offer : Sent FetchOutcome → Running W → Option (Running W)
  after_offer (sent c) s = some (record s { fetcher = checking; outcomes = c })
  after_offer would_block s = none
  after_offer send_panics s = none

  pub fire_offers : Fetcher → Running W → Option (Running W)
  fire_offers (offering fo) s = after_offer (try_send fo s.outcomes) s
  fire_offers _ s = none

  pub fire_gives_up : Fetcher → Running W → Option (Running W)
  fire_gives_up (offering fo) s =
      if is_err (s.ctx.err) then some (record s { fetcher = left_with fo }) else none
  fire_gives_up _ s = none

  -- `Run` on an empty buffer and a channel of 8 places.
  unfoldable pub begin_run : Context → W → Running W
  begin_run ctx w = record {
    ctx = ctx;
    fetcher = checking;
    outcomes = make 8;
    verdict = goes_on;
    state = record { buf = []; world = w; metrics = []; calls = []; taken = [] };
    events = [];
    answered = [];
  }

module _ {W : Type 0} (unmarshal : List ℕ → LogEvent × Option Error) (r : Runner W) where
  -- A turn of the loop.
  pub turn_with : Event → Running W → Option (Running W)
  turn_with e s =
      let (v, q) = step unmarshal (with_defaults r) e s.state in
      some (record s { verdict = v; state = q; events = s.events ++ e ∷ [] })

  pub fire_sees_end : FlushTimes → Running W → Option (Running W)
  unfolding turn_with
  fire_sees_end t s = if is_err (s.ctx.err) then turn_with (cancelled (s.ctx) t) s else none

  abbrev pub after_outcome : FlushTimes → Received FetchOutcome → Running W → Option (Running W)
  after_outcome t (received fo c) s = turn_with (fetched (s.ctx) t fo) (record s { outcomes = c })
  after_outcome t drained s = none
  after_outcome t nothing_yet s = none

  -- The loop, as long as `Run` has not returned.
  pub fire_turn : RunMove → Verdict → Running W → Option (Running W)
  unfolding turn_with fire_sees_end
  fire_turn (sees_end t) goes_on s = fire_sees_end t s
  fire_turn (sees_tick t) goes_on s = turn_with (ticked (s.ctx) t) s
  fire_turn (sees_outcome t) goes_on s = after_outcome t (try_receive s.outcomes) s
  fire_turn _ _ s = none

  unfoldable pub fire_run : RunMove → Running W → Option (Running W)
  unfolding fire_ends fire_checks fire_answers fire_offers fire_gives_up fire_turn
  fire_run (ends e) s = fire_ends e s
  fire_run checks s = fire_checks s.fetcher s
  fire_run (answers fo) s = fire_answers fo s.fetcher s
  fire_run offers s = fire_offers s.fetcher s
  fire_run gives_up s = fire_gives_up s.fetcher s
  fire_run (sees_end t) s = fire_turn (sees_end t) s.verdict s
  fire_run (sees_tick t) s = fire_turn (sees_tick t) s.verdict s
  fire_run (sees_outcome t) s = fire_turn (sees_outcome t) s.verdict s

  unfoldable pub run_moves : List RunMove → Running W → Option (Running W)
  unfolding fire_run
  run_moves [] s = some s
  run_moves (mv ∷ mvs) s = elim (fire_run mv s) [ none ↦ none | some t ↦ run_moves mvs t ]
