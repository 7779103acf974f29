-- ===== src/Processor/Runner/Turns.antt =====
-- When a turn of the loop is followed by another.
use api_observability_platfo.Base.{ℕ, ◌≡◌, refl, Option, none, List, ◌∷◌, arith}
use api_observability_platfo.Domain.{Error, LogEvent}
use api_observability_platfo.Contract.{Context}
use api_observability_platfo.Processor.Runner.{
  Message, Runner, RunState, FlushTimes, Event, fetched, Verdict, goes_on, stops, put_in,
  after_process, after_unmarshal, on_outcome, step, loop_on, run_loop,
}

module _ {W : Type 0} (unmarshal : List ℕ → LogEvent × Option Error) (r : Runner W) where
  -- A message that decodes is taken or, where its event is not processed, passed over.
  pub fetched_goes_on :
      (ctx : Context) (t : FlushTimes) (m : Message) (s : RunState W)
      → (unmarshal m.value).1 ≡ none
      → (step unmarshal r (fetched ctx t (record { msg = m; err = none })) s).0 ≡ goes_on
  unfolding step on_outcome after_unmarshal after_process put_in
  fetched_goes_on ctx t m s h = ground arith

  pub run_loop-turn :
      (e : Event) (es : List Event) (s : RunState W)
      → (step unmarshal r e s).0 ≡ goes_on
      → run_loop unmarshal r (e ∷ es) s ≡ run_loop unmarshal r es (step unmarshal r e s).1
  unfolding run_loop
  run_loop-turn e es s h = go (step unmarshal r e s) h
    where
      go :
          (q : Verdict × RunState W)
          → q.0 ≡ goes_on
          → loop_on unmarshal (run_loop unmarshal r es) q ≡ run_loop unmarshal r es q.1
      go (goes_on, u) h = refl
      go (stops x, u) h = cc
