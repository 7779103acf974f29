-- ===== src/Processor/Runner/Loop.antt =====
-- What every turn of the loop keeps, the loop keeps.
use api_observability_platfo.Base.{ℕ, Option, List, [], ◌∷◌, All}
use api_observability_platfo.Domain.{Error, LogEvent}
use api_observability_platfo.Processor.Runner.{
  Runner, RunState, Event, Verdict, goes_on, stops, step, loop_on, run_loop,
}

module _ {W : Type 0} (unmarshal : List ℕ → LogEvent × Option Error) (r : Runner W)
    (P : RunState W → Type 0) where
  -- What every turn with an allowed event keeps.
  pub run_loop_keeps_on :
      (Allowed : Event → Type 0)
      → ((e : Event) (s : RunState W) → Allowed e → P s → P (step unmarshal r e s).1)
      → (es : List Event) (s : RunState W) → All Allowed es
      → P s
      → P (run_loop unmarshal r es s).1
  unfolding run_loop
  run_loop_keeps_on Allowed turn [] s own h = h
  run_loop_keeps_on Allowed turn (e ∷ es) s own h =
      go (step unmarshal r e s) (turn e s own.0 h)
        (λ u k. run_loop_keeps_on Allowed turn es u own.1 k)
    where
      go :
          (q : Verdict × RunState W)
          → P q.1
          → ((u : RunState W) → P u → P (run_loop unmarshal r es u).1)
          → P (loop_on unmarshal (run_loop unmarshal r es) q).1
      go (goes_on, u) k rest = rest u k
      go (stops x, u) k rest = k

  any_events : (es : List Event) → All (λ e. Unit {0}) es
  any_events [] = tt
  any_events (e ∷ es) = (tt, any_events es)

  pub run_loop_keeps :
      ((e : Event) (s : RunState W) → P s → P (step unmarshal r e s).1)
      → (es : List Event) (s : RunState W) → P s
      → P (run_loop unmarshal r es s).1
  run_loop_keeps turn es s h =
      run_loop_keeps_on (λ e. Unit) (λ e u own k. turn e u k) es s (any_events es) h
