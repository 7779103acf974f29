-- ===== src/Cmd/ProcessorMain/Beside/Refines.antt =====
-- What runs beside `main` does not change how it ends.
use api_observability_platfo.Base.{
  ℕ, String, ◌≡◌, refl, sym, ap, ◌∙◌, Bool, true, false, Option, none, some, List, [], ◌∷◌,
  Option-cases, Bool-cases, inl, inr,
}
use mathlib.Core.Path.{subst}
use api_observability_platfo.Domain.{Error, is_err, LogEvent}
use api_observability_platfo.Contract.{Context, Storage}
use api_observability_platfo.Processor.Runner.{Reader, Runner}
use api_observability_platfo.Processor.Runner.Fetching.{Running, fire_run}
use api_observability_platfo.Processor.Runner.Fetching.Fed.{IsFed, LeadsTo}
use api_observability_platfo.Processor.Runner.Fetching.Feed.{fire_run-IsFed, begin_run-IsFed}
use api_observability_platfo.Cmd.{processor_runner}
use api_observability_platfo.Cmd.ProcessorMain.{close_down, processor_main}
use api_observability_platfo.Cmd.ProcessorMain.Beside.{
  Closer, awaiting, shutting, shut_down, ProcessorLife, LifeMove, runs, listen_returns,
  begins_shutdown, shutdown_returns, closes_down, with_running, on_listen_returns,
  on_begins_shutdown, on_closer_returns, with_exit, begin_life, move_life, fire_life, run_life,
}

module _ {W : Type 0} (unmarshal : List ℕ → LogEvent × Option Error) (r : Runner W)
    (close_reader : W → Option Error × W) (w : W) where
  -- `main` has ended as `Run` says, if it has.
  abbrev Ended : ProcessorLife W → Option (Option Error × W) → Type 0
  Ended l none = Unit
  Ended l (some x) = close_down r.storage close_reader (l.running.verdict, l.running.state) ≡ some x

  record IsInStep (l : ProcessorLife W) : Type 0 where
    fed : IsFed unmarshal r w l.running
    ended : Ended l l.exited

  abbrev InStep : Option (ProcessorLife W) → Type 0
  InStep none = Unit
  InStep (some l) = IsInStep l

  module _ (l : ProcessorLife W) (fed : IsFed unmarshal r w l.running)
      (going : l.exited ≡ none) where
    going_on :
        (m : ProcessorLife W) → IsFed unmarshal r w m.running → m.exited ≡ l.exited → IsInStep m
    going_on m f e = record { fed = f; ended = subst (Ended m) (sym (e ∙ going)) tt }

    runs-IsInStep : (o : Option (Running W)) → LeadsTo unmarshal r w o → InStep (with_running l o)
    runs-IsInStep none h = tt
    runs-IsInStep (some s) h = going_on (record l { running = s }) h refl

    listen-IsInStep : (err : Option Error) (b : Bool) → InStep (on_listen_returns err b l)
    listen-IsInStep err true = going_on (record l { listening = false }) fed refl
    listen-IsInStep err false = tt

    begins-IsInStep : (c : Closer) → InStep (on_begins_shutdown c l)
    begins-IsInStep awaiting = elim (Bool-cases (is_err (l.running.ctx.err))) [
      | inl done ↦ rw done (going_on (record l { closer = shutting }) fed refl)
      | inr live ↦ rw live tt
    ]
    begins-IsInStep _ = tt

    shutdown-IsInStep : (err : Option Error) (c : Closer) → InStep (on_closer_returns err c l)
    shutdown-IsInStep err shutting = going_on (record l { closer = shut_down }) fed refl
    shutdown-IsInStep err _ = tt

    exit-IsInStep :
        (o : Option (Option Error × W))
        → close_down r.storage close_reader (l.running.verdict, l.running.state) ≡ o
        → InStep (with_exit l o)
    exit-IsInStep none e = tt
    exit-IsInStep (some x) e = record { fed = fed; ended = e }

    move_life-IsInStep : (mv : LifeMove) → InStep (move_life unmarshal r close_reader mv l)
    move_life-IsInStep (runs mv) =
        runs-IsInStep (fire_run unmarshal r mv l.running)
          (fire_run-IsFed unmarshal r w l.running fed mv)
    move_life-IsInStep (listen_returns err) = listen-IsInStep err l.listening
    move_life-IsInStep begins_shutdown = begins-IsInStep l.closer
    move_life-IsInStep (shutdown_returns err) = shutdown-IsInStep err l.closer
    move_life-IsInStep closes_down = exit-IsInStep _ refl

  fire_life-IsInStep :
      (mv : LifeMove) (l : ProcessorLife W)
      → IsInStep l
      → InStep (fire_life unmarshal r close_reader mv l)
  unfolding fire_life
  fire_life-IsInStep mv l inv = go l.exited refl
    where
      go :
          (o : Option (Option Error × W))
          → l.exited ≡ o
          → InStep (elim o [ none ↦ move_life unmarshal r close_reader mv l | some x ↦ none ])
      go none going = move_life-IsInStep l inv.fed going mv
      go (some x) over = tt

  run_life-IsInStep :
      (mvs : List LifeMove) (l m : ProcessorLife W)
      → IsInStep l
      → run_life unmarshal r close_reader mvs l ≡ some m
      → IsInStep m
  unfolding run_life
  run_life-IsInStep [] l m inv ran = subst InStep ran inv
  run_life-IsInStep (mv ∷ mvs) l m inv ran =
      let one = fire_life-IsInStep mv l inv in
      elim (Option-cases (fire_life unmarshal r close_reader mv l)) [
        | inl e ↦ absurd (cc)
        | inr (k, e) ↦ run_life-IsInStep mvs k m (subst InStep e one) (rw (run_life, e) at ran)
      ]

  begin_life-IsInStep : (ctx : Context) → IsInStep (begin_life ctx w)
  unfolding begin_life
  begin_life-IsInStep ctx = record { fed = begin_run-IsFed unmarshal r w ctx; ended = tt }

-- The processor with all its goroutines, in any order, whatever `FetchMessage`, `ListenAndServe` and
-- `srv.Shutdown` return: when `main` has ended, what it has logged of `Run` and the world that it leaves
-- are those of `processor_main` on the events that the loop has seen. What becomes of the metrics
-- server does not matter.
pub beside_main :
    {W : Type 0} (env : String → String) (influx : String → String → String → String → Storage W)
    (rdr : Reader W) (close_reader : W → Option Error × W)
    (unmarshal : List ℕ → LogEvent × Option Error) (ctx : Context) (w : W) (mvs : List LifeMove)
    (l : ProcessorLife W) (x : Option Error × W)
    → run_life unmarshal (processor_runner env influx rdr) close_reader mvs (begin_life ctx w)
      ≡ some l
    → l.exited ≡ some x
    → processor_main env influx rdr close_reader unmarshal l.running.events w ≡ some x
unfolding processor_main
beside_main env influx rdr close_reader unmarshal ctx w mvs l x ran over =
    let r = processor_runner env influx rdr in
    let inv =
      run_life-IsInStep unmarshal r close_reader w mvs (begin_life ctx w) l
        (begin_life-IsInStep unmarshal r close_reader w ctx) ran in
    ap (close_down r.storage close_reader) inv.fed.same
    ∙ subst (Ended unmarshal r close_reader w l) over inv.ended
