-- ===== src/Cmd/Lifecycle/Progress.antt =====
-- That the collector's `main` can end, once `srv.Shutdown` has returned.
use api_observability_platfo.Base.{
  ℕ, ◌<◌, ◌≡◌, refl, ap, ◌∙◌, true, false, Option, some, List, [], ◌∷◌, ◌++◌, map, arith, length,
  inl, inr, Option-cases, All,
}
use mathlib.Core.Path.{subst}
use api_observability_platfo.Domain.{Error}
use api_observability_platfo.Contract.{Parser, Publisher}
use api_observability_platfo.Metrics.Total.{total}
use api_observability_platfo.Collector.Chan.{close}
use api_observability_platfo.Collector.Config.{BackpressureConfig}
use api_observability_platfo.Collector.Worker.{HandleTimes}
use api_observability_platfo.Collector.System.{
  System, Move, arrive, advance, conclude, take_job, handle, shut, fire, run,
}
use api_observability_platfo.Collector.System.Invariant.{is_exited}
use api_observability_platfo.Collector.System.Drain.{IsWorkerMove, shutdown_ends}
use api_observability_platfo.Collector.System.Settled.{working-exited}
use api_observability_platfo.Collector.System.Ends.{closed_now}
use api_observability_platfo.Cmd.Lifecycle.{
  Phase, draining, waiting, stopped, Main, MainMove, collect, drain_over, wait_over, admits, enter,
  fire_collect, fire_drain_over, fire_wait_over, fire_main, run_main, serve,
}
use api_observability_platfo.Cmd.Lifecycle.Phases.{PhaseLaw, draining_alive}
use api_observability_platfo.Cmd.Lifecycle.Exit.{lawful}

worker_admitted : (p : Phase) (mv : Move) → IsWorkerMove mv → admits p mv ≡ true
worker_admitted p (take_job i) own = refl
worker_admitted p (handle t i) own = refl
worker_admitted p (arrive r) own = absurd own
worker_admitted p (advance i) own = absurd own
worker_admitted p (conclude t i) own = absurd own
worker_admitted p (shut b) own = absurd own

module _ {W : Type 0} (grow : ℕ → ℕ → ℕ) (parser : Parser) (publisher : Publisher W) where
  -- The moves of workers beside a `main` that stays where it is.
  run_main-run :
      (p : Phase) (mvs : List Move) (rest : List MainMove) (s t : System W)
      → All IsWorkerMove mvs
      → run grow parser publisher mvs s ≡ some t
      → run_main grow parser publisher (map collect mvs ++ rest) (record { phase = p; system = s })
        ≡ run_main grow parser publisher rest (record { phase = p; system = t })
  unfolding run run_main fire_main fire_collect enter
  run_main-run p [] rest s t own ran = ground arith
  run_main-run p (mv ∷ mvs) rest s t own ran =
      elim (Option-cases (fire grow parser publisher mv s)) [
        | inl e ↦ let over = rw (e, run) at ran in cc
        | inr (u, e) ↦
            let more = rw (e, run) at ran in
            rw (worker_admitted p mv own.0, e, run_main) (run_main-run p mvs rest u t own.1 more)
      ]

  waited :
      (err : Option Error) (t : System W)
      → total is_exited t.workers ≡ length t.workers
      → run_main grow parser publisher (wait_over ∷ []) (record { phase = waiting err; system = t })
        ≡ some (record {
          phase = stopped err;
          system = record t { world = (publisher.close t.world).1 };
        })
  unfolding run_main fire_main fire_wait_over
  waited err t all = ground (arith, working-exited t.workers)

  drained :
      (err : Option Error) (s : System W) (mvs : List MainMove)
      → s.service.ch.closed ≡ false
      → run_main grow parser publisher
          (drain_over true ∷ mvs)
          (record { phase = draining err; system = s })
        ≡ run_main grow parser publisher mvs (record {
          phase = waiting err;
          system = record s { service = record s.service { ch = close s.service.ch } };
        })
  unfolding run_main fire_main fire_drain_over enter
  drained err s mvs alive = rw (closed_now grow parser publisher s alive, run_main)

  module _ (num_cpu : ℕ) (c : BackpressureConfig) (w : W) (processors : 0 < num_cpu)
      (mvs : List MainMove) (m : Main W)
      (ran : run_main grow parser publisher mvs (serve num_cpu c w) ≡ some m) where
    -- On a machine with a processor, under every interleaving of requests, workers and `main`: when
    -- `srv.Shutdown` has returned, whatever it returned, and the context of `svc.Shutdown` is done,
    -- `main` comes to its end by the close and finitely many moves of the workers, with no help of
    -- the handlers, and calls `pub.Close`.
    pub exit_reached :
        (h : HandleTimes) (err : Option Error)
        → m.phase ≡ draining err
        → (own : List Move) × All IsWorkerMove own
          × (t : System W) × (run_main grow parser publisher
                (drain_over true ∷ (map collect own ++ wait_over ∷ []))
                m
              ≡ some (record {
                phase = stopped err;
                system = record t { world = (publisher.close t.world).1 };
              }))
    exit_reached h err there =
        let s = m.system in
        let alive = draining_alive err s (
          subst (λ p. PhaseLaw p s) there
            (lawful grow parser publisher num_cpu c w processors mvs m ran).law) in
        let closed : System W = record s {
          service = record s.service { ch = close s.service.ch };
        } in
        let (own, workers, t, goes, all) = shutdown_ends grow parser publisher h closed refl in
        let here : m ≡ record { phase = draining err; system = s } = ground (arith, there) in
        (
          own,
          workers,
          t,
          ap
                (run_main grow parser publisher
                  (drain_over true ∷ (map collect own ++ wait_over ∷ [])))
                here
              ∙ drained err s (map collect own ++ wait_over ∷ []) alive
              ∙ run_main-run (waiting err) own (wait_over ∷ []) closed t workers goes
              ∙ waited err t all,
        )
