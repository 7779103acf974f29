-- ===== src/Cmd/Lifecycle/Exit.antt =====
-- How the collector's `main` ends.
use api_observability_platfo.Base.{
  ℕ, ◌+◌, ◌≤◌, ◌<◌, ◌≡◌, refl, ap, true, Option, none, some, List, [], ◌∷◌, arith, length,
  length-append, inl, inr, Bool-cases,
}
use mathlib.Core.Path.{subst}
use api_observability_platfo.Domain.{Error}
use api_observability_platfo.Contract.{Parser, Publisher}
use api_observability_platfo.Metrics.Total.{total}
use api_observability_platfo.Collector.Config.{BackpressureConfig}
use api_observability_platfo.Collector.Service.{new_service}
use api_observability_platfo.Collector.Enqueue.{Producer, sending, accepted, refused, done, crashed}
use api_observability_platfo.Collector.System.{System, Move, start, fire}
use api_observability_platfo.Collector.System.Invariant.{
  as_accepted, as_evicted, as_finished, is_accepted,
}
use api_observability_platfo.Collector.System.Preserved.{leads_to, start-Inv}
use api_observability_platfo.Collector.System.Accounts.{busy-exited}
use api_observability_platfo.Collector.System.Calls.{is_crashed}
use api_observability_platfo.Collector.System.Settled.{
  is_running, is_working, working-exited, IsOver,
}
use api_observability_platfo.Collector.System.Ends.{fire-IsOver}
use api_observability_platfo.Cmd.Lifecycle.{
  stopped, Main, MainMove, collect, leave_select, http_stopped, drain_over, wait_over, admits,
  enter, fire_collect, fire_leave_select, fire_http_stopped, fire_drain_over, fire_wait_over,
  fire_main, run_main, serve,
}
use api_observability_platfo.Cmd.Lifecycle.Phases.{Yields, PhaseLaw, IsLawful}
use api_observability_platfo.Cmd.Lifecycle.Lawful.{run_main_keeps, run_main-IsLawful}

accepted-le-running : (ps : List Producer) → total is_accepted ps ≤ total is_running ps
accepted-le-running [] = omega arith
accepted-le-running (sending pc j ∷ ps) = omega (arith, accepted-le-running ps)
accepted-le-running (accepted ∷ ps) = omega (arith, accepted-le-running ps)
accepted-le-running (refused ∷ ps) = omega (arith, accepted-le-running ps)
accepted-le-running (done ∷ ps) = omega (arith, accepted-le-running ps)
accepted-le-running (crashed ∷ ps) = omega (arith, accepted-le-running ps)

module _ {W : Type 0} where
  -- `main` is through, the workers have left, and the world is `w`.
  record IsEnded (w : W) (m : Main W) : Type 0 where
    err : Option Error
    phase_is : m.phase ≡ stopped err
    over : IsOver w m.system

  pub working_left :
      (err : Option Error) (s : System W)
      → PhaseLaw (stopped err) s
      → total is_working s.workers ≡ 0
  working_left none s h = h.1
  working_left (some e) s h = h

module _ {W : Type 0} (grow : ℕ → ℕ → ℕ) (parser : Parser) (publisher : Publisher W) where
  serve-IsLawful :
      (num_cpu : ℕ) (c : BackpressureConfig) (w : W) → 0 < num_cpu → IsLawful (serve num_cpu c w)
  unfolding serve start new_service
  serve-IsLawful num_cpu c w h = record {
    accounts = start-Inv num_cpu c w h;
    calm = record { calm = λ o. refl };
    law = refl;
  }

  collect-IsEnded :
      (w : W) (mv : Move) (m : Main W) (o : Option (System W))
      → fire grow parser publisher mv m.system ≡ o
      → IsEnded w m
      → Yields (IsEnded w) (enter m.phase o)
  unfolding enter
  collect-IsEnded w mv m none e h = tt
  collect-IsEnded w mv m (some t) e h = record {
    err = h.err;
    phase_is = h.phase_is;
    over = leads_to (IsOver w) (fire-IsOver grow parser publisher w mv m.system h.over) e;
  }

  fire_main-IsEnded :
      (w : W) (mv : MainMove) (m : Main W)
      → IsEnded w m
      → Yields (IsEnded w) (fire_main grow parser publisher mv m)
  unfolding fire_main fire_collect
  fire_main-IsEnded w (collect mv) m h = elim (Bool-cases (admits m.phase mv)) [
    | inl ok ↦ rw (ok, fire_collect) (collect-IsEnded w mv m _ refl h)
    | inr other ↦ rw (other, fire_collect) tt
  ]
  fire_main-IsEnded w leave_select m h = rw (h.phase_is, fire_leave_select) tt
  fire_main-IsEnded w (http_stopped err) m h = rw (h.phase_is, fire_http_stopped) tt
  fire_main-IsEnded w (drain_over b) m h = rw (h.phase_is, fire_drain_over) tt
  fire_main-IsEnded w wait_over m h = rw (h.phase_is, fire_wait_over) tt

  module _ (num_cpu : ℕ) (c : BackpressureConfig) (w : W) (processors : 0 < num_cpu)
      (mvs : List MainMove) (m : Main W)
      (ran : run_main grow parser publisher mvs (serve num_cpu c w) ≡ some m) where
    pub lawful : IsLawful m
    lawful = subst (Yields IsLawful) ran (
        run_main-IsLawful grow parser publisher mvs (serve num_cpu c w)
          (serve-IsLawful num_cpu c w processors))

    -- On a machine with a processor, under every interleaving of requests, workers and `main`: if
    -- `srv.Shutdown` returned nil, then at the end of `main` the channel is closed and empty, no call
    -- of `Ingest` has panicked, and the events counted as accepted are exactly those that a worker
    -- has published or counted as dropped and those counted as evicted.
    pub graceful_exit :
        m.phase ≡ stopped none
        → (m.system.service.ch.closed ≡ true)
          × (m.system.service.ch.items ≡ [])
          × (total is_crashed m.system.producers ≡ 0)
          × (total as_accepted m.system.service.m
              ≡ total as_finished m.system.service.m + total as_evicted m.system.service.m)
    graceful_exit ended =
        let s = m.system in
        let (settled, left) = subst (λ p. PhaseLaw p s) ended lawful.law in
        let inv = lawful.accounts in
        let workers = working-exited s.workers in
        let (closed, drained) = inv.exited_drained (omega (arith, left, workers, inv.staffed)) in
        (
          closed,
          drained,
          settled.unharmed,
          omega (
            arith,
            left,
            workers,
            settled.over,
            settled.exact,
            inv.counted,
            inv.accounted,
            accepted-le-running s.producers,
            busy-exited s.workers,
            ap length inv.fifo,
            ap length drained,
            length-append s.left s.service.ch.items,
          ),
        )

    -- Behind a graceful end every job that entered the channel is counted as accepted.
    pub counted_at_end :
        m.phase ≡ stopped none → total as_accepted m.system.service.m ≡ length m.system.entered
    counted_at_end ended =
        let (settled, left) = subst (λ p. PhaseLaw p m.system) ended lawful.law in
        omega (arith, settled.over, lawful.accounts.counted, accepted-le-running m.system.producers)

    -- On a machine with a processor, under every interleaving of requests, workers and `main`: once
    -- `pub.Close` has been called, the world of the publisher stays as it is, whatever moves follow,
    -- also where `srv.Shutdown` failed and handlers are still running.
    pub closed_for_good :
        (err : Option Error) (mvs' : List MainMove) (n : Main W)
        → m.phase ≡ stopped err
        → run_main grow parser publisher mvs' m ≡ some n
        → n.system.world ≡ m.system.world
    closed_for_good err mvs' n ended goes =
        let left = working_left err m.system (subst (λ p. PhaseLaw p m.system) ended lawful.law) in
        let here : IsEnded m.system.world m = record {
          err = err;
          phase_is = ended;
          over = record { left = left; same = refl };
        } in
        (subst (Yields (IsEnded m.system.world)) goes (
          run_main_keeps grow parser publisher (IsEnded m.system.world)
            (fire_main-IsEnded m.system.world) mvs' m here)).over.same
