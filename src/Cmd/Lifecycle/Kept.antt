-- ===== src/Cmd/Lifecycle/Kept.antt =====
-- What `main` and the goroutines beside it keep of the collector.
use api_observability_platfo.Base.{
  ℕ, ◌<◌, ◌≡◌, Bool, refl, ◌∙◌, Option, none, some, List, [], ◌++◌, Perm, arith, Bool-cases, inl,
  inr,
}
use mathlib.Core.Path.{subst}
use api_observability_platfo.Domain.{Error}
use api_observability_platfo.Contract.{Parser, Publisher}
use api_observability_platfo.Metrics.Total.{total}
use api_observability_platfo.Collector.Config.{BackpressureConfig}
use api_observability_platfo.Collector.Worker.{handle_each}
use api_observability_platfo.Collector.System.{System, Move, shut, start, fire}
use api_observability_platfo.Collector.System.Preserved.{Leads}
use api_observability_platfo.Collector.System.Settled.{is_working, working-exited}
use api_observability_platfo.Collector.System.Hands.{jobs_of}
use api_observability_platfo.Collector.System.Jobs.{
  IsShared, start-IsShared, fire-IsShared, shared_settled,
}
use api_observability_platfo.Collector.System.InTurn.{IsInTurn, fire-IsInTurn}
use api_observability_platfo.Cmd.Lifecycle.{
  Phase, waiting, stopped, draining, Main, MainMove, collect, leave_select, http_stopped,
  drain_over, wait_over, serving, stopping, admits, enter, fire_collect, fire_leave_select,
  fire_http_stopped, fire_drain_over, fire_wait_over, fire_main, run_main, serve,
}
use api_observability_platfo.Cmd.Lifecycle.Phases.{Yields, PhaseLaw}
use api_observability_platfo.Cmd.Lifecycle.Lawful.{run_main_keeps}
use api_observability_platfo.Cmd.Lifecycle.Exit.{lawful, working_left}

module _ {W : Type 0} (P : System W → Type 0) where
  abbrev pub On : Main W → Type 0
  On m = P m.system

  entered_keeps : (p : Phase) (o : Option (System W)) → Leads P o → Yields On (enter p o)
  unfolding enter
  entered_keeps p none h = tt
  entered_keeps p (some s) h = h

  left_keeps : (p : Phase) (s : System W) → P s → Yields On (fire_leave_select p s)
  unfolding fire_leave_select
  left_keeps serving s h = h
  left_keeps _ s h = tt

  http_keeps :
      (err : Option Error) (p : Phase) (s : System W) → P s → Yields On (fire_http_stopped err p s)
  unfolding fire_http_stopped
  http_keeps err stopping s h = ground (arith, h)
  http_keeps err _ s h = tt

  module _ (grow : ℕ → ℕ → ℕ) (parser : Parser) (publisher : Publisher W)
      (turn : (mv : Move) (s : System W) → P s → Leads P (fire grow parser publisher mv s))
      (closes : (s : System W) → P s → P (record s { world = (publisher.close s.world).1 })) where
    drain_keeps :
        (b : Bool) (p : Phase) (s : System W)
        → P s
        → Yields On (fire_drain_over grow parser publisher b p s)
    unfolding fire_drain_over
    drain_keeps b (draining err) s h = entered_keeps (waiting err) _ (turn (shut b) s h)
    drain_keeps b _ s h = tt

    wait_keeps :
        (p : Phase) (s : System W) → P s → Yields On (fire_wait_over grow parser publisher p s)
    unfolding fire_wait_over
    wait_keeps (waiting err) s h = ground (arith, closes s h)
    wait_keeps _ s h = tt

    collect_keeps :
        (mv : Move) (p : Phase) (s : System W)
        → P s
        → Yields On (fire_collect grow parser publisher mv p s)
    unfolding fire_collect
    collect_keeps mv p s h = elim (Bool-cases (admits p mv)) [
      | inl ok ↦ rw (ok, fire_collect) (entered_keeps p _ (turn mv s h))
      | inr other ↦ rw (other, fire_collect) tt
    ]

    fire_main_keeps :
        (mv : MainMove) (m : Main W) → On m → Yields On (fire_main grow parser publisher mv m)
    unfolding fire_main
    fire_main_keeps (collect mv) m h = collect_keeps mv m.phase m.system h
    fire_main_keeps leave_select m h = left_keeps m.phase m.system h
    fire_main_keeps (http_stopped err) m h = http_keeps err m.phase m.system h
    fire_main_keeps (drain_over b) m h = drain_keeps b m.phase m.system h
    fire_main_keeps wait_over m h = wait_keeps m.phase m.system h

    -- What the collector's moves and the close of the publisher keep, `main` keeps.
    pub main_keeps :
        (mvs : List MainMove) (m n : Main W)
        → run_main grow parser publisher mvs m ≡ some n
        → P m.system
        → P n.system
    main_keeps mvs m n ran h =
        subst (Yields On) ran (run_main_keeps grow parser publisher On fire_main_keeps mvs m h)

module _ {W : Type 0} (grow : ℕ → ℕ → ℕ) (parser : Parser) (publisher : Publisher W) (num_cpu : ℕ)
    (c : BackpressureConfig) (w : W) (mvs : List MainMove) (m : Main W)
    (ran : run_main grow parser publisher mvs (serve num_cpu c w) ≡ some m) where
  -- At the end of `main`, however `srv.Shutdown` has ended, every job that entered the channel was
  -- evicted or handled.
  pub settled_at_end :
      0 < num_cpu
      → (err : Option Error) → m.phase ≡ stopped err
      → Perm m.system.entered (m.system.evicted ++ jobs_of m.system.handled)
  unfolding serve
  settled_at_end processors err ended =
      let law = lawful grow parser publisher num_cpu c w processors mvs m ran in
      let left : total is_working m.system.workers ≡ 0 =
        working_left err m.system (subst (λ p. PhaseLaw p m.system) ended law.law) in
      shared_settled m.system
        (main_keeps IsShared grow parser publisher (fire-IsShared grow parser publisher)
          (λ s h. record { shared = h.shared }) mvs _ m ran (start-IsShared num_cpu c w))
        law.accounts (omega (arith, left, working-exited m.system.workers))

  -- If the close of the publisher leaves its world alone, that is what handling the handled jobs in
  -- turn makes of it.
  pub published_by_main :
      ((v : W) → (publisher.close v).1 ≡ v)
      → m.system.world ≡ (handle_each parser publisher m.system.handled [] w).1
  unfolding serve start handle_each
  published_by_main quiet =
      (main_keeps (IsInTurn parser publisher w) grow parser publisher
        (fire-IsInTurn grow parser publisher w) (λ s h. record { same = quiet s.world ∙ h.same })
        mvs _ m ran (record { same = refl })).same
