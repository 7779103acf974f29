-- ===== src/Cmd/Lifecycle/Lawful.antt =====
-- Every move keeps what holds in the phases of `main`.
use api_observability_platfo.Base.{
  ℕ, ◌≡◌, refl, ◌∙◌, Bool, true, false, Option, none, some, List, [], ◌∷◌, arith, leb, inl, inr,
  Bool-cases, Option-cases,
}
use mathlib.Core.Path.{subst}
use api_observability_platfo.Domain.{Error}
use api_observability_platfo.Contract.{Parser, Publisher}
use api_observability_platfo.Metrics.Total.{total}
use api_observability_platfo.Collector.System.{System, Move, shut, fire}
use api_observability_platfo.Collector.System.Invariant.{Inv}
use api_observability_platfo.Collector.System.Preserved.{leads_to}
use api_observability_platfo.Collector.System.Accounts.{fire-Inv}
use api_observability_platfo.Collector.System.Calls.{IsNoArrival, IsCalm}
use api_observability_platfo.Collector.System.Crashes.{fire-IsCalm}
use api_observability_platfo.Collector.System.Settled.{
  is_working, IsNoShut, IsSettled, IsOver, Alike,
}
use api_observability_platfo.Collector.System.Ends.{fire-IsSettled, fire-IsOver, fire-Alike}
use api_observability_platfo.Cmd.Lifecycle.{
  Phase, serving, stopping, draining, waiting, stopped, Main, MainMove, collect, leave_select,
  http_stopped, drain_over, wait_over, admits, enter, fire_collect, fire_drain_over, fire_wait_over,
  fire_main, run_main,
}
use api_observability_platfo.Cmd.Lifecycle.Phases.{
  Yields, admits-IsNoShut, admits-IsNoArrival, PhaseLaw, IsLawful, leave_select-IsLawful,
  http_stopped-IsLawful,
}

module _ {W : Type 0} (grow : ℕ → ℕ → ℕ) (parser : Parser) (publisher : Publisher W) where
  module _ (mv : Move) (s t : System W) (fired : fire grow parser publisher mv s ≡ some t) where
    still_alive : IsNoShut mv → s.service.ch.closed ≡ false → t.service.ch.closed ≡ false
    still_alive own alive =
        leads_to (Alike s) (fire-Alike grow parser publisher mv s own) fired ∙ alive

    still-IsSettled : IsNoArrival mv → IsSettled s → IsSettled t
    still-IsSettled own h =
        leads_to IsSettled (fire-IsSettled grow parser publisher mv s own h) fired

    still_over : total is_working s.workers ≡ 0 → total is_working t.workers ≡ 0
    still_over h =
        (leads_to (IsOver s.world)
          (fire-IsOver grow parser publisher s.world mv s (record { left = h; same = refl }))
          fired).left

    collect-PhaseLaw : (p : Phase) → admits p mv ≡ true → PhaseLaw p s → PhaseLaw p t
    collect-PhaseLaw serving ok h = still_alive (admits-IsNoShut serving mv ok) h
    collect-PhaseLaw stopping ok h = still_alive (admits-IsNoShut stopping mv ok) h
    collect-PhaseLaw (draining none) ok h = (
      still_alive (admits-IsNoShut (draining none) mv ok) h.0,
      still-IsSettled (admits-IsNoArrival (draining none) mv refl ok) h.1,
    )
    collect-PhaseLaw (draining (some e)) ok h =
        still_alive (admits-IsNoShut (draining (some e)) mv ok) h
    collect-PhaseLaw (waiting none) ok h =
        still-IsSettled (admits-IsNoArrival (waiting none) mv refl ok) h
    collect-PhaseLaw (waiting (some e)) ok h = tt
    collect-PhaseLaw (stopped none) ok h =
        (still-IsSettled (admits-IsNoArrival (stopped none) mv refl ok) h.0, still_over h.1)
    collect-PhaseLaw (stopped (some e)) ok h = still_over h

  -- A move of the collector that brings it to a state with the law of the phase is lawful.
  entered-IsLawful :
      (mv : Move) (p q : Phase) (s : System W) (o : Option (System W))
      → fire grow parser publisher mv s ≡ o
      → ((t : System W) → fire grow parser publisher mv s ≡ some t → PhaseLaw q t)
      → IsLawful (record { phase = p; system = s })
      → Yields IsLawful (enter q o)
  unfolding enter
  entered-IsLawful mv p q s none e law h = tt
  entered-IsLawful mv p q s (some t) e law h = record {
    accounts = leads_to Inv (fire-Inv grow parser publisher mv s h.accounts) e;
    calm = leads_to IsCalm (fire-IsCalm grow parser publisher mv s h.calm) e;
    law = law t e;
  }

  pub collect-IsLawful :
      (mv : Move) (p : Phase) (s : System W)
      → IsLawful (record { phase = p; system = s })
      → Yields IsLawful (fire_collect grow parser publisher mv p s)
  unfolding fire_collect
  collect-IsLawful mv p s h = elim (Bool-cases (admits p mv)) [
    | inl ok ↦
        rw (ok, fire_collect)
          (entered-IsLawful mv p p s _ refl (λ t e. collect-PhaseLaw mv s t e p ok h.law) h)
    | inr other ↦ rw (other, fire_collect) tt
  ]

  -- The close keeps what the calls have settled.
  waiting_law :
      (b : Bool) (err : Option Error) (s t : System W)
      → fire grow parser publisher (shut b) s ≡ some t
      → PhaseLaw (draining err) s
      → PhaseLaw (waiting err) t
  waiting_law b none s t e h = still-IsSettled (shut b) s t e tt h.1
  waiting_law b (some x) s t e h = tt

  drain_over-IsLawful :
      (b : Bool) (p : Phase) (s : System W)
      → IsLawful (record { phase = p; system = s })
      → Yields IsLawful (fire_drain_over grow parser publisher b p s)
  unfolding fire_drain_over
  drain_over-IsLawful b (draining err) s h =
      entered-IsLawful (shut b) (draining err) (waiting err) s _ refl
        (λ t e. waiting_law b err s t e h.law) h
  drain_over-IsLawful b _ s h = tt

  stopped_law :
      (err : Option Error) (s : System W) (w : W)
      → total is_working s.workers ≡ 0
      → PhaseLaw (waiting err) s
      → PhaseLaw (stopped err) (record s { world = w })
  stopped_law none s w left h =
      (record { over = h.over; unharmed = h.unharmed; exact = h.exact }, left)
  stopped_law (some e) s w left h = left

  wait_over-IsLawful :
      (p : Phase) (s : System W)
      → IsLawful (record { phase = p; system = s })
      → Yields IsLawful (fire_wait_over grow parser publisher p s)
  unfolding fire_wait_over
  wait_over-IsLawful (waiting err) s h = elim (Bool-cases (leb (total is_working s.workers) 0)) [
    | inl all ↦
        let w = (publisher.close s.world).1 in
        rw (all, fire_wait_over)
          (record {
            accounts = ground (arith, h.accounts);
            calm = record { calm = h.calm.calm };
            law = stopped_law err s w (ground arith) h.law;
          })
    | inr some_left ↦ rw (some_left, fire_wait_over) tt
  ]
  wait_over-IsLawful _ s h = tt

  fire_main-IsLawful :
      (mv : MainMove) (m : Main W)
      → IsLawful m
      → Yields IsLawful (fire_main grow parser publisher mv m)
  unfolding fire_main
  fire_main-IsLawful (collect mv) m h = collect-IsLawful mv m.phase m.system h
  fire_main-IsLawful leave_select m h = leave_select-IsLawful m.phase m.system h
  fire_main-IsLawful (http_stopped err) m h = http_stopped-IsLawful err m.phase m.system h
  fire_main-IsLawful (drain_over b) m h = drain_over-IsLawful b m.phase m.system h
  fire_main-IsLawful wait_over m h = wait_over-IsLawful m.phase m.system h

  -- What every move keeps, a run keeps.
  pub run_main_keeps :
      (P : Main W → Type 0)
      → ((mv : MainMove) (m : Main W) → P m → Yields P (fire_main grow parser publisher mv m))
      → (mvs : List MainMove) (m : Main W) → P m
      → Yields P (run_main grow parser publisher mvs m)
  unfolding run_main
  run_main_keeps P turn [] m h = h
  run_main_keeps P turn (mv ∷ mvs) m h =
      elim (Option-cases (fire_main grow parser publisher mv m)) [
        | inl e ↦ rw (e, run_main) tt
        | inr (n, e) ↦
            rw (e, run_main) (run_main_keeps P turn mvs n (subst (Yields P) e (turn mv m h)))
      ]

  pub run_main-IsLawful :
      (mvs : List MainMove) (m : Main W)
      → IsLawful m
      → Yields IsLawful (run_main grow parser publisher mvs m)
  run_main-IsLawful mvs m h = run_main_keeps IsLawful fire_main-IsLawful mvs m h
