-- ===== src/Cmd/Lifecycle/Phases.antt =====
-- What holds of the collector in every phase of `main`, and that leaving the `select` and the return
-- of `srv.Shutdown` keep it.
use api_observability_platfo.Base.{
  ◌≡◌, true, false, ◌||◌, Option, none, some, arith, leb, inl, inr, Bool-cases,
}
use api_observability_platfo.Domain.{Error, is_err}
use api_observability_platfo.Metrics.Total.{total}
use api_observability_platfo.Collector.System.{System, Move, arrive, shut}
use api_observability_platfo.Collector.System.Invariant.{Inv}
use api_observability_platfo.Collector.System.Calls.{IsNoArrival, IsCalm}
use api_observability_platfo.Collector.System.Settled.{is_running, is_working, IsNoShut, IsSettled}
use api_observability_platfo.Cmd.Lifecycle.{
  Phase, serving, stopping, draining, waiting, stopped, Main, takes_calls, admits,
  fire_leave_select, fire_http_stopped,
}

abbrev pub Yields {ℓ κ} : {A : Type ℓ} → (A → Type κ) → Option A → Type κ
Yields P none = Unit
Yields P (some a) = P a

pub admits-IsNoShut : (p : Phase) (mv : Move) → admits p mv ≡ true → IsNoShut mv
admits-IsNoShut p (shut b) h = cc
admits-IsNoShut p _ h = tt

pub admits-IsNoArrival :
    (p : Phase) (mv : Move) → takes_calls p ≡ false → admits p mv ≡ true → IsNoArrival mv
admits-IsNoArrival p (arrive r) none_taken h = cc
admits-IsNoArrival p _ none_taken h = tt

module _ {W : Type 0} where
  -- Until `svc.Shutdown` closes it the channel is open; behind a `srv.Shutdown` that returned nil
  -- all calls have returned; and when `main` is through, all workers have left.
  abbrev pub PhaseLaw : Phase → System W → Type 0
  PhaseLaw serving s = s.service.ch.closed ≡ false
  PhaseLaw stopping s = s.service.ch.closed ≡ false
  PhaseLaw (draining none) s = (s.service.ch.closed ≡ false) × IsSettled s
  PhaseLaw (draining (some e)) s = s.service.ch.closed ≡ false
  PhaseLaw (waiting none) s = IsSettled s
  PhaseLaw (waiting (some e)) s = Unit
  PhaseLaw (stopped none) s = IsSettled s × (total is_working s.workers ≡ 0)
  PhaseLaw (stopped (some e)) s = total is_working s.workers ≡ 0

  pub record IsLawful (m : Main W) : Type 0 where
    pub accounts : Inv m.system
    pub calm : IsCalm m.system
    pub law : PhaseLaw m.phase m.system

  pub draining_alive :
      (err : Option Error) (s : System W) → PhaseLaw (draining err) s → s.service.ch.closed ≡ false
  draining_alive none s h = h.0
  draining_alive (some e) s h = h

  pub leave_select-IsLawful :
      (p : Phase) (s : System W)
      → IsLawful (record { phase = p; system = s })
      → Yields IsLawful (fire_leave_select p s)
  unfolding fire_leave_select
  leave_select-IsLawful serving s h = record { accounts = h.accounts; calm = h.calm; law = h.law }
  leave_select-IsLawful _ s h = tt

  drained_by :
      (err : Option Error) (s : System W)
      → (is_err err || leb (total is_running s.producers) 0) ≡ true
      → IsLawful (record { phase = stopping; system = s })
      → PhaseLaw (draining err) s
  drained_by none s quiet h = (
    h.law,
    record {
      over = ground arith;
      unharmed = h.calm.calm h.law;
      exact = h.accounts.open_exact h.law;
    },
  )
  drained_by (some e) s quiet h = h.law

  pub http_stopped-IsLawful :
      (err : Option Error) (p : Phase) (s : System W)
      → IsLawful (record { phase = p; system = s })
      → Yields IsLawful (fire_http_stopped err p s)
  unfolding fire_http_stopped
  http_stopped-IsLawful err stopping s h =
      elim (Bool-cases (is_err err || leb (total is_running s.producers) 0)) [
        | inl ok ↦
            rw (ok, fire_http_stopped)
              (record { accounts = h.accounts; calm = h.calm; law = drained_by err s ok h })
        | inr blocked ↦ rw (blocked, fire_http_stopped) tt
      ]
  http_stopped-IsLawful err _ s h = tt
