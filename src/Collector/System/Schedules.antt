-- ===== src/Collector/System/Schedules.antt =====
-- What every move of the collector keeps, a schedule keeps.
use api_observability_platfo.Base.{ℕ, ◌≡◌, some, List, [], ◌∷◌, Option-cases, inl, inr, All}
use api_observability_platfo.Contract.{Parser, Publisher}
use api_observability_platfo.Collector.System.{System, Move, fire, run}
use api_observability_platfo.Collector.System.Preserved.{Leads, leads_to}

module _ {W : Type 0} (grow : ℕ → ℕ → ℕ) (parser : Parser) (publisher : Publisher W) where
  -- What every allowed move keeps, a run of such moves keeps.
  pub run_keeps :
      (P : System W → Type 0) (Allowed : Move → Type 0)
      → ((mv : Move) (s : System W) → Allowed mv → P s → Leads P (fire grow parser publisher mv s))
      → (mvs : List Move) (s : System W) → All Allowed mvs
      → P s
      → Leads P (run grow parser publisher mvs s)
  unfolding run
  run_keeps P Allowed turn [] s own h = h
  run_keeps P Allowed turn (mv ∷ mvs) s own h =
      elim (Option-cases (fire grow parser publisher mv s)) [
        | inl e ↦ rw (e, run) tt
        | inr (t, e) ↦
            rw (e, run) (run_keeps P Allowed turn mvs t own.1 (leads_to P (turn mv s own.0 h) e))
      ]

  any_moves : (mvs : List Move) → All (λ mv. Unit {0}) mvs
  any_moves [] = tt
  any_moves (mv ∷ mvs) = (tt, any_moves mvs)

  -- What every move keeps holds wherever a run has come.
  pub always :
      (P : System W → Type 0)
      → ((mv : Move) (s : System W) → P s → Leads P (fire grow parser publisher mv s))
      → (mvs : List Move) (s t : System W) → run grow parser publisher mvs s ≡ some t
      → P s
      → P t
  always P turn mvs s t ran h =
      leads_to P (run_keeps P (λ mv. Unit) (λ mv s own h. turn mv s h) mvs s (any_moves mvs) h) ran
