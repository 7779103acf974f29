-- ===== src/Collector/System/Hands.antt =====
-- The jobs that the workers have taken and not yet handled.
use mathlib.Core.List.Perm
use api_observability_platfo.Base.{
  zero, suc, ℕ, ◌≡◌, refl, sym, ap, some, List, [], ◌∷◌, ◌++◌, map, Perm, get_elem?, set, replicate,
  alike, swap_front, arith,
}
use api_observability_platfo.Collector.Service.{IngestJob}
use api_observability_platfo.Collector.Worker.{Task}
use api_observability_platfo.Collector.System.{Worker, idle, busy, exited}
use api_observability_platfo.Collector.System.Invariant.{is_busy}
use api_observability_platfo.Metrics.Total.{total}

-- The job that a worker has taken and not yet handled.
abbrev pub held : Worker → List IngestJob
held (busy j) = j ∷ []
held _ = []

abbrev pub in_hand : List Worker → List IngestJob
in_hand [] = []
in_hand (w ∷ ws) = held w ++ in_hand ws

abbrev pub jobs_of : List Task → List IngestJob
jobs_of = map (λ x. x.1)

same_head : {x y : Worker} → some y ≡ some x → y ≡ x
same_head h = cc

pub in_hand-set :
    (ws : List Worker) (i : ℕ) (v x : Worker)
    → get_elem? ws i ≡ some x
    → Perm (held x ++ in_hand (set ws i v)) (held v ++ in_hand ws)
in_hand-set [] i v x h = cc
in_hand-set (y ∷ ws) zero v x h =
    Perm.trans (swap_front (held x) (held v) (in_hand ws))
      (Perm.append_left (held v) (alike (ap (λ w. held w ++ in_hand ws) (sym (same_head h)))))
in_hand-set (y ∷ ws) (suc i) v x h =
    Perm.trans (swap_front (held x) (held y) (in_hand (set ws i v))) (
      Perm.trans (Perm.append_left (held y) (in_hand-set ws i v x h))
        (swap_front (held y) (held v) (in_hand ws)))

pub in_hand-replicate : (n : ℕ) → in_hand (replicate n idle) ≡ []
in_hand-replicate zero = refl
in_hand-replicate (suc n) = in_hand-replicate n

pub in_hand_none : (ws : List Worker) → total is_busy ws ≡ 0 → in_hand ws ≡ []
in_hand_none [] h = refl
in_hand_none (idle ∷ ws) h = in_hand_none ws (omega (arith, h))
in_hand_none (busy j ∷ ws) h = absurd (omega (arith, h))
in_hand_none (exited ∷ ws) h = in_hand_none ws (omega (arith, h))
