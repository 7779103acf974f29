-- ===== src/Collector/System/Settled.antt =====
-- Two ends of the collector's life: no call of `Ingest` is running, and all workers have left.
use api_observability_platfo.Base.{
  ℕ, ◌+◌, ◌≡◌, refl, Bool, Option, some, List, [], ◌∷◌, arith, length, get_elem?,
}
use api_observability_platfo.Metrics.Total.{total, total-set}
use api_observability_platfo.Collector.Chan.{try_receive}
use api_observability_platfo.Collector.Service.{IngestTimes, record_accepted, observe_depth}
use api_observability_platfo.Collector.Enqueue.{Producer, sending, accepted, refused, done}
use api_observability_platfo.Collector.System.{
  System, Worker, idle, busy, exited, Move, shut, fire_advance, fire_conclude, fire_take,
  fire_receive, fire_shut,
}
use api_observability_platfo.Collector.System.Invariant.{is_exited}
use api_observability_platfo.Collector.System.Selects.{select_law}
use api_observability_platfo.Collector.System.Preserved.{Leads}
use api_observability_platfo.Collector.System.Calls.{is_crashed, Spares}

-- A call of `Ingest` that has neither returned nor panicked.
abbrev pub is_running : Producer → ℕ
is_running (sending pc j) = 1
is_running accepted = 1
is_running refused = 1
is_running _ = 0

-- A worker that is still in its loop.
abbrev pub is_working : Worker → ℕ
is_working exited = 0
is_working _ = 1

pub working-exited : (ws : List Worker) → total is_working ws + total is_exited ws ≡ length ws
working-exited [] = omega arith
working-exited (idle ∷ ws) = omega (arith, working-exited ws)
working-exited (busy j ∷ ws) = omega (arith, working-exited ws)
working-exited (exited ∷ ws) = omega (arith, working-exited ws)

abbrev pub IsNoShut : Move → Type 0
IsNoShut (shut b) = ⊥
IsNoShut _ = Unit

module _ {W : Type 0} where
  -- Every call has returned, none by a panic, and no eviction has taken a zero job.
  pub record IsSettled (s : System W) : Type 0 where
    pub over : total is_running s.producers ≡ 0
    pub unharmed : total is_crashed s.producers ≡ 0
    pub exact : s.phantoms ≡ 0

  pub spared-IsSettled : (s t : System W) → IsSettled s → Spares s t → IsSettled t
  spared-IsSettled s t h k = record {
    over = rw k.same h.over;
    unharmed = rw k.same h.unharmed;
    exact = rw k.same_phantoms h.exact;
  }

  pub advance-IsSettled :
      (i : ℕ) (o : Option Producer) (s : System W)
      → get_elem? s.producers i ≡ o
      → IsSettled s
      → Leads IsSettled (fire_advance i o s)
  unfolding fire_advance
  advance-IsSettled i (some (sending pc j)) s e h =
      absurd (omega (arith, h.over, total-set is_running s.producers i done (sending pc j) e))
  advance-IsSettled i _ s e h = tt

  pub conclude-IsSettled :
      (t : IngestTimes) (i : ℕ) (o : Option Producer) (s : System W)
      → get_elem? s.producers i ≡ o
      → IsSettled s
      → Leads IsSettled (fire_conclude t i o s)
  unfolding fire_conclude
  conclude-IsSettled t i (some accepted) s e h =
      absurd (omega (arith, h.over, total-set is_running s.producers i done accepted e))
  conclude-IsSettled t i (some refused) s e h =
      absurd (omega (arith, h.over, total-set is_running s.producers i done refused e))
  conclude-IsSettled t i _ s e h = tt

  -- All workers have left, and the world is `w`.
  pub record IsOver (w : W) (s : System W) : Type 0 where
    pub left : total is_working s.workers ≡ 0
    pub same : s.world ≡ w

  pub advance-IsOver :
      (w : W) (i : ℕ) (o : Option Producer) (s : System W)
      → IsOver w s
      → Leads (IsOver w) (fire_advance i o s)
  unfolding fire_advance
  advance-IsOver w i (some (sending pc j)) s h = record { left = h.left; same = h.same }
  advance-IsOver w i _ s h = tt

  pub conclude-IsOver :
      (w : W) (t : IngestTimes) (i : ℕ) (o : Option Producer) (s : System W)
      → IsOver w s
      → Leads (IsOver w) (fire_conclude t i o s)
  unfolding fire_conclude record_accepted observe_depth
  conclude-IsOver w t i (some accepted) s h = record { left = h.left; same = h.same }
  conclude-IsOver w t i (some refused) s h = record { left = h.left; same = h.same }
  conclude-IsOver w t i _ s h = tt

  pub take-IsOver :
      (w : W) (i : ℕ) (o : Option Worker) (s : System W)
      → get_elem? s.workers i ≡ o
      → IsOver w s
      → Leads (IsOver w) (fire_take i o s)
  unfolding fire_take
  take-IsOver w i (some idle) s e h =
      absurd (omega (arith, h.left, total-set is_working s.workers i exited idle e))
  take-IsOver w i _ s e h = tt

  pub shut-IsOver :
      (w : W) (b : Bool) (s : System W) → IsOver w s → Leads (IsOver w) (fire_shut b s)
  unfolding fire_shut
  shut-IsOver w b s h = ground (arith, h)

  -- A channel that was open stays so, and one that was closed too.
  abbrev pub Alike : System W → System W → Type 0
  Alike s t = t.service.ch.closed ≡ s.service.ch.closed

  pub advance-Alike :
      (i : ℕ) (o : Option Producer) (s : System W) → Leads (Alike s) (fire_advance i o s)
  unfolding fire_advance
  advance-Alike i (some (sending pc j)) s = (select_law pc j s.service).same_closed
  advance-Alike i _ s = tt

  pub conclude-Alike :
      (t : IngestTimes) (i : ℕ) (o : Option Producer) (s : System W)
      → Leads (Alike s) (fire_conclude t i o s)
  unfolding fire_conclude record_accepted observe_depth
  conclude-Alike t i (some accepted) s = refl
  conclude-Alike t i (some refused) s = refl
  conclude-Alike t i _ s = tt

  pub take-Alike : (i : ℕ) (o : Option Worker) (s : System W) → Leads (Alike s) (fire_take i o s)
  unfolding fire_take fire_receive try_receive
  take-Alike i o s = ground arith
