-- ===== src/Collector/System/Ends.antt =====
-- What the moves of the collector keep once its calls are over or its workers have left.
use api_observability_platfo.Base.{
  ℕ, ◌≡◌, refl, true, false, Option, some, List, [], ◌∷◌, arith, get_elem?,
}
use api_observability_platfo.Contract.{Parser, Publisher}
use api_observability_platfo.Metrics.Total.{total-set}
use api_observability_platfo.Collector.Chan.{close}
use api_observability_platfo.Collector.Service.{Request}
use api_observability_platfo.Collector.Worker.{HandleTimes}
use api_observability_platfo.Collector.System.{
  System, Worker, busy, exited, Move, arrive, advance, conclude, take_job, handle, shut, fire,
  fire_arrive, fire_handle, fire_shut,
}
use api_observability_platfo.Collector.System.Preserved.{Leads}
use api_observability_platfo.Collector.System.Calls.{IsNoArrival, take-Spares, shut-Spares}
use api_observability_platfo.Collector.System.Crashes.{spared_any, handle-Spares}
use api_observability_platfo.Collector.System.Settled.{
  IsNoShut, IsSettled, spared-IsSettled, advance-IsSettled, conclude-IsSettled, IsOver,
  advance-IsOver, conclude-IsOver, take-IsOver, shut-IsOver, is_working, Alike, advance-Alike,
  conclude-Alike, take-Alike,
}

module _ {W : Type 0} (grow : ℕ → ℕ → ℕ) (parser : Parser) (publisher : Publisher W) where
  pub fire-IsSettled :
      (mv : Move) (s : System W)
      → IsNoArrival mv
      → IsSettled s
      → Leads IsSettled (fire grow parser publisher mv s)
  unfolding fire
  fire-IsSettled (arrive r) s own h = absurd own
  fire-IsSettled (advance i) s own h = advance-IsSettled i (get_elem? s.producers i) s refl h
  fire-IsSettled (conclude t i) s own h = conclude-IsSettled t i (get_elem? s.producers i) s refl h
  fire-IsSettled (take_job i) s own h =
      spared_any grow parser publisher IsSettled s _ (λ t. spared-IsSettled s t h)
        (take-Spares i (get_elem? s.workers i) s)
  fire-IsSettled (handle t i) s own h =
      spared_any grow parser publisher IsSettled s _ (λ u. spared-IsSettled s u h)
        (handle-Spares grow parser publisher t i (get_elem? s.workers i) s)
  fire-IsSettled (shut b) s own h =
      spared_any grow parser publisher IsSettled s _ (λ t. spared-IsSettled s t h) (shut-Spares b s)

  arrive-IsOver :
      (w : W) (r : Request) (raw : List ℕ) (s : System W)
      → IsOver w s
      → IsOver w (fire_arrive grow parser publisher r raw s)
  unfolding fire_arrive
  arrive-IsOver w r [] s h = record { left = h.left; same = h.same }
  arrive-IsOver w r (b ∷ raw) s h = record { left = h.left; same = h.same }

  handle-IsOver :
      (w : W) (t : HandleTimes) (i : ℕ) (o : Option Worker) (s : System W)
      → get_elem? s.workers i ≡ o
      → IsOver w s
      → Leads (IsOver w) (fire_handle grow parser publisher t i o s)
  unfolding fire_handle
  handle-IsOver w t i (some (busy j)) s e h =
      absurd (omega (arith, h.left, total-set is_working s.workers i exited (busy j) e))
  handle-IsOver w t i _ s e h = tt

  -- When the workers have left, no move publishes.
  pub fire-IsOver :
      (w : W) (mv : Move) (s : System W)
      → IsOver w s
      → Leads (IsOver w) (fire grow parser publisher mv s)
  unfolding fire
  fire-IsOver w (arrive r) s h = arrive-IsOver w r r.raw s h
  fire-IsOver w (advance i) s h = advance-IsOver w i (get_elem? s.producers i) s h
  fire-IsOver w (conclude t i) s h = conclude-IsOver w t i (get_elem? s.producers i) s h
  fire-IsOver w (take_job i) s h = take-IsOver w i (get_elem? s.workers i) s refl h
  fire-IsOver w (handle t i) s h = handle-IsOver w t i (get_elem? s.workers i) s refl h
  fire-IsOver w (shut b) s h = shut-IsOver w b s h

  arrive-Alike :
      (r : Request) (raw : List ℕ) (s : System W)
      → Alike s (fire_arrive grow parser publisher r raw s)
  unfolding fire_arrive
  arrive-Alike r [] s = refl
  arrive-Alike r (b ∷ raw) s = refl

  handle-Alike :
      (t : HandleTimes) (i : ℕ) (o : Option Worker) (s : System W)
      → Leads (Alike s) (fire_handle grow parser publisher t i o s)
  unfolding fire_handle
  handle-Alike t i (some (busy j)) s = refl
  handle-Alike t i _ s = tt

  -- Only `Shutdown` closes the channel.
  pub fire-Alike :
      (mv : Move) (s : System W) → IsNoShut mv → Leads (Alike s) (fire grow parser publisher mv s)
  unfolding fire
  fire-Alike (arrive r) s own = arrive-Alike r r.raw s
  fire-Alike (advance i) s own = advance-Alike i (get_elem? s.producers i) s
  fire-Alike (conclude t i) s own = conclude-Alike t i (get_elem? s.producers i) s
  fire-Alike (take_job i) s own = take-Alike i (get_elem? s.workers i) s
  fire-Alike (handle t i) s own = handle-Alike t i (get_elem? s.workers i) s
  fire-Alike (shut b) s own = absurd own

  -- `Shutdown` whose context is done closes the channel at once.
  pub closed_now :
      (s : System W)
      → s.service.ch.closed ≡ false
      → fire grow parser publisher (shut true) s
        ≡ some (record s { service = record s.service { ch = close s.service.ch } })
  unfolding fire fire_shut
  closed_now s alive = ground arith
