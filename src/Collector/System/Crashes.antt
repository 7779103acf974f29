-- ===== src/Collector/System/Crashes.antt =====
-- Runs of the collector and the calls of `Ingest` that panic in them.
use api_observability_platfo.Base.{
  ℕ, ◌≡◌, refl, false, Option, none, some, List, [], ◌∷◌, arith, get_elem?,
}
use api_observability_platfo.Contract.{Parser, Publisher}
use api_observability_platfo.Metrics.Total.{total, total-append}
use api_observability_platfo.Collector.Config.{BackpressureConfig}
use api_observability_platfo.Collector.Pool.{copy_payload}
use api_observability_platfo.Collector.Service.{Request}
use api_observability_platfo.Collector.Worker.{HandleTimes}
use api_observability_platfo.Collector.Enqueue.{entry, sending}
use api_observability_platfo.Collector.System.{
  System, Worker, busy, Move, arrive, advance, conclude, take_job, handle, shut, start, fire,
  fire_arrive, fire_handle, run,
}
use api_observability_platfo.Collector.System.Preserved.{Leads}
use api_observability_platfo.Collector.System.Schedules.{always}
use api_observability_platfo.Collector.System.Calls.{
  is_crashed, IsCalm, Spares, spared-IsCalm, take-Spares, shut-Spares, advance_any-IsCalm,
  conclude-IsCalm,
}

module _ {W : Type 0} (grow : ℕ → ℕ → ℕ) (parser : Parser) (publisher : Publisher W) where
  pub handle-Spares :
      (t : HandleTimes) (i : ℕ) (o : Option Worker) (s : System W)
      → Leads (Spares s) (fire_handle grow parser publisher t i o s)
  unfolding fire_handle
  handle-Spares t i (some (busy j)) s = record { same = refl; stays = λ o. o; same_phantoms = refl }
  handle-Spares t i _ s = tt

  pub spared_any :
      (P : System W → Type 0) (s : System W) (o : Option (System W))
      → ((t : System W) → Spares s t → P t)
      → Leads (Spares s) o
      → Leads P o
  spared_any P s none f h = tt
  spared_any P s (some t) f h = f t h

  arrive-IsCalm :
      (r : Request) (raw : List ℕ) (s : System W)
      → IsCalm s
      → IsCalm (fire_arrive grow parser publisher r raw s)
  unfolding fire_arrive
  arrive-IsCalm r [] s h = record { calm = h.calm }
  arrive-IsCalm r (b ∷ raw) s h =
      let (payload, bp) = copy_payload grow r.pick (b ∷ raw) s.service.bp in
      let newcomer =
        sending (entry s.service.drop_policy)
          (record { payload = payload; accept_at = r.times.start; source_tag = "http" }) in
      record {
        calm = λ o. omega (arith, h.calm o, total-append is_crashed s.producers (newcomer ∷ []));
      }

  pub fire-IsCalm :
      (mv : Move) (s : System W) → IsCalm s → Leads IsCalm (fire grow parser publisher mv s)
  unfolding fire
  fire-IsCalm (arrive r) s h = arrive-IsCalm r r.raw s h
  fire-IsCalm (advance i) s h = advance_any-IsCalm i (get_elem? s.producers i) s refl h
  fire-IsCalm (conclude t i) s h = conclude-IsCalm t i (get_elem? s.producers i) s refl h
  fire-IsCalm (take_job i) s h =
      spared_any IsCalm s _ (λ t. spared-IsCalm s t h) (take-Spares i (get_elem? s.workers i) s)
  fire-IsCalm (handle t i) s h =
      spared_any IsCalm s _ (λ u. spared-IsCalm s u h) (handle-Spares t i (get_elem? s.workers i) s)
  fire-IsCalm (shut b) s h = spared_any IsCalm s _ (λ t. spared-IsCalm s t h) (shut-Spares b s)

  module _ (num_cpu : ℕ) (c : BackpressureConfig) (w : W) (mvs : List Move) (s : System W)
      (ran : run grow parser publisher mvs (start num_cpu c w) ≡ some s) where
    reached-IsCalm : IsCalm s
    unfolding start
    reached-IsCalm =
        always grow parser publisher IsCalm fire-IsCalm mvs (start num_cpu c w) s ran
          (record { calm = λ o. refl })

    -- Under every interleaving, while the channel is open no call of `Ingest` has panicked.
    pub open_unharmed : s.service.ch.closed ≡ false → total is_crashed s.producers ≡ 0
    open_unharmed alive = reached-IsCalm.calm alive
