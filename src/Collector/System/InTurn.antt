-- ===== src/Collector/System/InTurn.antt =====
-- However requests and workers are interleaved, the workers publish what one worker would publish
-- that handles the same jobs in turn.
use api_observability_platfo.Base.{
  ℕ, ◌≡◌, refl, sym, ap, ◌∙◌, Bool, Option, some, List, [], ◌∷◌, ◌++◌, arith, get_elem?,
}
use api_observability_platfo.Contract.{Parser, Publisher}
use api_observability_platfo.Metrics.Collector.{Metric}
use api_observability_platfo.Collector.Chan.{try_receive}
use api_observability_platfo.Collector.Config.{BackpressureConfig}
use api_observability_platfo.Collector.Service.{IngestJob, Request, IngestTimes}
use api_observability_platfo.Collector.Worker.{handle_each, HandleTimes, Task, handle_job}
use api_observability_platfo.Collector.Enqueue.{Producer, sending, accepted, refused}
use api_observability_platfo.Collector.System.{
  System, Worker, busy, Move, arrive, advance, conclude, take_job, handle, shut, start, fire,
  fire_arrive, fire_advance, fire_conclude, fire_take, fire_receive, fire_shut, fire_handle, run,
}
use api_observability_platfo.Collector.System.Preserved.{Leads}
use api_observability_platfo.Collector.System.Schedules.{always}

module _ {W : Type 0} (parser : Parser) (publisher : Publisher W) where
  -- What a worker publishes does not depend on the counters.
  job_world :
      (t : HandleTimes) (j : IngestJob) (m m' : List Metric) (w : W)
      → (handle_job parser publisher t j m w).1 ≡ (handle_job parser publisher t j m' w).1
  unfolding handle_job
  job_world t j m m' w = ground arith

  -- One more job at the end.
  handle_each-snoc :
      (js : List Task) (t : HandleTimes) (j : IngestJob) (m m' : List Metric) (w : W)
      → (handle_each parser publisher (js ++ (t, j) ∷ []) m w).1
        ≡ (handle_job parser publisher t j m' (handle_each parser publisher js m w).1).1
  unfolding handle_each
  handle_each-snoc [] t j m m' w = job_world t j m m' w
  handle_each-snoc ((t', j') ∷ js) t j m m' w =
      let (n, v) = handle_job parser publisher t' j' m w in handle_each-snoc js t j n m' v

  -- The world is what handling these jobs in turn makes of the first world.
  pub record IsInTurn (w : W) (s : System W) : Type 0 where
    pub same : s.world ≡ (handle_each parser publisher s.handled [] w).1

  -- Moves without a publication.
  advance-IsInTurn :
      (w : W) (i : ℕ) (o : Option Producer) (s : System W)
      → IsInTurn w s
      → Leads (IsInTurn w) (fire_advance i o s)
  unfolding fire_advance
  advance-IsInTurn w i (some (sending pc j)) s h = record { same = h.same }
  advance-IsInTurn w i _ s h = tt

  conclude-IsInTurn :
      (w : W) (t : IngestTimes) (i : ℕ) (o : Option Producer) (s : System W)
      → IsInTurn w s
      → Leads (IsInTurn w) (fire_conclude t i o s)
  unfolding fire_conclude
  conclude-IsInTurn w t i (some accepted) s h = record { same = h.same }
  conclude-IsInTurn w t i (some refused) s h = record { same = h.same }
  conclude-IsInTurn w t i _ s h = tt

  take-IsInTurn :
      (w : W) (i : ℕ) (o : Option Worker) (s : System W)
      → IsInTurn w s
      → Leads (IsInTurn w) (fire_take i o s)
  unfolding fire_take fire_receive try_receive
  take-IsInTurn w i o s h = ground (arith, h)

  shut-IsInTurn :
      (w : W) (b : Bool) (s : System W) → IsInTurn w s → Leads (IsInTurn w) (fire_shut b s)
  unfolding fire_shut
  shut-IsInTurn w b s h = ground (arith, h)

module _ {W : Type 0} (grow : ℕ → ℕ → ℕ) (parser : Parser) (publisher : Publisher W) where
  arrive-IsInTurn :
      (w : W) (r : Request) (raw : List ℕ) (s : System W)
      → IsInTurn parser publisher w s
      → IsInTurn parser publisher w (fire_arrive grow parser publisher r raw s)
  unfolding fire_arrive
  arrive-IsInTurn w r [] s h = record { same = h.same }
  arrive-IsInTurn w r (b ∷ raw) s h = record { same = h.same }

  handle-IsInTurn :
      (w : W) (t : HandleTimes) (i : ℕ) (o : Option Worker) (s : System W)
      → IsInTurn parser publisher w s
      → Leads (IsInTurn parser publisher w) (fire_handle grow parser publisher t i o s)
  unfolding fire_handle
  handle-IsInTurn w t i (some (busy j)) s h = record {
    same =
        ap (λ v. (handle_job parser publisher t j s.service.m v).1) h.same
        ∙ sym (handle_each-snoc parser publisher s.handled t j [] s.service.m w);
  }
  handle-IsInTurn w t i _ s h = tt

  pub fire-IsInTurn :
      (w : W) (mv : Move) (s : System W)
      → IsInTurn parser publisher w s
      → Leads (IsInTurn parser publisher w) (fire grow parser publisher mv s)
  unfolding fire
  fire-IsInTurn w (arrive r) s h = arrive-IsInTurn w r r.raw s h
  fire-IsInTurn w (advance i) s h =
      advance-IsInTurn parser publisher w i (get_elem? s.producers i) s h
  fire-IsInTurn w (conclude t i) s h =
      conclude-IsInTurn parser publisher w t i (get_elem? s.producers i) s h
  fire-IsInTurn w (take_job i) s h = take-IsInTurn parser publisher w i (get_elem? s.workers i) s h
  fire-IsInTurn w (handle t i) s h = handle-IsInTurn w t i (get_elem? s.workers i) s h
  fire-IsInTurn w (shut b) s h = shut-IsInTurn parser publisher w b s h

  -- Under every interleaving from the start on, the world of the publisher is what one worker makes
  -- of it that handles the handled jobs one after the other.
  pub published_in_turn :
      (num_cpu : ℕ) (c : BackpressureConfig) (w : W) (mvs : List Move) (s : System W)
      → run grow parser publisher mvs (start num_cpu c w) ≡ some s
      → s.world ≡ (handle_each parser publisher s.handled [] w).1
  unfolding start handle_each
  published_in_turn num_cpu c w mvs s ran =
      (always grow parser publisher (IsInTurn parser publisher w) (fire-IsInTurn w) mvs
        (start num_cpu c w) s ran (record { same = refl })).same
