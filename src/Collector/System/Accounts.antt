-- ===== src/Collector/System/Accounts.antt =====
-- The accounts of the collector under every schedule, and what they mean at any moment and after
-- `Shutdown`.
use api_observability_platfo.Base.{
  length-set, ℕ, suc, ◌+◌, ◌≤◌, ◌<◌, ◌≡◌, refl, ap, ◌∙◌, true, false, Option, some, List, [], ◌∷◌,
  arith, length, length-append, get_elem?,
}
use api_observability_platfo.Contract.{Parser, Publisher}
use api_observability_platfo.Metrics.Collector.{Metric}
use api_observability_platfo.Metrics.Total.{total, total-set, total-append}
use api_observability_platfo.Collector.Pool.{copy_payload}
use api_observability_platfo.Collector.Config.{BackpressureConfig}
use api_observability_platfo.Collector.Service.{IngestJob, Request}
use api_observability_platfo.Collector.Worker.{HandleTimes, handle_job}
use api_observability_platfo.Collector.Enqueue.{entry, sending}
use api_observability_platfo.Collector.System.{
  System, Worker, idle, busy, exited, Move, arrive, advance, conclude, take_job, handle, shut,
  start, fire, fire_arrive, fire_handle, run,
}
use api_observability_platfo.Collector.System.Invariant.{
  Inv, as_accepted, as_evicted, as_finished, is_accepted, is_busy, is_exited,
}
use api_observability_platfo.Collector.System.Preserved.{
  Leads, start-Inv, advance_any, conclude_any, take_any, shut-Inv,
}
use api_observability_platfo.Collector.System.Schedules.{always}

-- A worker that has left is not busy.
pub busy-exited : (ws : List Worker) → total is_busy ws + total is_exited ws ≤ length ws
busy-exited [] = omega arith
busy-exited (idle ∷ ws) = omega (arith, busy-exited ws)
busy-exited (busy j ∷ ws) = omega (arith, busy-exited ws)
busy-exited (exited ∷ ws) = omega (arith, busy-exited ws)

module _ {W : Type 0} (grow : ℕ → ℕ → ℕ) (parser : Parser) (publisher : Publisher W) where
  arrive-Inv :
      (r : Request) (raw : List ℕ) (s : System W)
      → Inv s
      → Inv (fire_arrive grow parser publisher r raw s)
  unfolding fire_arrive
  arrive-Inv r [] s inv = ground (arith, inv)
  arrive-Inv r (b ∷ raw) s inv =
      let (payload, bp) = copy_payload grow r.pick (b ∷ raw) s.service.bp in
      let newcomer =
        sending (entry s.service.drop_policy)
          (record { payload = payload; accept_at = r.times.start; source_tag = "http" }) in
      record {
        bounded = inv.bounded;
        room = inv.room;
        staffed = inv.staffed;
        fifo = inv.fifo;
        counted = omega (arith, inv.counted, total-append is_accepted s.producers (newcomer ∷ []));
        accounted = inv.accounted;
        open_exact = inv.open_exact;
        exited_drained = inv.exited_drained;
      }

  -- `handleJob` finishes one event, whatever comes of it.
  handle_job_counts :
      (t : HandleTimes) (j : IngestJob) (m : List Metric) (w : W)
      → let m' = (handle_job parser publisher t j m w).0 in
        (total as_accepted m' ≡ total as_accepted m)
        × (total as_evicted m' ≡ total as_evicted m)
        × (total as_finished m' ≡ suc (total as_finished m))
  unfolding handle_job
  handle_job_counts t j m w = ground arith

  handle-Inv :
      (t : HandleTimes) (i : ℕ) (o : Option Worker) (s : System W)
      → get_elem? s.workers i ≡ o
      → Inv s
      → Leads Inv (fire_handle grow parser publisher t i o s)
  unfolding fire_handle
  handle-Inv t i (some (busy j)) s e inv = ground (
    arith,
    inv,
    handle_job_counts t j s.service.m s.world,
    total-set is_busy s.workers i idle (busy j) e,
    total-set is_exited s.workers i idle (busy j) e,
    length-set s.workers i idle,
  )
  handle-Inv t i _ s e inv = tt

  pub fire-Inv : (mv : Move) (s : System W) → Inv s → Leads Inv (fire grow parser publisher mv s)
  unfolding fire
  fire-Inv (arrive r) s inv = arrive-Inv r r.raw s inv
  fire-Inv (advance i) s inv = advance_any i (get_elem? s.producers i) s refl inv
  fire-Inv (conclude t i) s inv = conclude_any t i (get_elem? s.producers i) s refl inv
  fire-Inv (take_job i) s inv = take_any i (get_elem? s.workers i) s refl inv
  fire-Inv (handle t i) s inv = handle-Inv t i (get_elem? s.workers i) s refl inv
  fire-Inv (shut ctx_done) s inv = shut-Inv ctx_done s inv

  module _ (num_cpu : ℕ) (c : BackpressureConfig) (w : W) (processors : 0 < num_cpu)
      (mvs : List Move) (s : System W)
      (ran : run grow parser publisher mvs (start num_cpu c w) ≡ some s) where
    pub reached : Inv s
    reached =
        always grow parser publisher Inv fire-Inv mvs (start num_cpu c w) s ran
          (start-Inv num_cpu c w processors)

    -- No accepted event goes missing. On a machine with a processor, while the channel is open,
    -- under every interleaving of requests, workers and shutdown from the start on: the events
    -- counted as accepted, with those whose request is about to count them, are exactly those in
    -- the channel, those with a worker, those that a worker has published or counted as dropped,
    -- and those counted as evicted.
    pub accepted_accounted :
        s.service.ch.closed ≡ false
        → total as_accepted s.service.m + total is_accepted s.producers
          ≡ length s.service.ch.items
            + total is_busy s.workers
            + total as_finished s.service.m
            + total as_evicted s.service.m
    accepted_accounted alive =
        let sizes = ap length reached.fifo ∙ length-append s.left s.service.ch.items in
        omega (arith, sizes, reached.counted, reached.accounted, reached.open_exact alive)

    -- On a machine with a processor, under every interleaving from the start on: when `wg.Wait` in
    -- `Shutdown` returns, all workers having left their loops, the channel is closed and empty, and
    -- every accepted event has been published, counted as dropped by a worker, or counted as
    -- evicted; an eviction may have counted one of the zero jobs that a closed channel gives, as
    -- often as `phantoms` says.
    pub shutdown_drains :
        total is_exited s.workers ≡ length s.workers
        → (s.service.ch.closed ≡ true)
          × (s.service.ch.items ≡ [])
          × (total as_accepted s.service.m + total is_accepted s.producers + s.phantoms
              ≡ total as_finished s.service.m + total as_evicted s.service.m)
    shutdown_drains all =
        let (closed, drained) = reached.exited_drained (omega (arith, all, reached.staffed)) in
        let sizes = ap length reached.fifo ∙ length-append s.left s.service.ch.items in
        (
          closed,
          drained,
          omega (
            arith,
            all,
            sizes,
            ap length drained,
            reached.counted,
            reached.accounted,
            busy-exited s.workers,
          ),
        )
