-- ===== src/Collector/System/Jobs.antt =====
-- Which jobs are where: by identity, not by count.
use mathlib.Core.List.{map-append}
use mathlib.Core.List.Perm
use api_observability_platfo.Base.{
  ℕ, ◌<◌, ◌≡◌, refl, sym, ap, ◌∙◌, Bool, Bool-cases, inl, inr, Option, some, List, [], ◌∷◌, ◌++◌,
  Perm, append_assoc, append-nil, get_elem?, set, alike, grow_first, hand_on, put_away, arith,
  length, pos_part,
}
use api_observability_platfo.Contract.{Parser, Publisher}
use api_observability_platfo.Collector.Chan.{try_receive, receive}
use api_observability_platfo.Collector.Config.{BackpressureConfig, normalize}
use api_observability_platfo.Collector.Service.{IngestJob, Request, IngestTimes, new_service}
use api_observability_platfo.Collector.Worker.{HandleTimes, Task}
use api_observability_platfo.Collector.Enqueue.{Producer, sending, accepted, refused, newly_left}
use api_observability_platfo.Collector.System.{
  System, Worker, idle, busy, exited, Move, arrive, advance, conclude, take_job, handle, shut,
  start, fire, fire_arrive, fire_advance, fire_conclude, fire_receive, fire_take, fire_shut,
  fire_handle, run,
}
use api_observability_platfo.Collector.System.Preserved.{Leads}
use api_observability_platfo.Collector.System.Schedules.{always}
use api_observability_platfo.Collector.System.Accounts.{busy-exited, reached}
use api_observability_platfo.Collector.System.Invariant.{Inv, is_exited}
use api_observability_platfo.Metrics.Total.{total}
use api_observability_platfo.Collector.System.Hands.{
  in_hand, jobs_of, in_hand-set, in_hand-replicate, in_hand_none,
}

module _ {W : Type 0} where
  -- What has left the channel was evicted, or is with a worker, or has been handled.
  pub record IsShared (s : System W) : Type 0 where
    pub shared : Perm s.left (s.evicted ++ (in_hand s.workers ++ jobs_of s.handled))

  pub start-IsShared : (num_cpu : ℕ) (c : BackpressureConfig) (w : W) → IsShared (start num_cpu c w)
  unfolding start new_service
  start-IsShared n c w = record {
    shared =
        alike (sym (ap (λ q. q ++ []) (in_hand-replicate (pos_part (normalize n c).worker_count))));
  }

  advance-IsShared :
      (i : ℕ) (o : Option Producer) (s : System W)
      → IsShared s
      → Leads IsShared (fire_advance i o s)
  unfolding fire_advance
  advance-IsShared i (some (sending pc j)) s h = record {
    shared = grow_first s.evicted _ (newly_left pc s.service) h.shared;
  }
  advance-IsShared i _ s h = tt

  conclude-IsShared :
      (t : IngestTimes) (i : ℕ) (o : Option Producer) (s : System W)
      → IsShared s
      → Leads IsShared (fire_conclude t i o s)
  unfolding fire_conclude
  conclude-IsShared t i (some accepted) s h = record { shared = h.shared }
  conclude-IsShared t i (some refused) s h = record { shared = h.shared }
  conclude-IsShared t i _ s h = tt

  receive-IsShared :
      (i : ℕ) (items : List IngestJob) (s : System W)
      → get_elem? s.workers i ≡ some idle
      → IsShared s
      → Leads IsShared (fire_receive i (receive items s.service.ch) s)
  unfolding fire_receive
  receive-IsShared i [] s e h =
      let same = Perm.symm (in_hand-set s.workers i exited idle e) in
      let gone : Perm s.left
          (s.evicted ++ (in_hand (set s.workers i exited) ++ jobs_of s.handled)) =
        Perm.trans h.shared
          (Perm.append_left s.evicted (Perm.append_right (jobs_of s.handled) same)) in
      elim (Bool-cases s.service.ch.closed) [
        | inl q ↦ rw q (record { shared = gone })
        | inr q ↦ rw q tt
      ]
  receive-IsShared i (j ∷ rest) s e h = record {
    shared =
        hand_on s.evicted (in_hand s.workers) _ h.shared (in_hand-set s.workers i (busy j) idle e);
  }

  take-IsShared :
      (i : ℕ) (o : Option Worker) (s : System W)
      → get_elem? s.workers i ≡ o
      → IsShared s
      → Leads IsShared (fire_take i o s)
  unfolding fire_take try_receive
  take-IsShared i (some idle) s e h = receive-IsShared i s.service.ch.items s e h
  take-IsShared i _ s e h = tt

  shut-IsShared : (b : Bool) (s : System W) → IsShared s → Leads IsShared (fire_shut b s)
  unfolding fire_shut
  shut-IsShared b s h = ground (arith, h)

  -- Where every job is.
  pub shared_once :
      (s : System W)
      → IsShared s
      → Inv s
      → Perm s.entered
          (s.evicted ++ (in_hand s.workers ++ (jobs_of s.handled ++ s.service.ch.items)))
  shared_once s h inv =
      let queue = s.service.ch.items in
      let order =
        append_assoc s.evicted (in_hand s.workers ++ jobs_of s.handled) queue
        ∙ ap (λ q. s.evicted ++ q) (append_assoc (in_hand s.workers) (jobs_of s.handled) queue) in
      Perm.trans (alike inv.fifo) (Perm.trans (Perm.append_right queue h.shared) (alike order))

  pub shared_settled :
      (s : System W)
      → IsShared s
      → Inv s
      → total is_exited s.workers ≡ length s.workers
      → Perm s.entered (s.evicted ++ jobs_of s.handled)
  shared_settled s h inv all =
      let (closed, drained) = inv.exited_drained (omega (arith, all, inv.staffed)) in
      let free = in_hand_none s.workers (omega (arith, all, busy-exited s.workers)) in
      let end : jobs_of s.handled ++ s.service.ch.items ≡ jobs_of s.handled =
        ap (λ q. jobs_of s.handled ++ q) drained ∙ append-nil (jobs_of s.handled) in
      Perm.trans (shared_once s h inv) (
        alike (
          ap (λ q. s.evicted ++ q)
            (ap (λ q. q ++ (jobs_of s.handled ++ s.service.ch.items)) free ∙ end)))

module _ {W : Type 0} (grow : ℕ → ℕ → ℕ) (parser : Parser) (publisher : Publisher W) where
  arrive-IsShared :
      (r : Request) (raw : List ℕ) (s : System W)
      → IsShared s
      → IsShared (fire_arrive grow parser publisher r raw s)
  unfolding fire_arrive
  arrive-IsShared r [] s h = record { shared = h.shared }
  arrive-IsShared r (b ∷ raw) s h = record { shared = h.shared }

  handle-IsShared :
      (t : HandleTimes) (i : ℕ) (o : Option Worker) (s : System W)
      → get_elem? s.workers i ≡ o
      → IsShared s
      → Leads IsShared (fire_handle grow parser publisher t i o s)
  unfolding fire_handle
  handle-IsShared t i (some (busy j)) s e h = record {
    shared =
        let more : jobs_of (s.handled ++ (t, j) ∷ []) ≡ jobs_of s.handled ++ j ∷ [] =
          map-append (λ (x : Task). x.1) s.handled ((t, j) ∷ []) in
        rw more (put_away s.evicted _ _ h.shared (in_hand-set s.workers i idle (busy j) e));
  }
  handle-IsShared t i _ s e h = tt

  pub fire-IsShared :
      (mv : Move) (s : System W) → IsShared s → Leads IsShared (fire grow parser publisher mv s)
  unfolding fire
  fire-IsShared (arrive r) s h = arrive-IsShared r r.raw s h
  fire-IsShared (advance i) s h = advance-IsShared i (get_elem? s.producers i) s h
  fire-IsShared (conclude t i) s h = conclude-IsShared t i (get_elem? s.producers i) s h
  fire-IsShared (take_job i) s h = take-IsShared i (get_elem? s.workers i) s refl h
  fire-IsShared (handle t i) s h = handle-IsShared t i (get_elem? s.workers i) s refl h
  fire-IsShared (shut b) s h = shut-IsShared b s h

  module _ (num_cpu : ℕ) (c : BackpressureConfig) (w : W) (processors : 0 < num_cpu)
      (mvs : List Move) (s : System W)
      (ran : run grow parser publisher mvs (start num_cpu c w) ≡ some s) where
    reached-IsShared : IsShared s
    reached-IsShared =
        always grow parser publisher IsShared fire-IsShared mvs (start num_cpu c w) s ran
          (start-IsShared num_cpu c w)

    -- On a machine with a processor, under every interleaving of requests, workers and shutdown from
    -- the start on, the jobs that entered the channel are, each exactly once, the evicted ones, those
    -- with a worker, those that were handled, and those in the channel.
    pub each_job_once :
        Perm s.entered
          (s.evicted ++ (in_hand s.workers ++ (jobs_of s.handled ++ s.service.ch.items)))
    each_job_once =
        shared_once s reached-IsShared
          (reached grow parser publisher num_cpu c w processors mvs s ran)

    -- When all workers have left their loops, each of these jobs was evicted or handled.
    pub jobs_settled :
        total is_exited s.workers ≡ length s.workers
        → Perm s.entered (s.evicted ++ jobs_of s.handled)
    jobs_settled all =
        shared_settled s reached-IsShared
          (reached grow parser publisher num_cpu c w processors mvs s ran) all
