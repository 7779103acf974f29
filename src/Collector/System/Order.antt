-- ===== src/Collector/System/Order.antt =====
-- A collector with a single worker keeps the order of the jobs.
use mathlib.Core.List.{Sublist, sublist-append_left, map-append}
use mathlib.Core.List.Sublist
use api_observability_platfo.Base.{
  zero, suc, ℕ, ◌<◌, ◌≡◌, refl, ap, ◌∙◌, Bool, Bool-cases, inl, inr, Option, some, List, [], ◌∷◌,
  ◌++◌, append-nil, get_elem?, set, arith, length, length-set, length-replicate, pos, pos_part,
}
use api_observability_platfo.Contract.{Parser, Publisher}
use api_observability_platfo.Collector.Chan.{try_receive, receive}
use api_observability_platfo.Collector.Config.{BackpressureConfig, normalize}
use api_observability_platfo.Collector.Service.{IngestJob, Request, IngestTimes, new_service}
use api_observability_platfo.Collector.Worker.{HandleTimes, Task}
use api_observability_platfo.Collector.Enqueue.{Producer, sending, accepted, refused, newly_left}
use api_observability_platfo.Collector.System.{
  System, Worker, idle, busy, exited, Move, arrive, advance, conclude, take_job, handle, shut,
  start, fire, fire_arrive, fire_advance, fire_conclude, fire_receive, fire_take, fire_shut,
  fire_handle, run,
}
use api_observability_platfo.Collector.System.Preserved.{Leads}
use api_observability_platfo.Collector.System.Schedules.{always}
use api_observability_platfo.Collector.System.Accounts.{reached}
use api_observability_platfo.Collector.System.Hands.{held, in_hand, jobs_of, in_hand-replicate}

-- What the only worker has, before and after its move.
only :
    (ws : List Worker) (i : ℕ) (v x : Worker)
    → length ws ≡ 1
    → get_elem? ws i ≡ some x
    → (in_hand (set ws i v) ≡ held v) × (in_hand ws ≡ held x)
only [] i v x one e = cc
only (y ∷ []) zero v x one e = (append-nil (held v), append-nil (held y) ∙ ap held (cc))
only (y ∷ []) (suc i) v x one e = cc
only (y ∷ z ∷ ws) i v x one e = absurd (omega (arith, one))

module _ {W : Type 0} where
  record IsInOrder (s : System W) : Type 0 where
    one : length s.workers ≡ 1
    order : Sublist (jobs_of s.handled ++ in_hand s.workers) s.left

  advance-IsInOrder :
      (i : ℕ) (o : Option Producer) (s : System W)
      → IsInOrder s
      → Leads IsInOrder (fire_advance i o s)
  unfolding fire_advance
  advance-IsInOrder i (some (sending pc j)) s h = record {
    one = h.one;
    order = Sublist.trans h.order (sublist-append_left s.left (newly_left pc s.service));
  }
  advance-IsInOrder i _ s h = tt

  conclude-IsInOrder :
      (t : IngestTimes) (i : ℕ) (o : Option Producer) (s : System W)
      → IsInOrder s
      → Leads IsInOrder (fire_conclude t i o s)
  unfolding fire_conclude
  conclude-IsInOrder t i (some accepted) s h = record { one = h.one; order = h.order }
  conclude-IsInOrder t i (some refused) s h = record { one = h.one; order = h.order }
  conclude-IsInOrder t i _ s h = tt

  receive-IsInOrder :
      (i : ℕ) (items : List IngestJob) (s : System W)
      → get_elem? s.workers i ≡ some idle
      → IsInOrder s
      → Leads IsInOrder (fire_receive i (receive items s.service.ch) s)
  unfolding fire_receive
  receive-IsInOrder i [] s e h =
      let (now, before) = only s.workers i exited idle h.one e in
      let gone : Sublist (jobs_of s.handled ++ in_hand (set s.workers i exited)) s.left =
        rw now (rw before at h.order) in
      elim (Bool-cases s.service.ch.closed) [
        | inl q ↦ rw q (record { one = length-set s.workers i exited ∙ h.one; order = gone })
        | inr q ↦ rw q tt
      ]
  receive-IsInOrder i (j ∷ rest) s e h =
      let (now, before) = only s.workers i (busy j) idle h.one e in
      let older : Sublist (jobs_of s.handled) s.left =
        rw (← append-nil (jobs_of s.handled)) (rw before at h.order) in
      record {
        one = length-set s.workers i (busy j) ∙ h.one;
        order = rw now (Sublist.append older (Sublist.refl (j ∷ [])));
      }

  take-IsInOrder :
      (i : ℕ) (o : Option Worker) (s : System W)
      → get_elem? s.workers i ≡ o
      → IsInOrder s
      → Leads IsInOrder (fire_take i o s)
  unfolding fire_take try_receive
  take-IsInOrder i (some idle) s e h = receive-IsInOrder i s.service.ch.items s e h
  take-IsInOrder i _ s e h = tt

  shut-IsInOrder : (b : Bool) (s : System W) → IsInOrder s → Leads IsInOrder (fire_shut b s)
  unfolding fire_shut
  shut-IsInOrder b s h = ground (arith, h)

module _ {W : Type 0} (grow : ℕ → ℕ → ℕ) (parser : Parser) (publisher : Publisher W) where
  arrive-IsInOrder :
      (r : Request) (raw : List ℕ) (s : System W)
      → IsInOrder s
      → IsInOrder (fire_arrive grow parser publisher r raw s)
  unfolding fire_arrive
  arrive-IsInOrder r [] s h = record { one = h.one; order = h.order }
  arrive-IsInOrder r (b ∷ raw) s h = record { one = h.one; order = h.order }

  handle-IsInOrder :
      (t : HandleTimes) (i : ℕ) (o : Option Worker) (s : System W)
      → get_elem? s.workers i ≡ o
      → IsInOrder s
      → Leads IsInOrder (fire_handle grow parser publisher t i o s)
  unfolding fire_handle
  handle-IsInOrder t i (some (busy j)) s e h =
      let (now, before) = only s.workers i idle (busy j) h.one e in
      let more : jobs_of (s.handled ++ (t, j) ∷ []) ≡ jobs_of s.handled ++ j ∷ [] =
        map-append (λ (x : Task). x.1) s.handled ((t, j) ∷ []) in
      record {
        one = length-set s.workers i idle ∙ h.one;
        order = rw (now, more, append-nil) (rw before at h.order);
      }
  handle-IsInOrder t i _ s e h = tt

  fire-IsInOrder :
      (mv : Move) (s : System W) → IsInOrder s → Leads IsInOrder (fire grow parser publisher mv s)
  unfolding fire
  fire-IsInOrder (arrive r) s h = arrive-IsInOrder r r.raw s h
  fire-IsInOrder (advance i) s h = advance-IsInOrder i (get_elem? s.producers i) s h
  fire-IsInOrder (conclude t i) s h = conclude-IsInOrder t i (get_elem? s.producers i) s h
  fire-IsInOrder (take_job i) s h = take-IsInOrder i (get_elem? s.workers i) s refl h
  fire-IsInOrder (handle t i) s h = handle-IsInOrder t i (get_elem? s.workers i) s refl h
  fire-IsInOrder (shut b) s h = shut-IsInOrder b s h

  start-IsInOrder :
      (num_cpu : ℕ) (c : BackpressureConfig) (w : W)
      → (normalize num_cpu c).worker_count ≡ pos 1
      → IsInOrder (start num_cpu c w)
  unfolding start new_service
  start-IsInOrder n c w single =
      let workers = pos_part (normalize n c).worker_count in
      record {
        one = length-replicate workers idle ∙ ap pos_part single;
        order = rw (in_hand-replicate workers) (Sublist.refl []);
      }

  -- On a machine with a processor and with a single worker, under every interleaving of requests,
  -- workers and shutdown from the start on, the jobs that were handled, the one with the worker and
  -- those in the channel, one after the other, are in the order in which they entered the channel,
  -- where some are missing if there were evictions.
  pub single_worker_order :
      (num_cpu : ℕ) (c : BackpressureConfig) (w : W)
      → 0 < num_cpu
      → (normalize num_cpu c).worker_count ≡ pos 1
      → (mvs : List Move) (s : System W)
      → run grow parser publisher mvs (start num_cpu c w) ≡ some s
      → Sublist ((jobs_of s.handled ++ in_hand s.workers) ++ s.service.ch.items) s.entered
  single_worker_order num_cpu c w processors single mvs s ran =
      let inv =
        always grow parser publisher IsInOrder fire-IsInOrder mvs (start num_cpu c w) s ran
          (start-IsInOrder num_cpu c w single) in
      let fifo = (reached grow parser publisher num_cpu c w processors mvs s ran).fifo in
      rw fifo (Sublist.append inv.order (Sublist.refl s.service.ch.items))
