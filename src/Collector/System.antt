-- ===== src/Collector/System.antt =====
-- internal/app/collector/service.go as it runs: any number of calls of `Ingest`, the worker
-- goroutines of `workerLoop`, and `Shutdown`, interleaved in any order. A move is one `select` of
-- `enqueue` with the counter of its branch, the counters after `enqueue`, one receive of a worker,
-- one `handleJob`, or the `close` of `Shutdown`.
pub mod Invariant
pub mod Selects
pub mod Preserved
pub mod Schedules
pub mod Accounts
pub mod Hands
pub mod Jobs
pub mod InTurn
pub mod Order
pub mod Drain
pub mod Calls
pub mod Crashes
pub mod Settled
pub mod Ends
use api_observability_platfo.Base.{
  ℕ, ◌+◌, Bool, not, ◌&&◌, ◌||◌, Option, none, some, List, [], ◌∷◌, ◌++◌, pos_part, leb,
  if◌then◌else◌, str_eq, length, get_elem?, set, replicate,
}
use api_observability_platfo.Contract.{Parser, Publisher}
use api_observability_platfo.Metrics.Collector.{drop_total, stage_ingest, safe_tenant}
use api_observability_platfo.Collector.Chan.{
  Sent, sent, would_block, send_panics, Received, received, drained, nothing_yet, close, try_send,
  try_receive,
}
use api_observability_platfo.Collector.Config.{DropPolicy, drop_oldest, BackpressureConfig}
use api_observability_platfo.Collector.Pool.{copy_payload}
use api_observability_platfo.Collector.Service.{
  IngestJob, Service, Flow, returns, panics, Request, IngestTimes, inc, new_service, send_or_refuse,
  evict_oldest, observe_depth, record_accepted,
}
use api_observability_platfo.Collector.Enqueue.{
  EnqueuePc, newest_send, oldest_send, oldest_evict, oldest_retry, entry, Progress, goes_on, leaves,
  enqueue_step, Producer, sending, accepted, refused, done, crashed, after_enqueue_step,
  newly_entered, taken_out, taken_phantom, newly_left, newly_phantom,
}
use api_observability_platfo.Collector.Worker.{HandleTimes, Task, handle_job}

pub data Worker : Type 0 where
  idle : Worker
  busy : IngestJob → Worker
  exited : Worker

-- The last five fields record the history and influence nothing: the jobs that entered the channel
-- and those that left it, those that left it by an eviction, and those that a worker has handled with
-- the clock as it was then, all in order; and how often an eviction took the zero job of a closed
-- channel.
pub record System (W : Type 0) : Type 0 where
  pub service : Service
  pub world : W
  pub producers : List Producer
  pub workers : List Worker
  pub entered : List IngestJob
  pub left : List IngestJob
  pub evicted : List IngestJob
  pub handled : List Task
  pub phantoms : ℕ

-- `NewService` starts the workers.
unfoldable pub start : {W : Type 0} → ℕ → BackpressureConfig → W → System W
start num_cpu config w =
    let s = new_service num_cpu config in
    record {
      service = s;
      world = w;
      producers = [];
      workers = replicate (pos_part s.cfg.worker_count) idle;
      entered = [];
      left = [];
      evicted = [];
      handled = [];
      phantoms = 0;
    }

pub data Move : Type 0 where
  -- a call of `Ingest` begins
  arrive : Request → Move
  -- a producer does its next `select`
  advance : ℕ → Move
  -- a producer writes its counters and returns
  conclude : IngestTimes → ℕ → Move
  -- a worker goes round the `range` loop
  take_job : ℕ → Move
  -- a worker does `handleJob`
  handle : HandleTimes → ℕ → Move
  -- `Shutdown` closes the channel, because its context is done or because of an empty channel
  shut : (ctx_done : Bool) → Move

module _ {W : Type 0} where
  pub fire_advance : ℕ → Option Producer → System W → Option (System W)
  unfolding after_enqueue_step newly_entered newly_left newly_phantom taken_out taken_phantom
  fire_advance i (some (sending pc j)) s =
      let (progress, s') = enqueue_step pc j s.service in
      some (record s {
        service = s';
        producers = set s.producers i (after_enqueue_step progress j);
        entered = s.entered ++ newly_entered progress j;
        left = s.left ++ newly_left pc s.service;
        evicted = s.evicted ++ newly_left pc s.service;
        phantoms = s.phantoms + newly_phantom pc s.service;
      })
  fire_advance i _ s = none

  pub fire_conclude : IngestTimes → ℕ → Option Producer → System W → Option (System W)
  fire_conclude t i (some accepted) s = some (record s {
    service = record_accepted t "http" s.service;
    producers = set s.producers i done;
  })
  fire_conclude t i (some refused) s =
      some (record s { service = observe_depth s.service; producers = set s.producers i done })
  fire_conclude t i _ s = none

  pub fire_receive : ℕ → Received IngestJob → System W → Option (System W)
  fire_receive i (received j c) s = some (record s {
    service = record s.service { ch = c };
    workers = set s.workers i (busy j);
    left = s.left ++ j ∷ [];
  })
  fire_receive i drained s = some (record s { workers = set s.workers i exited })
  fire_receive i nothing_yet s = none

  pub fire_take : ℕ → Option Worker → System W → Option (System W)
  fire_take i (some idle) s = fire_receive i (try_receive s.service.ch) s
  fire_take i _ s = none

  pub fire_shut : Bool → System W → Option (System W)
  fire_shut ctx_done s =
      if not s.service.ch.closed && (ctx_done || leb (length s.service.ch.items) 0)
      then some (record s { service = record s.service { ch = close s.service.ch } })
      else none

module _ {W : Type 0} (grow : ℕ → ℕ → ℕ) (parser : Parser) (publisher : Publisher W) where
  pub fire_arrive : Request → List ℕ → System W → System W
  unfolding safe_tenant
  fire_arrive r [] s = record s {
    service = inc (drop_total "empty" stage_ingest (safe_tenant "")) s.service;
  }
  fire_arrive r (b ∷ raw) s =
      let (payload, bp) = copy_payload grow r.pick (b ∷ raw) s.service.bp in
      let j : IngestJob = record {
        payload = payload;
        accept_at = r.times.start;
        source_tag = "http";
      } in
      record s {
        service = record s.service { bp = bp };
        producers = s.producers ++ sending (entry s.service.drop_policy) j ∷ [];
      }

  pub fire_handle : HandleTimes → ℕ → Option Worker → System W → Option (System W)
  fire_handle t i (some (busy j)) s =
      let (m, w) = handle_job parser publisher t j s.service.m s.world in
      some (record s {
        service = record s.service { m = m };
        world = w;
        workers = set s.workers i idle;
        handled = s.handled ++ (t, j) ∷ [];
      })
  fire_handle t i _ s = none

  -- `none` where the move is not possible.
  unfoldable pub fire : Move → System W → Option (System W)
  unfolding fire_arrive fire_advance fire_conclude fire_take fire_receive fire_handle fire_shut
  fire (arrive r) s = some (fire_arrive r r.raw s)
  fire (advance i) s = fire_advance i (get_elem? s.producers i) s
  fire (conclude t i) s = fire_conclude t i (get_elem? s.producers i) s
  fire (take_job i) s = fire_take i (get_elem? s.workers i) s
  fire (handle t i) s = fire_handle t i (get_elem? s.workers i) s
  fire (shut ctx_done) s = fire_shut ctx_done s

  unfoldable pub run : List Move → System W → Option (System W)
  unfolding fire
  run [] s = some s
  run (mv ∷ mvs) s = elim (fire mv s) [ none ↦ none | some t ↦ run mvs t ]
