-- ===== src/Collector/Service.antt =====
-- internal/app/collector/service.go, the ingesting side: `NewService`, `Ingest`, `enqueue`,
-- `observeDepth` and `IngestBatch`. Parser and publisher are used by the workers only (Worker.antt).
pub mod Offer
pub mod Window
pub mod Batch
use api_observability_platfo.Base.{
  ℕ, String, Option, none, some, List, [], ◌∷◌, pos_part, if◌then◌else◌, str_eq, length,
}
use api_observability_platfo.Domain.{Error, err_non_retryable, err_queue_saturated, Time, since}
use api_observability_platfo.Metrics.Collector.{
  Metric, ingest_total, drop_total, process_latency_seconds, reason_channel_full, stage_ingest,
  safe_tenant, observe_channel_depth,
}
use api_observability_platfo.Collector.Chan.{
  Chan, Sent, sent, would_block, send_panics, Received, received, drained, nothing_yet, make,
  try_send, try_receive,
}
use api_observability_platfo.Collector.Config.{
  DropPolicy, drop_oldest, BackpressureConfig, normalize,
}
use api_observability_platfo.Collector.Pool.{Pool, new_buffer_pool, copy_payload}

pub record IngestJob : Type 0 where
  pub payload : List ℕ
  pub accept_at : Time
  pub source_tag : String

-- The fields of the Go struct that change or that the ingesting side reads.
pub record Service : Type 0 where
  pub cfg : BackpressureConfig
  pub bp : Pool
  pub ch : Chan IngestJob
  pub drop_policy : DropPolicy
  pub m : List Metric

-- A call returns an `error`, or panics.
pub data Flow : Type 0 where
  returns : Option Error → Flow
  panics : Flow

unfoldable pub new_service : ℕ → BackpressureConfig → Service
new_service num_cpu config =
    let c = normalize num_cpu config in
    record {
      cfg = c;
      bp = new_buffer_pool;
      ch = make (pos_part c.channel_capacity);
      drop_policy = c.drop_policy;
      m = [];
    }

abbrev pub inc : Metric → Service → Service
inc e s = record s { m = e ∷ s.m }

-- The `select` that sends, or counts a drop and gives up.
after_send : Service → Sent IngestJob → Flow × Service
after_send s (sent c) = (returns none, record s { ch = c })
after_send s would_block =
    (returns (some err_queue_saturated), inc (drop_total reason_channel_full stage_ingest "") s)
after_send s send_panics = (panics, s)

unfoldable pub send_or_refuse : IngestJob → Service → Flow × Service
unfolding after_send
send_or_refuse j s = after_send s (try_send j s.ch)

-- The `select` that takes the oldest job out. From a closed and drained channel it takes a zero job.
after_receive : Service → Received IngestJob → Service
unfolding safe_tenant
after_receive s (received old c) =
    inc (drop_total reason_channel_full stage_ingest (safe_tenant "")) (record s { ch = c })
after_receive s drained = inc (drop_total reason_channel_full stage_ingest (safe_tenant "")) s
after_receive s nothing_yet = s

unfoldable pub evict_oldest : Service → Service
unfolding after_receive
evict_oldest s = after_receive s (try_receive s.ch)

after_first_send : IngestJob → Service → Sent IngestJob → Flow × Service
after_first_send j s (sent c) = (returns none, record s { ch = c })
after_first_send j s would_block = send_or_refuse j (evict_oldest s)
after_first_send j s send_panics = (panics, s)

-- With nothing of another goroutine between its `select`s (System.antt has the interleavings).
unfoldable pub enqueue : IngestJob → Service → Flow × Service
unfolding after_first_send
enqueue j s =
    if str_eq s.drop_policy drop_oldest
    then after_first_send j s (try_send j s.ch)
    else send_or_refuse j s

-- The debug line on a high watermark is left out.
unfoldable pub observe_depth : Service → Service
unfolding observe_channel_depth
observe_depth s = record s {
  m = observe_channel_depth "ingest" (length s.ch.items) s.ch.capacity s.m;
}

-- The two readings of the clock in one call of `Ingest`.
pub record IngestTimes : Type 0 where
  pub start : Time
  pub now : Time

unfoldable pub record_accepted : IngestTimes → String → Service → Service
record_accepted t source s =
    inc (process_latency_seconds (since t.start t.now))
      (observe_depth (inc (ingest_total source "unknown") s))

finish_ingest : IngestTimes → String → Flow × Service → Flow × Service
finish_ingest t source (returns none, s) = (returns none, record_accepted t source s)
finish_ingest t source (returns (some e), s) = (returns (some e), observe_depth s)
finish_ingest t source (panics, s) = (panics, s)

-- One call of `Ingest`: what the pool and the clock answer, and the body.
pub record Request : Type 0 where
  pub pick : ℕ
  pub times : IngestTimes
  pub raw : List ℕ

-- The rest of a loop runs after a nil error only.
unfoldable pub and_then : Flow × Service → (Service → Flow × Service) → Flow × Service
and_then (returns none, s) rest = rest s
and_then (returns (some e), s) rest = (returns (some e), s)
and_then (panics, s) rest = (panics, s)

module _ (grow : ℕ → ℕ → ℕ) where
  ingest_payload : ℕ → IngestTimes → List ℕ → String → Service → Flow × Service
  ingest_payload pick t raw source s =
      let (payload, bp) = copy_payload grow pick raw s.bp in
      let j : IngestJob = record { payload = payload; accept_at = t.start; source_tag = source } in
      finish_ingest t source (enqueue j (record s { bp = bp }))

  unfoldable pub ingest_with_source : ℕ → IngestTimes → List ℕ → String → Service → Flow × Service
  unfolding safe_tenant ingest_payload finish_ingest record_accepted
  ingest_with_source pick t [] source s =
      (returns (some err_non_retryable), inc (drop_total "empty" stage_ingest (safe_tenant "")) s)
  ingest_with_source pick t (b ∷ raw) source s = ingest_payload pick t (b ∷ raw) source s

  unfoldable pub ingest : Request → Service → Flow × Service
  ingest r s = ingest_with_source r.pick r.times r.raw "http" s

  unfoldable pub ingest_batch : List Request → Service → Flow × Service
  unfolding and_then
  ingest_batch [] s = (returns none, s)
  ingest_batch (r ∷ rs) s = and_then (ingest r s) (ingest_batch rs)
