-- ===== src/Collector/Worker.antt =====
-- internal/app/collector/service.go, the publishing side: `handleJob`. `W` is the world of the
-- publisher.
use api_observability_platfo.Base.{String, Option, none, some, List, [], ◌∷◌}
use api_observability_platfo.Domain.{Error, LogEvent, Time, since}
use api_observability_platfo.Contract.{Context, Parser, Publisher}
use api_observability_platfo.Metrics.Collector.{
  Metric, drop_total, published_total, end_to_end_latency, process_latency_seconds,
  reason_parse_error, stage_worker, safe_tenant,
}
use api_observability_platfo.Collector.Service.{IngestJob}

-- The readings of the clock in one call of `handleJob`, in their order.
pub record HandleTimes : Type 0 where
  pub start : Time
  pub parsing : Time
  pub acked : Time
  pub finished : Time

-- A job that a worker takes, and the clock while it handles it.
abbrev pub Task : Type 0
Task = HandleTimes × IngestJob

-- `context.WithTimeout(context.Background(), 30*time.Second)`, which has no error when it is made.
abbrev pub fresh_context : Context
fresh_context = record { err = none }

module _ {W : Type 0} where
  after_publish :
      HandleTimes → IngestJob → String → Option Error × W → List Metric → List Metric × W
  after_publish t job tenant (some e, w) m = (drop_total "publish_error" stage_worker tenant ∷ m, w)
  after_publish t job tenant (none, w) m = (
    process_latency_seconds (since t.start t.finished)
        ∷ end_to_end_latency (since job.accept_at t.acked)
        ∷ published_total job.source_tag tenant
        ∷ m,
    w,
  )

  after_parse :
      Publisher W
      → HandleTimes
      → IngestJob
      → LogEvent × Option Error
      → List Metric
      → W
      → List Metric × W
  unfolding safe_tenant
  after_parse p t job (ev, some e) m w =
      (drop_total reason_parse_error stage_worker (safe_tenant "") ∷ m, w)
  after_parse p t job (ev, none) m w =
      after_publish t job (safe_tenant ev.tenant) (p.publish fresh_context (ev ∷ []) w) m

  unfoldable pub handle_job :
      Parser → Publisher W → HandleTimes → IngestJob → List Metric → W → List Metric × W
  unfolding after_parse after_publish
  handle_job parser p t job m w = after_parse p t job (parser.parse t.parsing job.payload) m w

-- The body of `workerLoop` for the jobs that one worker takes, one after the other.
unfoldable pub handle_each :
    {W : Type 0} → Parser → Publisher W → List Task → List Metric → W → List Metric × W
handle_each parser p [] m w = (m, w)
handle_each parser p ((t, j) ∷ js) m w =
    let (m', w') = handle_job parser p t j m w in handle_each parser p js m' w'
