-- ===== src/Metrics/Collector.antt =====
-- internal/infra/metrics/collector.go.
use api_observability_platfo.Base.{ℕ, String, List, ◌∷◌, leb, if◌then◌else◌, str_eq}
use api_observability_platfo.Domain.{Duration}

-- One update of one metric, with its label values in the order of the declaration. A histogram
-- takes a duration; the gauge takes the quotient of the two numbers.
pub data Metric : Type 0 where
  ingest_total : (source tenant : String) → Metric
  published_total : (source tenant : String) → Metric
  drop_total : (reason stage tenant : String) → Metric
  process_latency_seconds : Duration → Metric
  channel_utilization : (channel : String) (depth capacity : ℕ) → Metric
  end_to_end_latency : Duration → Metric

abbrev pub reason_channel_full : String
reason_channel_full = "channel_full"

abbrev pub reason_parse_error : String
reason_parse_error = "parse_error"

abbrev pub stage_ingest : String
stage_ingest = "ingest"

abbrev pub stage_worker : String
stage_worker = "worker"

unfoldable pub safe_tenant : String → String
safe_tenant t = if str_eq t "" then "unknown" else t

unfoldable pub observe_channel_depth : String → ℕ → ℕ → List Metric → List Metric
observe_channel_depth channel depth capacity log =
    if leb capacity 0 then log else channel_utilization channel depth capacity ∷ log
