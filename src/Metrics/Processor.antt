-- ===== src/Metrics/Processor.antt =====
-- internal/infra/metrics/processor.go.
use api_observability_platfo.Base.{ℕ, String}
use api_observability_platfo.Domain.{Duration}

pub data Metric : Type 0 where
  write_latency_seconds : (backend : String) → Duration → Metric
  batch_size : ℕ → Metric
  process_errors : (stage backend : String) → Metric
