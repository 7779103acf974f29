-- ===== src/Metrics/Http.antt =====
-- internal/infra/metrics/http.go: the one metric of the middleware.
use api_observability_platfo.Base.{String}
use api_observability_platfo.Domain.{Duration}

pub record RequestDuration : Type 0 where
  pub method : String
  pub path : String
  pub status : String
  pub duration : Duration
