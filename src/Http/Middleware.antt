-- ===== src/Http/Middleware.antt =====
-- The middleware of internal/infra/metrics/http.go, alone and round the ingest handler as
-- cmd/collector/main.go mounts it. `itoa` is `strconv.Itoa`. gin runs `Recovery` outside of it, so a
-- panic of the handler leaves the middleware too and becomes gin's response behind it.
pub mod Observed
use api_observability_platfo.Base.{ℕ, String, Option, none, some, List, ◌∷◌}
use api_observability_platfo.Domain.{Error, Time, since}
use api_observability_platfo.Metrics.Http.{RequestDuration}
use api_observability_platfo.Collector.Service.{Service, Request}
use api_observability_platfo.Http.{handle_ingest, path_label}

-- The readings of the clock before and behind `c.Next`.
pub record RequestTimes : Type 0 where
  pub start : Time
  pub now : Time

module _ (itoa : ℕ → String) where
  abbrev pub observation : RequestTimes → (method full_path : String) → ℕ → RequestDuration
  observation t method full_path status = record {
    method = method;
    path = path_label full_path;
    status = itoa status;
    duration = since t.start t.now;
  }

  -- What follows `c.Next`: nothing where it panicked, since no call is deferred.
  unfoldable pub after_next :
      RequestTimes
      → (method full_path : String) → Option ℕ
      → List RequestDuration
      → List RequestDuration
  after_next t method full_path none log = log
  after_next t method full_path (some status) log = observation t method full_path status ∷ log

  observed :
      RequestTimes
      → (method full_path : String) → List RequestDuration
      → Option ℕ × Service
      → Option ℕ × Service × List RequestDuration
  observed t method full_path log (reply, s) = (reply, s, after_next t method full_path reply log)

  -- A request to `POST /v1/ingest` through the middleware.
  unfoldable pub serve_ingest :
      (ℕ → ℕ → ℕ)
      → RequestTimes
      → Option Error
      → Request
      → Service
      → List RequestDuration
      → Option ℕ × Service × List RequestDuration
  unfolding observed after_next
  serve_ingest grow t read_error r s log =
      observed t "POST" "/v1/ingest" log (handle_ingest grow read_error r s)
