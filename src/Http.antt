-- ===== src/Http.antt =====
-- internal/infra/http/router.go and the label of internal/infra/metrics/http.go. Matching a request
-- to a route, and turning a panic of a handler into a response, is gin's.
pub mod Status
pub mod Middleware
use api_observability_platfo.Base.{
  ℕ, String, Bool, true, false, Option, none, some, List, [], ◌∷◌, ◌++◌, if◌then◌else◌, str_eq,
}
use api_observability_platfo.Domain.{Error, is_queue_saturated}
use api_observability_platfo.Collector.Service.{Service, Flow, returns, panics, Request, ingest}

-- What a route is bound to.
pub data Endpoint : Type 0 where
  health_endpoint metrics_endpoint ingest_endpoint query_endpoint : Endpoint

pub record Route : Type 0 where
  pub method : String
  pub path : String
  pub endpoint : Endpoint

unfoldable pub mount_collector : List Route
mount_collector =
    record { method = "GET"; path = "/healthz"; endpoint = health_endpoint }
    ∷ record { method = "GET"; path = "/metrics"; endpoint = metrics_endpoint }
    ∷ record { method = "POST"; path = "/v1/ingest"; endpoint = ingest_endpoint }
    ∷ []

-- Whether the registry and the handler of `QueryDeps` are there.
unfoldable pub mount_query_api : (has_reg has_handler : Bool) → List Route
mount_query_api has_reg has_handler =
    (record { method = "GET"; path = "/healthz"; endpoint = health_endpoint } ∷ [])
    ++ ((if has_reg
          then record { method = "GET"; path = "/metrics"; endpoint = metrics_endpoint } ∷ []
          else [])
        ++ (if has_handler
            then record { method = "GET"; path = "/v1/query"; endpoint = query_endpoint } ∷ []
            else []))

-- The status that the handler sets, or `none` if it panics.
unfoldable pub status_of : Flow → Option ℕ
status_of (returns none) = some 202
status_of (returns (some e)) = some (if is_queue_saturated e then 503 else 400)
status_of panics = none

respond : Flow × Service → Option ℕ × Service
respond (f, s) = (status_of f, s)

module _ (grow : ℕ → ℕ → ℕ) where
  -- The handler of `POST /v1/ingest`; the error is that of `io.ReadAll`, and the body is in the
  -- request.
  unfoldable pub handle_ingest : Option Error → Request → Service → Option ℕ × Service
  unfolding respond status_of
  handle_ingest (some e) r s = (some 400, s)
  handle_ingest none r s = respond (ingest grow r s)

-- The `path` label of a request: the route's path, empty where none matched.
unfoldable pub path_label : String → String
path_label full_path = if str_eq full_path "" then "unknown" else full_path
