-- ===== src/Tests/Server.antt =====
-- The metrics, the middleware round the ingest handler, and `HTTPServer`.
use api_observability_platfo.Base.{
  ℕ, ◌≡◌, refl, true, false, String, none, some, List, [], ◌∷◌, pos, arith, if◌then◌else◌, ◌==◌,
}
use api_observability_platfo.Cmd.QueryApi.{
  before_signal, QueryMain, QueryEvent, serve_returns, shutdown_returns,
}
use api_observability_platfo.Domain.{foreign, server_closed, deadline_exceeded}
use api_observability_platfo.Collector.Chan.{close}
use api_observability_platfo.Collector.Config.{normalize}
use api_observability_platfo.Collector.Service.{Service, Request, new_service}
use api_observability_platfo.Http.Middleware.{RequestTimes, serve_ingest}
use api_observability_platfo.Http.Middleware.Observed.{
  expected_reply, expected_log, ingest_observed,
}
use api_observability_platfo.Runtime.Server.{
  listening, awaiting, ServerEvent, cancel, serve_returns, shutdown_begins, shutdown_returns,
  server_run, wait, http_server,
}
use api_observability_platfo.Runtime.Server.Trace.{
  serving_after, stopping_after, cancelled_after, failures, first_of,
}
use api_observability_platfo.Runtime.Server.Ending.{BothOver, http_server_lem}
use api_observability_platfo.Tests.Fixtures.{one_slot, exactly, at}

toy_itoa : ℕ → String
toy_itoa n = if n == 202 then "202" else if n == 503 then "503" else "other"

abbrev clock : RequestTimes
clock = record { start = at 1; now = at 2 }

abbrev request : Request
request = record { pick = 0; times = record { start = at 1; now = at 2 }; raw = 1 ∷ [] }

-- A service behind its shutdown.
abbrev shut_down : Service
shut_down = let s = new_service 4 one_slot in record s { ch = close s.ch }

-- A service that takes the request.
abbrev open_service : Service
open_service = new_service 4 one_slot

ingest_observed_example :
    ((serve_ingest toy_itoa exactly clock none request open_service []).0
      ≡ expected_reply true open_service.ch)
    × ((serve_ingest toy_itoa exactly clock none request open_service []).2
        ≡ expected_log toy_itoa clock (expected_reply true open_service.ch) [])
unfolding new_service normalize
ingest_observed_example =
    ingest_observed toy_itoa exactly true clock request open_service [] (omega arith) (omega arith)
      refl (λ e. cc)

accepted_observed :
    (serve_ingest toy_itoa exactly clock none request open_service []).2
    ≡ record { method = "POST"; path = "/v1/ingest"; status = "202"; duration = pos 1 } ∷ []
unfolding new_service normalize toy_itoa
accepted_observed = ingest_observed_example.1

nothing_observed : (serve_ingest toy_itoa exactly clock none request shut_down []).2 ≡ []
unfolding new_service normalize
nothing_observed =
    (ingest_observed toy_itoa exactly true clock request shut_down [] (omega arith) (omega arith)
      refl (λ e. cc)).1

-- The caller cancels, the listener closes, and the shutdown runs out of time.
abbrev slow_end : List ServerEvent
slow_end =
    cancel
    ∷ shutdown_begins
    ∷ serve_returns (some server_closed)
    ∷ shutdown_returns (some deadline_exceeded)
    ∷ []

slow_ends : http_server slow_end ≡ some (some deadline_exceeded)
unfolding http_server server_run wait
slow_ends = refl

http_server_lem_example :
    BothOver
      (serving_after listening slow_end)
      (stopping_after awaiting slow_end)
      (cancelled_after false slow_end)
    × (some deadline_exceeded ≡ first_of none (failures slow_end))
http_server_lem_example = http_server_lem slow_end (some deadline_exceeded) slow_ends

-- Both fail: the first error is returned.
first_returned :
    http_server (
      serve_returns (some (foreign "accept failed"))
      ∷ shutdown_begins
      ∷ shutdown_returns (some deadline_exceeded)
      ∷ [])
    ≡ some (some (foreign "accept failed"))
unfolding http_server server_run wait
first_returned = refl

-- A listener that cannot be opened shuts the server down.
no_port :
    http_server (
      serve_returns (some (foreign "address in use"))
      ∷ shutdown_begins
      ∷ shutdown_returns none
      ∷ [])
    ≡ some (some (foreign "address in use"))
unfolding http_server server_run wait
no_port = refl

-- The query API whose address is in use.
abbrev unbound : List QueryEvent
unbound = serve_returns (some (foreign "address already in use")) ∷ []

abbrev unserved : QueryMain
unserved = record {
  phase = before_signal;
  serving = false;
  logged = foreign "address already in use" ∷ [];
}
