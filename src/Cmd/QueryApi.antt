-- ===== src/Cmd/QueryApi.antt =====
-- cmd/query-api/main.go: its routes, its answer, and `main` from the start of its server on. The
-- repository that it makes is not used.
pub mod Waiting
use api_observability_platfo.Base.{
  String, Bool, true, false, Option, none, some, List, [], ◌∷◌, ◌++◌,
}
use api_observability_platfo.Domain.{Error, server_closed}
use api_observability_platfo.Http.{Route, mount_query_api}

-- The handler of `QueryDeps` is there, the registry is not.
unfoldable pub query_routes : List Route
unfolding mount_query_api
query_routes = mount_query_api false true

pub record Response : Type 0 where
  pub content_type : String
  pub body : String

-- The handler answers every request alike.
unfoldable pub query_response : Response
query_response = record {
  content_type = "application/json";
  body = "{\"series\":[],\"note\":\"wire Influx/TSDB repository implementation\"}";
}

-- Where `main` stands: before `<-ctx.Done()`, in `srv.Shutdown`, at its end.
pub data QueryPhase : Type 0 where
  before_signal in_shutdown ended : QueryPhase

pub record QueryMain : Type 0 where
  pub phase : QueryPhase
  -- whether `ListenAndServe` has not returned yet
  pub serving : Bool
  -- the errors that were logged, newest first
  pub logged : List Error

pub data QueryEvent : Type 0 where
  serve_returns : Option Error → QueryEvent
  signal : QueryEvent
  shutdown_returns : Option Error → QueryEvent

-- `err != nil && err != http.ErrServerClosed`
abbrev pub serve_error : Option Error → List Error
serve_error none = []
serve_error (some server_closed) = []
serve_error (some e) = e ∷ []

abbrev pub shutdown_error : Option Error → List Error
shutdown_error none = []
shutdown_error (some e) = e ∷ []

-- The goroutine of the server.
abbrev pub on_serve_returns : Option Error → Bool → QueryMain → Option QueryMain
on_serve_returns err true m =
    some (record m { serving = false; logged = serve_error err ++ m.logged })
on_serve_returns err false m = none

abbrev pub on_signal : QueryPhase → QueryMain → Option QueryMain
on_signal before_signal m = some (record m { phase = in_shutdown })
on_signal _ m = none

abbrev pub on_shutdown_returns : Option Error → QueryPhase → QueryMain → Option QueryMain
on_shutdown_returns err in_shutdown m =
    some (record m { phase = ended; logged = shutdown_error err ++ m.logged })
on_shutdown_returns err _ m = none

-- `none` where the event cannot come.
unfoldable pub query_step : QueryEvent → QueryMain → Option QueryMain
query_step (serve_returns err) m = on_serve_returns err m.serving m
query_step signal m = on_signal m.phase m
query_step (shutdown_returns err) m = on_shutdown_returns err m.phase m

unfoldable pub query_run : List QueryEvent → QueryMain → Option QueryMain
unfolding query_step
query_run [] m = some m
query_run (e ∷ es) m = elim (query_step e m) [ none ↦ none | some n ↦ query_run es n ]

unfoldable pub query_main : List QueryEvent → Option QueryMain
unfolding query_run
query_main es = query_run es (record { phase = before_signal; serving = true; logged = [] })
