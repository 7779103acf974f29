-- ===== src/Cmd/QueryApi/Waiting.antt =====
-- What ends the query API and what does not.
use api_observability_platfo.Base.{◌≡◌, Option, none, some, List, [], ◌∷◌, ◌++◌}
use api_observability_platfo.Domain.{Error}
use api_observability_platfo.Cmd.QueryApi.{
  before_signal, QueryMain, QueryEvent, serve_returns, signal, serve_error,
}

abbrev pub IsNoSignal : QueryEvent → Type 0
IsNoSignal signal = ⊥
IsNoSignal _ = Unit

-- The errors to log among what `ListenAndServe` returned, newest first.
abbrev pub serve_errors : List QueryEvent → List Error
serve_errors [] = []
serve_errors (serve_returns err ∷ es) = serve_errors es ++ serve_error err
serve_errors (_ ∷ es) = serve_errors es

-- The errors of the server are logged, and `main` waits on.
Waits : QueryMain → List QueryEvent → Option QueryMain → Type 0
Waits m es none = Unit
Waits m es (some n) = (n.phase ≡ before_signal) × (n.logged ≡ serve_errors es ++ m.logged)
