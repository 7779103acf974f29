-- ===== src/Runtime/Server/Ending.antt =====
-- What `HTTPServer` returns.
use api_observability_platfo.Base.{
  ◌≡◌, refl, sym, ◌∙◌, arith, Bool, true, false, ◌||◌, Option, none, some, List, if◌then◌else◌,
}
use mathlib.Core.Path.{subst}
use api_observability_platfo.Domain.{Error, is_err}
use api_observability_platfo.Runtime.Server.{
  serve_result, Serving, listening, served, Stopping, awaiting, shutting, stopped, Group,
  ServerEvent, server_run, both_over, wait, http_server,
}
use api_observability_platfo.Runtime.Server.Kept.{Law, Holds, run_keeps}
use api_observability_platfo.Runtime.Server.Trace.{
  serving_after, stopping_after, cancelled_after, serve_failure, failures, first_of, run-Follows,
}

-- Two answers of the libraries, that of `ListenAndServe` and that of `srv.Shutdown`, and that there was
-- a reason to shut down: the caller's context, or a failure of `ListenAndServe`.
abbrev pub BothOver : Serving → Stopping → Bool → Type 0
BothOver v p c =
    (a : Option Error) × (b : Option Error) × (v ≡ served a)
    × (p ≡ stopped b)
    × ((c || is_err (first_of none (serve_failure a))) ≡ true)

reason : (a : Option Error) → is_err (serve_result a) ≡ is_err (first_of none (serve_failure a))
unfolding serve_result
reason none = refl
reason (some e) = ground arith

waited :
    (v : Serving) (p : Stopping) (c : Bool) (k r : Option Error)
    → Law v p c k
    → (if both_over v p then some k else none) ≡ some r
    → BothOver v p c × (k ≡ r)
waited (served a) (stopped b) c k r h e =
    ((a, b, refl, refl, subst (λ q. (c || q) ≡ true) (reason a) h), cc)
waited listening p c k r h e = cc
waited (served a) awaiting c k r h e = cc
waited (served a) shutting c k r h e = cc

-- When `HTTPServer` returns, both `ListenAndServe` and `srv.Shutdown` have returned; its result is the
-- first of their errors in the order in which they came, none if there was none, where
-- `ErrServerClosed` of `ListenAndServe` is no error; and the caller's context was done or
-- `ListenAndServe` had failed.
pub http_server_lem :
    (es : List ServerEvent) (r : Option Error)
    → http_server es ≡ some r
    → BothOver (serving_after listening es) (stopping_after awaiting es) (cancelled_after false es)
      × (r ≡ first_of none (failures es))
unfolding http_server wait
http_server_lem es r e = go (server_run es begun) refl e
  where
    begun : Group
    begun = record { serving = listening; stopping = awaiting; cancelled = false; kept = none }

    go :
        (o : Option Group)
        → server_run es begun ≡ o
        → (elim o as (λ x. Option (Option Error)) [ none ↦ none | some g ↦ wait g ]) ≡ some r
        → BothOver
            (serving_after listening es)
            (stopping_after awaiting es)
            (cancelled_after false es)
          × (r ≡ first_of none (failures es))
    go none ran e = cc
    go (some g) ran e =
        let f = run-Follows es begun g ran in
        let law = subst Holds ran (run_keeps es begun refl) in
        let (over, same) = waited g.serving g.stopping g.cancelled g.kept r law e in
        (rw (← f.serving, ← f.stopping, ← f.cancelled) over, sym same ∙ f.kept)
