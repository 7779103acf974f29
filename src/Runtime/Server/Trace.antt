-- ===== src/Runtime/Server/Trace.antt =====
-- Where the goroutines of `HTTPServer` are after a sequence of events.
use api_observability_platfo.Base.{
  ◌≡◌, refl, Bool, true, inl, inr, Option, none, some, List, [], ◌∷◌, ◌++◌, arith, if◌then◌else◌,
  Option-cases,
}
use mathlib.Core.Path.{subst}
use api_observability_platfo.Domain.{Error}
use api_observability_platfo.Runtime.Server.{
  Serving, served, Stopping, shutting, stopped, Group, ServerEvent, cancel, serve_returns,
  shutdown_begins, shutdown_returns, on_serve, on_begin, on_shutdown, serve_result,
  is_server_closed, server_step, server_run,
}

-- What the events say of the goroutines and of the caller's context: the last of each kind counts.
abbrev pub serving_after : Serving → List ServerEvent → Serving
serving_after v [] = v
serving_after v (serve_returns err ∷ es) = serving_after (served err) es
serving_after v (_ ∷ es) = serving_after v es

abbrev pub stopping_after : Stopping → List ServerEvent → Stopping
stopping_after p [] = p
stopping_after p (shutdown_begins ∷ es) = stopping_after shutting es
stopping_after p (shutdown_returns err ∷ es) = stopping_after (stopped err) es
stopping_after p (_ ∷ es) = stopping_after p es

abbrev pub cancelled_after : Bool → List ServerEvent → Bool
cancelled_after c [] = c
cancelled_after c (cancel ∷ es) = cancelled_after true es
cancelled_after c (_ ∷ es) = cancelled_after c es

-- The error of an answer; `ErrServerClosed` of `ListenAndServe` is none.
abbrev pub serve_failure : Option Error → List Error
serve_failure none = []
serve_failure (some e) = if is_server_closed e then [] else e ∷ []

abbrev pub shutdown_failure : Option Error → List Error
shutdown_failure none = []
shutdown_failure (some e) = e ∷ []

abbrev pub failure_of : ServerEvent → List Error
failure_of (serve_returns err) = serve_failure err
failure_of (shutdown_returns err) = shutdown_failure err
failure_of _ = []

-- The errors in the order in which they came.
abbrev pub failures : List ServerEvent → List Error
failures [] = []
failures (e ∷ es) = failure_of e ++ failures es

-- An error that is there already, else the first of these.
abbrev pub first_of : Option Error → List Error → Option Error
first_of (some x) errs = some x
first_of none [] = none
first_of none (x ∷ errs) = some x

first_of-append :
    (k : Option Error) (xs ys : List Error) → first_of (first_of k xs) ys ≡ first_of k (xs ++ ys)
first_of-append (some x) xs ys = refl
first_of-append none [] ys = refl
first_of-append none (x ∷ xs) ys = refl

pub record Follows (es : List ServerEvent) (g h : Group) : Type 0 where
  pub serving : h.serving ≡ serving_after g.serving es
  pub stopping : h.stopping ≡ stopping_after g.stopping es
  pub cancelled : h.cancelled ≡ cancelled_after g.cancelled es
  pub kept : h.kept ≡ first_of g.kept (failures es)

abbrev Leads : List ServerEvent → Group → Option Group → Type 0
Leads es g none = Unit
Leads es g (some h) = Follows es g h

step-Follows : (e : ServerEvent) (g : Group) → Leads (e ∷ []) g (server_step e g)
unfolding server_step on_serve on_begin on_shutdown serve_result
step-Follows cancel g = record {
  serving = refl;
  stopping = refl;
  cancelled = refl;
  kept = ground arith;
}
step-Follows (serve_returns err) g = ground arith
step-Follows shutdown_begins g = ground arith
step-Follows (shutdown_returns err) g = ground arith

cons-Follows :
    (e : ServerEvent) (es : List ServerEvent) (g h k : Group)
    → Follows (e ∷ []) g h
    → Follows es h k
    → Follows (e ∷ es) g k
cons-Follows cancel es g h k f q =
    ground (arith, f, q, first_of-append g.kept (failure_of cancel) (failures es))
cons-Follows (serve_returns err) es g h k f q =
    ground (arith, f, q, first_of-append g.kept (failure_of (serve_returns err)) (failures es))
cons-Follows shutdown_begins es g h k f q =
    ground (arith, f, q, first_of-append g.kept (failure_of shutdown_begins) (failures es))
cons-Follows (shutdown_returns err) es g h k f q =
    ground (arith, f, q, first_of-append g.kept (failure_of (shutdown_returns err)) (failures es))

pub run-Follows : (es : List ServerEvent) (g k : Group) → server_run es g ≡ some k → Follows es g k
unfolding server_run
run-Follows [] g k ran = ground arith
run-Follows (e ∷ es) g k ran = elim (Option-cases (server_step e g)) [
  | inl stuck ↦ let over = rw (stuck, server_run) at ran in cc
  | inr (h, moved) ↦
      let more = rw (moved, server_run) at ran in
      cons-Follows e es g h k (subst (Leads (e ∷ []) g) moved (step-Follows e g))
        (run-Follows es h k more)
]
