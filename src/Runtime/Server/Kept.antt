-- ===== src/Runtime/Server/Kept.antt =====
-- Why `HTTPServer` shuts its server down, wherever its goroutines are.
use api_observability_platfo.Base.{
  ◌≡◌, refl, Bool, true, ◌||◌, inl, inr, Option, none, some, List, [], ◌∷◌, arith, Option-cases,
}
use mathlib.Core.Path.{subst}
use api_observability_platfo.Domain.{Error, is_err}
use api_observability_platfo.Runtime.Server.{
  serve_result, Serving, listening, served, Stopping, awaiting, shutting, stopped, Group,
  ServerEvent, cancel, serve_returns, shutdown_begins, shutdown_returns, on_serve, on_begin,
  on_shutdown, server_step, server_run,
}

-- What the group has kept before the shutdown, and why it shuts down, by where the goroutines are.
abbrev pub Law : Serving → Stopping → Bool → Option Error → Type 0
Law listening awaiting c k = k ≡ none
Law listening shutting c k = c ≡ true
Law listening (stopped b) c k = c ≡ true
Law (served a) awaiting c k = k ≡ serve_result a
Law (served a) shutting c k = (c || is_err (serve_result a)) ≡ true
Law (served a) (stopped b) c k = (c || is_err (serve_result a)) ≡ true

abbrev pub Holds : Option Group → Type 0
Holds none = Unit
Holds (some g) = Law g.serving g.stopping g.cancelled g.kept

cancel_keeps :
    (v : Serving) (p : Stopping) (c : Bool) (k : Option Error) → Law v p c k → Law v p true k
cancel_keeps listening awaiting c k h = h
cancel_keeps listening shutting c k h = refl
cancel_keeps listening (stopped b) c k h = refl
cancel_keeps (served a) awaiting c k h = h
cancel_keeps (served a) shutting c k h = refl
cancel_keeps (served a) (stopped b) c k h = refl

serve_keeps :
    (err : Option Error) (v : Serving) (p : Stopping) (c : Bool) (k : Option Error)
    → Law v p c k
    → Holds (on_serve err v (record { serving = v; stopping = p; cancelled = c; kept = k }))
unfolding on_serve
serve_keeps err listening awaiting c k h = rw h refl
serve_keeps err listening shutting c k h = rw h refl
serve_keeps err listening (stopped b) c k h = rw h refl
serve_keeps err (served a) p c k h = tt

begin_keeps :
    (v : Serving) (p : Stopping) (c : Bool) (k : Option Error)
    → Law v p c k
    → Holds (on_begin p (record { serving = v; stopping = p; cancelled = c; kept = k }))
unfolding on_begin
begin_keeps listening awaiting c k h = ground arith
begin_keeps (served a) awaiting c k h = ground arith
begin_keeps v shutting c k h = tt
begin_keeps v (stopped b) c k h = tt

shutdown_keeps :
    (err : Option Error) (v : Serving) (p : Stopping) (c : Bool) (k : Option Error)
    → Law v p c k
    → Holds (on_shutdown err p (record { serving = v; stopping = p; cancelled = c; kept = k }))
unfolding on_shutdown
shutdown_keeps err v awaiting c k h = tt
shutdown_keeps err v (stopped b) c k h = tt
shutdown_keeps err listening shutting c k h = h
shutdown_keeps err (served a) shutting c k h = h

step_keeps :
    (e : ServerEvent) (g : Group)
    → Law g.serving g.stopping g.cancelled g.kept
    → Holds (server_step e g)
unfolding server_step
step_keeps cancel g h = cancel_keeps g.serving g.stopping g.cancelled g.kept h
step_keeps (serve_returns err) g h = serve_keeps err g.serving g.stopping g.cancelled g.kept h
step_keeps shutdown_begins g h = begin_keeps g.serving g.stopping g.cancelled g.kept h
step_keeps (shutdown_returns err) g h = shutdown_keeps err g.serving g.stopping g.cancelled g.kept h

pub run_keeps :
    (es : List ServerEvent) (g : Group)
    → Law g.serving g.stopping g.cancelled g.kept
    → Holds (server_run es g)
unfolding server_run
run_keeps [] g h = h
run_keeps (e ∷ es) g h = elim (Option-cases (server_step e g)) [
  | inl stuck ↦ rw (stuck, server_run) tt
  | inr (g', moved) ↦
      rw (moved, server_run) (run_keeps es g' (subst Holds moved (step_keeps e g h)))
]
