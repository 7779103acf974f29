-- ===== src/Runtime/Server.antt =====
-- internal/infra/runtime/shutdown.go: `HTTPServer`, its two goroutines in an errgroup, and
-- `SleepInterruptible`, `MetricsHandler` and `MustHostname`. As the documentation of errgroup says,
-- the first error that a goroutine returns is kept and cancels the derived context, and `Wait`
-- returns it when all goroutines have returned.
pub mod Kept
pub mod Trace
pub mod Ending
use api_observability_platfo.Base.{
  ℕ, String, Bool, true, false, ◌||◌, Option, none, some, List, [], ◌∷◌, if◌then◌else◌,
}
use api_observability_platfo.Domain.{Error, server_closed, wrapped, is_err}
use api_observability_platfo.Contract.{Context}

-- `errors.Is(err, http.ErrServerClosed)`
abbrev pub is_server_closed : Error → Bool
is_server_closed server_closed = true
is_server_closed (wrapped p e) = is_server_closed e
is_server_closed _ = false

-- What the first goroutine returns when `ListenAndServe` has.
unfoldable pub serve_result : Option Error → Option Error
serve_result none = none
serve_result (some e) = if is_server_closed e then none else some e

-- The first goroutine, with what `ListenAndServe` returned.
pub data Serving : Type 0 where
  listening : Serving
  served : Option Error → Serving

-- The second: before `<-ctx.Done()`, in `srv.Shutdown`, and with what that returned.
pub data Stopping : Type 0 where
  awaiting shutting : Stopping
  stopped : Option Error → Stopping

pub record Group : Type 0 where
  pub serving : Serving
  pub stopping : Stopping
  -- whether the caller's context is done
  pub cancelled : Bool
  -- the error that the group keeps
  pub kept : Option Error

pub data ServerEvent : Type 0 where
  cancel : ServerEvent
  serve_returns : Option Error → ServerEvent
  shutdown_begins : ServerEvent
  shutdown_returns : Option Error → ServerEvent

-- A goroutine returns to the group.
abbrev pub keep_first : Option Error → Option Error → Option Error
keep_first none e = e
keep_first (some x) e = some x

pub on_serve : Option Error → Serving → Group → Option Group
on_serve err listening g =
    some (record g { serving = served err; kept = keep_first g.kept (serve_result err) })
on_serve err (served e) g = none

pub on_begin : Stopping → Group → Option Group
on_begin awaiting g =
    if g.cancelled || is_err g.kept then some (record g { stopping = shutting }) else none
on_begin _ g = none

pub on_shutdown : Option Error → Stopping → Group → Option Group
on_shutdown err shutting g =
    some (record g { stopping = stopped err; kept = keep_first g.kept err })
on_shutdown err _ g = none

unfoldable pub server_step : ServerEvent → Group → Option Group
unfolding on_serve on_begin on_shutdown serve_result
server_step cancel g = some (record g { cancelled = true })
server_step (serve_returns err) g = on_serve err g.serving g
server_step shutdown_begins g = on_begin g.stopping g
server_step (shutdown_returns err) g = on_shutdown err g.stopping g

unfoldable pub server_run : List ServerEvent → Group → Option Group
unfolding server_step
server_run [] g = some g
server_run (e ∷ es) g = elim (server_step e g) [ none ↦ none | some h ↦ server_run es h ]

abbrev pub both_over : Serving → Stopping → Bool
both_over (served a) (stopped b) = true
both_over _ _ = false

-- `g.Wait()`: what it returns, as soon as it does.
unfoldable pub wait : Group → Option (Option Error)
wait g = if both_over g.serving g.stopping then some g.kept else none

-- `HTTPServer` on the events that come, as far as they go.
unfoldable pub http_server : List ServerEvent → Option (Option Error)
unfolding server_run wait
http_server es =
    elim (server_run es
      (record { serving = listening; stopping = awaiting; cancelled = false; kept = none })) [
        | none ↦ none
        | some g ↦ wait g
      ]

-- `SleepInterruptible`: which of the two channels of its `select` is read.
pub data Woken : Type 0 where
  timer : Woken
  context_done : Context → Woken

unfoldable pub sleep_interruptible : Woken → Option Error
sleep_interruptible timer = none
sleep_interruptible (context_done ctx) = ctx.err

-- `MustHostname` on what `os.Hostname` returns.
unfoldable pub must_hostname : String × Option Error → String
must_hostname (h, none) = h
must_hostname (h, some e) = "unknown"

-- `MetricsHandler` on the two handlers of promhttp; `none` is a nil registry.
unfoldable pub metrics_handler : {R H : Type 0} → H → (R → H) → Option R → H
metrics_handler handler handler_for none = handler
metrics_handler handler handler_for (some reg) = handler_for reg
