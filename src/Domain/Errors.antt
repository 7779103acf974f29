-- ===== src/Domain/Errors.antt =====
-- internal/domain/errors.go: the sentinel errors, and the other error values of the program.
use api_observability_platfo.Base.{String, Bool, true, false, Option, none, some}

-- A value of Go's `error` that is not nil; nil is `none`.
pub data Error : Type 0 where
  err_retryable : Error
  err_non_retryable : Error
  err_queue_saturated : Error
  err_dropped : Error
  -- `context.Canceled` and `context.DeadlineExceeded`
  canceled : Error
  deadline_exceeded : Error
  -- `http.ErrServerClosed`
  server_closed : Error
  -- an error of a library
  foreign : String → Error
  -- `fmt.Errorf("...: %w", err)`: the prefix, and the error that it wraps
  wrapped : String → Error → Error

-- Whether a value is one of the sentinels that the program asks for.
abbrev pub is_queue_saturated : Error → Bool
is_queue_saturated err_queue_saturated = true
is_queue_saturated (wrapped p e) = is_queue_saturated e
is_queue_saturated _ = false

abbrev pub is_err : Option Error → Bool
is_err none = false
is_err (some e) = true
