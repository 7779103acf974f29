-- ===== src/Cmd/Timeouts.antt =====
-- The two time limits of the shutdown in cmd/collector/main.go. `parse_duration` is
-- `time.ParseDuration`, none for its error.
use api_observability_platfo.Base.{
  suc, ◌/◌, String, ℤ, pos, ◌-ℤ◌, negsuc, Option, none, some, if◌then◌else◌, str_eq,
}
use api_observability_platfo.Domain.{Duration}
use api_observability_platfo.Runtime.{default_shutdown_timeout}

-- Go's division of an integer by 2, which rounds towards zero.
abbrev half : ℤ → ℤ
half (pos n) = pos (n / 2)
half (negsuc n) = pos 0 -ℤ pos (suc n / 2)

module _ (env : String → String) (parse_duration : String → Option Duration) where
  parsed_timeout : Option Duration → Duration
  parsed_timeout none = pos default_shutdown_timeout
  parsed_timeout (some d) = d

  -- The limit of `srv.Shutdown`, from SHUTDOWN_TIMEOUT.
  unfoldable pub shutdown_timeout : Duration
  unfolding parsed_timeout
  shutdown_timeout =
      if str_eq (env "SHUTDOWN_TIMEOUT") ""
      then pos default_shutdown_timeout
      else parsed_timeout (parse_duration (env "SHUTDOWN_TIMEOUT"))

  -- The limit of `svc.Shutdown`.
  unfoldable pub drain_timeout : Duration
  unfolding shutdown_timeout
  drain_timeout = half shutdown_timeout
