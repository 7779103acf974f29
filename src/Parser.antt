-- ===== src/Parser.antt =====
-- internal/parser/json.go. `unmarshal` is `json.Unmarshal` into an event.
pub mod Stamp
use api_observability_platfo.Base.{ℕ, Option, none, some, List, if◌then◌else◌}
use api_observability_platfo.Domain.{Error, Time, is_zero, to_utc, LogEvent, empty_event}
use api_observability_platfo.Contract.{Parser}

module _ (unmarshal : List ℕ → LogEvent × Option Error) where
  stamp : Time → LogEvent × Option Error → LogEvent × Option Error
  stamp now (ev, some e) = (empty_event, some e)
  stamp now (ev, none) =
      ((if is_zero ev.timestamp then record ev { timestamp = to_utc now } else ev), none)

  unfoldable pub parse : Time → List ℕ → LogEvent × Option Error
  unfolding stamp
  parse now raw = stamp now (unmarshal raw)

  unfoldable pub json : Parser
  json = record { parse = parse }
