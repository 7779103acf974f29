-- ===== src/Parser/Stamp.antt =====
-- The time stamp of a parsed event.
use api_observability_platfo.Base.{ℕ, ◌≡◌, refl, false, Option, none, List, arith, if◌then◌else◌}
use api_observability_platfo.Domain.{Error, Time, is_zero, to_utc, LogEvent}
use api_observability_platfo.Parser.{parse, stamp}

module _ (unmarshal : List ℕ → LogEvent × Option Error) (now : Time) where
  stamp_lem :
      (e : LogEvent)
      → is_zero now ≡ false
      → ((stamp unmarshal now (e, none)).1 ≡ none)
        × (is_zero (stamp unmarshal now (e, none)).0.timestamp ≡ false)
        × (record (stamp unmarshal now (e, none)).0 { timestamp = e.timestamp } ≡ e)
        × ((stamp unmarshal now (e, none)).0.timestamp
            ≡ (if is_zero e.timestamp then to_utc now else e.timestamp))
  unfolding stamp
  stamp_lem e clock = (refl, ground arith, ground arith, ground arith)

  -- If the clock does not show the zero time and the bytes decode, `Parse` returns no error and an
  -- event whose time stamp is not zero: the one decoded, or the time of the call in UTC where that
  -- is zero. All its other fields are those decoded.
  pub parse_stamped :
      (raw : List ℕ) (e : LogEvent)
      → is_zero now ≡ false
      → unmarshal raw ≡ (e, none)
      → ((parse unmarshal now raw).1 ≡ none)
        × (is_zero (parse unmarshal now raw).0.timestamp ≡ false)
        × (record (parse unmarshal now raw).0 { timestamp = e.timestamp } ≡ e)
        × ((parse unmarshal now raw).0.timestamp
            ≡ (if is_zero e.timestamp then to_utc now else e.timestamp))
  unfolding parse
  parse_stamped raw e clock decoded = rw (decoded, parse) (stamp_lem e clock)
