-- ===== src/Domain/Types.antt =====
-- internal/domain/types.go.
use api_observability_platfo.Base.{ℕ, ℤ, pos, String, Option, List, []}
use api_observability_platfo.Domain.Errors.{Error}
use api_observability_platfo.Domain.Values.{Time, Duration, zero_time, Float64, float_zero}

-- A Go map from texts to texts, as its entries.
abbrev pub StringMap : Type 0
StringMap = List (String × String)

pub record LogEvent : Type 0 where
  pub timestamp : Time
  pub source : String
  pub tenant : String
  pub api_name : String
  pub latency_ms : Float64
  pub status_code : ℤ
  pub raw_meta : StringMap

-- `domain.LogEvent{}`
unfoldable pub empty_event : LogEvent
empty_event = record {
  timestamp = zero_time;
  source = "";
  tenant = "";
  api_name = "";
  latency_ms = float_zero;
  status_code = pos 0;
  raw_meta = [];
}

-- The dynamic values that the program puts into `map[string]interface{}`.
pub data FieldValue : Type 0 where
  float_value : Float64 → FieldValue
  int_value : ℤ → FieldValue

pub record MetricPoint : Type 0 where
  pub measurement : String
  pub tags : StringMap
  pub fields : List (String × FieldValue)
  pub time : Time

pub record WriteResult : Type 0 where
  pub written : ℕ
  pub errors : List Error

pub record Query : Type 0 where
  pub measurement : String
  pub tags : StringMap
  pub start : Time
  pub end : Time
  pub step : Duration

pub record QueryPoint : Type 0 where
  pub time : Time
  pub value : Float64

pub record QuerySeries : Type 0 where
  pub labels : StringMap
  pub points : List QueryPoint

-- The slice of series, `none` where it is nil.
pub record QueryResult : Type 0 where
  pub series : Option (List QuerySeries)
