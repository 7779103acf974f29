-- ===== src/Contract.antt =====
-- internal/contract: the interfaces between the services and their adapters. `W` is the state of
-- the world that an implementation reads and changes.
use api_observability_platfo.Base.{ℕ, Option, List}
use api_observability_platfo.Domain.{
  Error, Time, LogEvent, MetricPoint, WriteResult, Query, QueryResult,
}

-- What the program asks of a `context.Context`: the value of `ctx.Err()`.
pub record Context : Type 0 where
  pub err : Option Error

-- The first argument of `parse` is the time that the clock shows during the call.
pub record Parser : Type 0 where
  pub parse : Time → List ℕ → LogEvent × Option Error

pub record Publisher (W : Type 0) : Type 0 where
  pub publish : Context → List LogEvent → W → Option Error × W
  pub close : W → Option Error × W

pub record Processor : Type 0 where
  pub process : Context → LogEvent → MetricPoint × Option Error
  pub process_batch : Context → List LogEvent → Option (List MetricPoint) × Option Error

pub record Storage (W : Type 0) : Type 0 where
  pub write_points : Context → List MetricPoint → W → (WriteResult × Option Error) × W
  pub health : Context → W → Option Error × W
  pub close : W → Option Error × W

pub record Repository : Type 0 where
  pub query_range : Context → Query → QueryResult × Option Error
