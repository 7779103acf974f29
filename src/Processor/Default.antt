-- ===== src/Processor/Default.antt =====
-- internal/app/processor/defaultproc.go.
pub mod Laws
use api_observability_platfo.Base.{Option, none, some, List, [], ◌∷◌, ◌++◌}
use api_observability_platfo.Domain.{
  Error, LogEvent, MetricPoint, FieldValue, float_value, int_value,
}
use api_observability_platfo.Contract.{Context, Processor}

unfoldable pub process : Context → LogEvent → MetricPoint × Option Error
process ctx event = (
  record {
    measurement = "vsan_api";
    tags = ("source", event.source) ∷ ("tenant", event.tenant) ∷ ("api", event.api_name) ∷ [];
    fields =
        ("latency_ms", float_value event.latency_ms)
        ∷ ("status_code", int_value event.status_code)
        ∷ [];
    time = event.timestamp;
  },
  none,
)

-- One turn of the loop of `ProcessBatch`; `rest` goes on with what has been collected.
collect :
    (List MetricPoint → Option (List MetricPoint) × Option Error)
    → List MetricPoint
    → MetricPoint × Option Error
    → Option (List MetricPoint) × Option Error
collect rest out (p, some e) = (none, some e)
collect rest out (p, none) = rest (out ++ p ∷ [])

process_from : Context → List LogEvent → List MetricPoint → Option (List MetricPoint) × Option Error
unfolding collect
process_from ctx [] out = (some out, none)
process_from ctx (e ∷ es) out = collect (process_from ctx es) out (process ctx e)

unfoldable pub process_batch : Context → List LogEvent → Option (List MetricPoint) × Option Error
unfolding process_from
process_batch ctx events = process_from ctx events []

unfoldable pub default : Processor
default = record { process = process; process_batch = process_batch }
