-- ===== src/Processor/Default/Laws.antt =====
-- What the default processor makes of events.
use api_observability_platfo.Base.{
  String, str_eq, ◌≡◌, refl, ap, Option, none, some, List, [], ◌∷◌, ◌++◌, map, append_assoc,
  append-nil, ℤ, pos, if◌then◌else◌,
}
use api_observability_platfo.Domain.{
  LogEvent, MetricPoint, FieldValue, float_value, int_value, Float64, float_zero,
}
use api_observability_platfo.Contract.{Context}
use api_observability_platfo.Processor.Default.{process, process_from, process_batch}

process_from-map :
    (ctx : Context) (es : List LogEvent) (out : List MetricPoint)
    → process_from ctx es out ≡ (some (out ++ map (λ e. (process ctx e).0) es), none)
unfolding process_from process
process_from-map ctx [] out = rw append-nil
process_from-map ctx (e ∷ es) out =
    rw (process_from-map ctx es)
      (ap (λ q. (some q, none)) (append_assoc out ((process ctx e).0 ∷ []) _))

-- `ProcessBatch` never fails and gives the points that `Process` gives, one for each event, in order.
pub process_batch-map :
    (ctx : Context) (es : List LogEvent)
    → process_batch ctx es ≡ (some (map (λ e. (process ctx e).0) es), none)
unfolding process_batch
process_batch-map ctx es = process_from-map ctx es []

module _ {ℓ} {V : Type ℓ} where
  find : String → List (String × V) → Option V
  find k [] = none
  find k ((j, v) ∷ m) = if str_eq j k then some v else find k m

text_or_empty : Option String → String
text_or_empty none = ""
text_or_empty (some t) = t

float_or_zero : Option FieldValue → Float64
float_or_zero (some (float_value x)) = x
float_or_zero _ = float_zero

int_or_zero : Option FieldValue → ℤ
int_or_zero (some (int_value n)) = n
int_or_zero _ = pos 0

-- Reading the event back from a point, by the names of its tags and fields.
pub event_of : MetricPoint → LogEvent
unfolding find text_or_empty float_or_zero int_or_zero
event_of p = record {
  timestamp = p.time;
  source = text_or_empty (find "source" p.tags);
  tenant = text_or_empty (find "tenant" p.tags);
  api_name = text_or_empty (find "api" p.tags);
  latency_ms = float_or_zero (find "latency_ms" p.fields);
  status_code = int_or_zero (find "status_code" p.fields);
  raw_meta = [];
}

-- The point keeps all of an event but its metadata: a reader of the stored tags and fields gets the
-- event back with `raw_meta` empty.
pub event_of-process :
    (ctx : Context) (e : LogEvent) → event_of (process ctx e).0 ≡ record e { raw_meta = [] }
unfolding event_of process
event_of-process ctx e = refl
