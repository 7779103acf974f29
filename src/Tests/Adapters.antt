-- ===== src/Tests/Adapters.antt =====
-- The storages, the publisher, the parser and `CloseAll` at small inputs.
use api_observability_platfo.Base.{
  ℕ, arith, zero, suc, true, ◌≡◌, refl, false, Option, none, some, List, [], ◌∷◌, ◌++◌, pos,
  reverse, if◌then◌else◌,
}
use api_observability_platfo.Domain.{
  Error, foreign, Time, local, is_zero, to_utc, LogEvent, MetricPoint, empty_event,
}
use api_observability_platfo.Contract.{Context}
use api_observability_platfo.Storage.Influx
use api_observability_platfo.Kafka.{Marshalled, bytes, fails, Writer, publish}
use api_observability_platfo.Kafka.Delivery.{errors_in, encodings, expected_publish, publish_lem}
use api_observability_platfo.Parser.{parse}
use api_observability_platfo.Parser.Stamp.{parse_stamped}
use api_observability_platfo.Processor.Default.{default}
use api_observability_platfo.Processor.Runner.{Runner, RunState, BatchItem, FlushTimes, flush}
use api_observability_platfo.Processor.Runner.Faults.{write_answer}
use api_observability_platfo.Processor.Runner.Partial.{over_influx, partial_flush}
use api_observability_platfo.Runtime.{Closer, close_all}
use api_observability_platfo.Runtime.Order.{call_each, close_all-reverse}

abbrev live : Context
live = record { err = none }

abbrev noon : Time
noon = record { instant = pos 5; zone = local }

abbrev point : MetricPoint
point = record { measurement = "vsan_api"; tags = []; fields = []; time = noon }

-- A client that writes the first point only; the world counts the calls.
first_only : ℕ → Option Error × ℕ
first_only zero = (none, 1)
first_only (suc n) = (some (foreign "timeout"), suc (suc n))

abbrev flaky : Influx.Client ℕ
flaky = record {
  write_point = λ ctx p w. first_only w;
  ping = λ ctx w. ((true, none), w);
  close = λ w. w;
}

-- One of two points is lost and the call returns no error.
lost_silently :
    (Influx.write_points flaky live (point ∷ point ∷ []) 0).0
    ≡ (record { written = 1; errors = foreign "timeout" ∷ [] }, none)
unfolding Influx.write_points Influx.write_loop Influx.count_write Influx.write_error first_only
lost_silently = refl

-- An event is encoded as the length of its time stamp, and one with the zero time not at all.
toy_marshal : LogEvent → Marshalled
toy_marshal e = if is_zero e.timestamp then fails (foreign "bad time") else bytes (1 ∷ [])

abbrev good : LogEvent
good = record empty_event { timestamp = noon }

abbrev keeping : Writer (List (List ℕ))
keeping = record { write_messages = λ ctx ms w. (none, w ++ ms); close = λ w. (none, w) }

-- The second of three events cannot be encoded.
abbrev three_events : List LogEvent
three_events = good ∷ empty_event ∷ good ∷ []

publish_lem_example :
    publish toy_marshal keeping live three_events []
    ≡ expected_publish toy_marshal keeping live
        (errors_in toy_marshal three_events)
        (encodings toy_marshal three_events)
        []
publish_lem_example = publish_lem toy_marshal keeping live three_events []

published_nothing :
    publish toy_marshal keeping live three_events [] ≡ (some (foreign "bad time"), [])
unfolding publish toy_marshal empty_event
published_nothing = refl

published_in_order :
    publish toy_marshal keeping live (good ∷ good ∷ []) [] ≡ (none, (1 ∷ []) ∷ (1 ∷ []) ∷ [])
unfolding publish toy_marshal empty_event
published_in_order = refl

-- Decodes every value into an event without a time stamp.
abbrev bare : List ℕ → LogEvent × Option Error
bare raw = (empty_event, none)

parse_stamped_example :
    ((parse bare noon (1 ∷ [])).1 ≡ none)
    × (is_zero (parse bare noon (1 ∷ [])).0.timestamp ≡ false)
    × (record (parse bare noon (1 ∷ [])).0 { timestamp = empty_event.timestamp } ≡ empty_event)
    × ((parse bare noon (1 ∷ [])).0.timestamp
        ≡ (if is_zero empty_event.timestamp then to_utc noon else empty_event.timestamp))
parse_stamped_example = parse_stamped bare noon (1 ∷ []) empty_event refl refl

-- Each closer writes its number into the world; the second fails.
abbrev noting : ℕ → Closer (List ℕ)
noting n w = (none, w ++ n ∷ [])

abbrev failing : ℕ → Closer (List ℕ)
failing n w = (some (foreign "already closed"), w ++ n ∷ [])

abbrev closers : List (Closer (List ℕ))
closers = noting 1 ∷ failing 2 ∷ noting 3 ∷ []

close_all-reverse_example : close_all closers [] ≡ call_each (reverse closers) []
close_all-reverse_example = close_all-reverse closers []

last_first : close_all closers [] ≡ (foreign "already closed" ∷ [], 3 ∷ 2 ∷ 1 ∷ [])
unfolding close_all
last_first = refl

-- A batch of two, of which the client writes one point.
abbrev item : ℕ → BatchItem
item n = record { msg = record { partition = 0; offset = n; value = n ∷ [] }; pt = point }

abbrev consumer : Runner ℕ
consumer = record {
  reader = record { commit_messages = λ ctx ms w. (none, w) };
  proc = default;
  storage = Influx.storage flaky;
  batch_max = pos 2;
  flush_int = pos 0;
  backend = "influxdb";
}

abbrev two_waiting : RunState ℕ
two_waiting = record {
  buf = item 1 ∷ item 2 ∷ [];
  world = 0;
  metrics = [];
  calls = [];
  taken = item 1 ∷ item 2 ∷ [];
}

abbrev clock : FlushTimes
clock = record { start = noon; now = noon }

one_written : (write_answer live (over_influx flaky consumer) two_waiting).0.0.written ≡ 1
unfolding Influx.storage Influx.write_points Influx.write_loop Influx.count_write first_only
one_written = refl

partial_flush_example :
    ((flush live clock (over_influx flaky consumer) two_waiting).0 ≡ none)
    × ((flush live clock (over_influx flaky consumer) two_waiting).1.buf ≡ [])
partial_flush_example =
    partial_flush flaky live clock consumer two_waiting (item 1) (item 2 ∷ []) refl
      (omega (arith, one_written)) refl
