-- ===== src/Tests/EndToEnd.antt =====
-- A codec, two brokers, and a runner over a store that counts points.
use api_observability_platfo.Base.{
  sym, append-nil, arith, ℕ, zero, suc, ◌+◌, refl, Option, none, some, List, [], ◌∷◌, ◌++◌, pos,
  pos_part, length,
}
use api_observability_platfo.Domain.{Error, foreign, LogEvent, empty_event}
use api_observability_platfo.Contract.{Context, Storage}
use api_observability_platfo.Kafka.{Marshalled, bytes, Writer}
use api_observability_platfo.Processor.Default.{default}
use api_observability_platfo.Processor.Runner.{Runner, FlushTimes}
use api_observability_platfo.Pipeline.{IsTopic}
use api_observability_platfo.Tests.Fixtures.{at}

-- The codec: an event is encoded as its time, and a text that is empty or starts with 0 is no event.
abbrev event : ℕ → LogEvent
event n = record empty_event { timestamp = at n }

unfoldable pub toy_unmarshal : List ℕ → LogEvent × Option Error
toy_unmarshal [] = (empty_event, some (foreign "unexpected end of JSON input"))
toy_unmarshal (zero ∷ bs) = (empty_event, some (foreign "invalid character"))
toy_unmarshal (suc n ∷ bs) = (event (suc n), none)

unfoldable pub encode : LogEvent → List ℕ
encode e = pos_part e.timestamp.instant ∷ []

abbrev pub marshal : LogEvent → Marshalled
marshal e = bytes (encode e)

abbrev pub topic_writer : Writer (List (List ℕ))
topic_writer = record { write_messages = λ ctx ms w. (none, w ++ ms); close = λ w. (none, w) }

-- A broker with its topic and the number of writes. The first write is acknowledged late, so that its
-- messages are in the topic twice; all others fail.
abbrev pub Broker : Type 0
Broker = List (List ℕ) × ℕ

unfoldable pub flaky_write : List (List ℕ) → Broker → Option Error × Broker
flaky_write ms (topic, zero) = (none, (topic ++ (ms ++ ms), 1))
flaky_write ms (topic, suc n) = (some (foreign "not leader for partition"), (topic, suc (suc n)))

abbrev pub flaky_writer : Writer Broker
flaky_writer = record { write_messages = λ ctx ms v. flaky_write ms v; close = λ v. (none, v) }

abbrev pub topic_of : Broker → List (List ℕ)
topic_of v = v.0

pub flaky_writer-IsTopic : IsTopic topic_of flaky_writer
unfolding flaky_write
flaky_writer-IsTopic ctx m (topic, zero) = (2, (refl, λ e. omega arith))
flaky_writer-IsTopic ctx m (topic, suc n) = (0, (sym (append-nil topic), λ e. absurd (cc)))

-- The world counts the points that are stored.
abbrev pub counting_store : Storage ℕ
counting_store = record {
  write_points = λ ctx ps w. ((record { written = length ps; errors = [] }, none), length ps + w);
  health = λ ctx w. (none, w);
  close = λ w. (none, w);
}

abbrev pub reading : Runner ℕ
reading = record {
  reader = record { commit_messages = λ ctx ms w. (none, w) };
  proc = default;
  storage = counting_store;
  batch_max = pos 500;
  flush_int = pos 0;
  backend = "influxdb";
}

abbrev pub live : Context
live = record { err = none }

abbrev pub clock : FlushTimes
clock = record { start = at 1; now = at 2 }
