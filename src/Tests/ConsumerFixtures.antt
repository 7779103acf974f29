-- ===== src/Tests/ConsumerFixtures.antt =====
-- A runner, its storage and a few messages that the tests share.
use api_observability_platfo.Base.{
  ℕ, false, ◌+◌, ◌≡◌, refl, Option, none, some, List, [], ◌∷◌, pos, length,
}
use api_observability_platfo.Domain.{Error, foreign, utc, LogEvent, empty_event}
use api_observability_platfo.Contract.{Context, Storage}
use api_observability_platfo.Processor.Default.{process, default}
use api_observability_platfo.Storage.Influx
use api_observability_platfo.Processor.Runner.Partial.{over_influx}
use api_observability_platfo.Processor.Runner.{
  Message, Reader, Runner, FlushTimes, Event, fetched, goes_on, with_defaults, flush, step, run,
}

-- Every value decodes but the empty one.
unfoldable pub toy_unmarshal : List ℕ → LogEvent × Option Error
toy_unmarshal [] = (empty_event, some (foreign "unexpected end of JSON input"))
toy_unmarshal (b ∷ bs) = (empty_event, none)

-- The world counts the points that are stored.
abbrev pub counting : Storage ℕ
counting = record {
  write_points = λ ctx ps w. ((record { written = length ps; errors = [] }, none), length ps + w);
  health = λ ctx w. (none, w);
  close = λ w. (none, w);
}

-- A client of an InfluxDB that is not there.
abbrev pub refusing : Influx.Client ℕ
refusing = record {
  write_point = λ ctx p w. (some (foreign "connection refused"), w);
  ping = λ ctx w. ((false, none), w);
  close = λ w. w;
}

abbrev pub committing : Reader ℕ
committing = record { commit_messages = λ ctx ms w. (none, w) }

abbrev pub pairs : Runner ℕ
pairs = record {
  reader = committing;
  proc = default;
  storage = counting;
  batch_max = pos 2;
  flush_int = pos 0;
  backend = "influxdb";
}

abbrev pub down : Runner ℕ
down = over_influx refusing pairs

abbrev pub live : Context
live = record { err = none }

abbrev pub times : FlushTimes
times = record {
  start = record { instant = pos 1; zone = utc };
  now = record { instant = pos 2; zone = utc };
}

abbrev pub message : ℕ → Message
message n = record { partition = 0; offset = n; value = n ∷ [] }

abbrev pub fetch : Message → Event
fetch m = fetched live times (record { msg = m; err = none })

-- Three good messages and an undecodable one.
abbrev pub three_and_poison : List Event
three_and_poison =
    fetch (message 1)
    ∷ fetch (record { partition = 0; offset = 2; value = [] })
    ∷ fetch (message 3)
    ∷ fetch (message 4)
    ∷ []

pub still_running : (run toy_unmarshal pairs three_and_poison 0).0 ≡ goes_on
unfolding run with_defaults step flush default process toy_unmarshal
still_running = refl
