-- ===== src/Tests/Fixtures.antt =====
-- A small collector that the tests share.
use api_observability_platfo.Base.{ℕ, suc, ◌+◌, none, [], ◌∷◌, pos, length}
use api_observability_platfo.Domain.{Time, utc, eight_tenths, empty_event}
use api_observability_platfo.Contract.{Parser, Publisher}
use api_observability_platfo.Collector.Config.{BackpressureConfig, drop_oldest}
use api_observability_platfo.Collector.Service.{IngestTimes}
use api_observability_platfo.Collector.Worker.{HandleTimes}
use api_observability_platfo.Collector.System.{Move, arrive}

-- One slot, one worker.
abbrev pub one_slot : BackpressureConfig
one_slot = record {
  channel_capacity = pos 1;
  worker_count = pos 1;
  drop_policy = drop_oldest;
  high_watermark = eight_tenths;
}

unfoldable pub exactly : ℕ → ℕ → ℕ
exactly old needed = needed

-- Every body is an event, and the world counts the events that were published.
abbrev pub accepting : Parser
accepting = record { parse = λ now raw. (empty_event, none) }

abbrev pub counting : Publisher ℕ
counting = record { publish = λ ctx es w. (none, length es + w); close = λ w. (none, w) }

abbrev pub at : ℕ → Time
at n = record { instant = pos n; zone = utc }

abbrev pub post : ℕ → Move
post n =
    arrive (record { pick = 0; times = record { start = at n; now = at (suc n) }; raw = n ∷ [] })

abbrev pub times : IngestTimes
times = record { start = at 5; now = at 6 }

abbrev pub handling : HandleTimes
handling = record { start = at 7; parsing = at 8; acked = at 9; finished = at 10 }
