-- ===== src/Metrics/Descriptors.antt =====
-- What `NewCollector`, `NewProcessor` and `NewHTTP` register with Prometheus, in their order.
use api_observability_platfo.Base.{ℕ, String, List, [], ◌∷◌}
use api_observability_platfo.Domain.{Float64}

pub data Buckets : Type 0 where
  -- `prometheus.ExponentialBuckets(start, factor, count)`
  exponential : (start factor : Float64) → (count : ℕ) → Buckets
  listed : List Float64 → Buckets

pub data Kind : Type 0 where
  counter gauge : Kind
  histogram : Buckets → Kind

-- A metric without labels is registered with an empty list of them.
pub record Descriptor : Type 0 where
  pub name : String
  pub help : String
  pub kind : Kind
  pub labels : List String

-- The constants 0.0001, 0.001, 1 and 2 as float64.
abbrev tenth_milli : Float64
tenth_milli = record { bits = 0x3F1A36E2EB1C432D }

abbrev milli : Float64
milli = record { bits = 0x3F50624DD2F1A9FC }

abbrev one : Float64
one = record { bits = 0x3FF0000000000000 }

abbrev two : Float64
two = record { bits = 0x4000000000000000 }

unfoldable pub new_collector : List Descriptor
new_collector =
    record {
      name = "collector_ingest_total";
      help = "Events accepted into the internal buffer (enqueue success).";
      kind = counter;
      labels = "source" ∷ "tenant" ∷ [];
    }
    ∷ record {
      name = "collector_published_total";
      help = "Events successfully published to Kafka.";
      kind = counter;
      labels = "source" ∷ "tenant" ∷ [];
    }
    ∷ record {
      name = "collector_drop_total";
      help = "Dropped or rejected events by reason and stage.";
      kind = counter;
      labels = "reason" ∷ "stage" ∷ "tenant" ∷ [];
    }
    ∷ record {
      name = "collector_process_latency_seconds";
      help = "Time to parse, validate, and enqueue a single event.";
      kind = histogram (exponential tenth_milli two 18);
      labels = [];
    }
    ∷ record {
      name = "collector_channel_utilization";
      help = "Current depth / capacity of internal channels (0..1).";
      kind = gauge;
      labels = "channel" ∷ [];
    }
    ∷ record {
      name = "collector_end_to_end_latency_seconds";
      help = "Wall time from ingest acceptance to Kafka publish ack (best effort).";
      kind = histogram (exponential milli two 16);
      labels = [];
    }
    ∷ []

unfoldable pub new_processor : List Descriptor
new_processor =
    record {
      name = "storage_write_latency_seconds";
      help = "TSDB batch write latency.";
      kind = histogram (exponential milli two 16);
      labels = "backend" ∷ [];
    }
    ∷ record {
      name = "processor_batch_size";
      help = "Number of metric points per write batch.";
      kind = histogram (exponential one two 14);
      labels = [];
    }
    ∷ record {
      name = "processor_errors_total";
      help = "Processing or write errors.";
      kind = counter;
      labels = "stage" ∷ "backend" ∷ [];
    }
    ∷ []

-- .005, .01, .025, .05, .075, .1, .25, .5, 1, 2.5, 5 and 10 as float64.
abbrev request_buckets : List Float64
request_buckets =
    record { bits = 0x3F747AE147AE147B }
    ∷ record { bits = 0x3F847AE147AE147B }
    ∷ record { bits = 0x3F9999999999999A }
    ∷ record { bits = 0x3FA999999999999A }
    ∷ record { bits = 0x3FB3333333333333 }
    ∷ record { bits = 0x3FB999999999999A }
    ∷ record { bits = 0x3FD0000000000000 }
    ∷ record { bits = 0x3FE0000000000000 }
    ∷ one
    ∷ record { bits = 0x4004000000000000 }
    ∷ record { bits = 0x4014000000000000 }
    ∷ record { bits = 0x4024000000000000 }
    ∷ []

unfoldable pub new_http : List Descriptor
new_http =
    record {
      name = "http_request_duration_seconds";
      help = "HTTP request latency in seconds (server-side, includes handler time).";
      kind = histogram (listed request_buckets);
      labels = "method" ∷ "path" ∷ "status" ∷ [];
    }
    ∷ []
