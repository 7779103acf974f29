-- ===== src/Cmd.antt =====
-- cmd/collector/main.go and cmd/processor/main.go: what the programs take from the environment.
-- `env` is `os.Getenv`, empty for a variable that is not set; `atoi` is the number that
-- `strconv.Atoi` returns, whose error the collector ignores; `split` is `strings.Split` at commas.
pub mod Startup
pub mod Lifecycle
pub mod Timeouts
pub mod ProcessorMain
pub mod QueryApi
use api_observability_platfo.Base.{
  ℕ, ◌*◌, ◌^◌, String, ℤ, pos, Bool, Option, none, List, if◌then◌else◌, str_eq,
}
use api_observability_platfo.Domain.{float_zero, millisecond}
use api_observability_platfo.Contract.{Storage}
use api_observability_platfo.Collector.Config.{BackpressureConfig, drop_newest}
use api_observability_platfo.Collector.Service.{Service, new_service}
use api_observability_platfo.Kafka.{ProducerConfig, ConsumerConfig}
use api_observability_platfo.Processor.Default.{default}
use api_observability_platfo.Processor.Runner.{Runner, Reader}
use api_observability_platfo.Storage.Noop

module _ (env : String → String) where
  unfoldable pub getenv : String → String → String
  getenv k def = if str_eq (env k) "" then def else env k

  module _ (atoi : String → ℤ) where
    unfoldable pub backpressure_config : BackpressureConfig
    unfolding getenv
    backpressure_config = record {
      channel_capacity = atoi (getenv "CHANNEL_CAP" "10000");
      worker_count = pos 0;
      drop_policy = getenv "DROP_POLICY" drop_newest;
      high_watermark = float_zero;
    }

    unfoldable pub collector_service : ℕ → Service
    collector_service num_cpu = new_service num_cpu backpressure_config

  module _ (split : String → List String) where
    unfoldable pub producer_config : ProducerConfig
    unfolding getenv
    producer_config = record {
      brokers = split (getenv "KAFKA_BROKERS" "localhost:9092");
      topic = getenv "KAFKA_TOPIC" "vsan-api-logs";
      batch_bytes = pos (2 ^ 20);
      batch_messages = pos 100;
      batch_timeout = getenv "KAFKA_BATCH_TIMEOUT" "50ms";
      async = str_eq (getenv "KAFKA_ASYNC" "false") "true";
    }

    unfoldable pub consumer_config : ConsumerConfig
    unfolding getenv
    consumer_config = record {
      brokers = split (getenv "KAFKA_BROKERS" "localhost:9092");
      topic = getenv "KAFKA_TOPIC" "vsan-api-logs";
      group_id = getenv "KAFKA_GROUP" "vsan-processor";
      min_bytes = pos 0;
      max_bytes = pos 0;
    }

  -- `influx` makes the InfluxDB storage from the address, the token, the organisation and the bucket.
  module _ {W : Type 0} (influx : String → String → String → String → Storage W)
      (rdr : Reader W) where
    unfoldable pub processor_runner : Runner W
    unfolding getenv
    processor_runner =
        let no_influx = str_eq (env "INFLUX_URL") "" in
        record {
          reader = rdr;
          proc = default;
          storage =
              if no_influx
              then Noop.storage
              else influx (env "INFLUX_URL") (getenv "INFLUX_TOKEN" "") (getenv "INFLUX_ORG" "")
                  (getenv "INFLUX_BUCKET" "vsan");
          batch_max = pos 500;
          flush_int = pos (200 * millisecond);
          backend = if no_influx then "noop" else "influxdb";
        }
