-- ===== src/Kafka.antt =====
-- internal/infra/kafka: `Publisher` and `NewReader` over the calls of kafka-go. `marshal` is
-- `json.Marshal` of an event, `parse_duration` is `time.ParseDuration`.
pub mod Delivery
use api_observability_platfo.Base.{
  ℕ, ◌*◌, ◌^◌, String, ℤ, pos, le_zero, Bool, Option, none, some, List, [], ◌∷◌, ◌++◌,
  if◌then◌else◌, str_eq,
}
use api_observability_platfo.Domain.{Error, Duration, millisecond, LogEvent}
use api_observability_platfo.Contract.{Context, Publisher}

pub record ProducerConfig : Type 0 where
  pub brokers : List String
  pub topic : String
  pub batch_bytes : ℤ
  pub batch_messages : ℤ
  pub batch_timeout : String
  pub async : Bool

pub record ConsumerConfig : Type 0 where
  pub brokers : List String
  pub topic : String
  pub group_id : String
  pub min_bytes : ℤ
  pub max_bytes : ℤ

-- The fields of the `kafka.Writer` that differ between configurations; the balancer and the demand
-- for all acknowledgements are fixed.
pub record WriterConfig : Type 0 where
  pub addr : List String
  pub topic : String
  pub batch_bytes : ℤ
  pub batch_size : ℤ
  pub batch_timeout : Duration
  pub async : Bool

or_default : ℤ → ℤ → ℤ
or_default d n = if le_zero n then d else n

parsed_or : Duration → Option Duration → Duration
parsed_or d none = d
parsed_or d (some t) = t

timeout_of : (String → Option Duration) → String → Duration
unfolding parsed_or
timeout_of parse_duration t =
    if str_eq t ""
    then pos (50 * millisecond)
    else parsed_or (pos (50 * millisecond)) (parse_duration t)

unfoldable pub new_publisher : (String → Option Duration) → ProducerConfig → WriterConfig
unfolding or_default timeout_of
new_publisher parse_duration cfg = record {
  addr = cfg.brokers;
  topic = cfg.topic;
  batch_bytes = or_default (pos (2 ^ 20)) cfg.batch_bytes;
  batch_size = or_default (pos 100) cfg.batch_messages;
  batch_timeout = timeout_of parse_duration cfg.batch_timeout;
  async = cfg.async;
}

unfoldable pub new_reader : ConsumerConfig → ConsumerConfig
unfolding or_default
new_reader cfg = record cfg {
  min_bytes = or_default (pos 10_000) cfg.min_bytes;
  max_bytes = or_default (pos 10_000_000) cfg.max_bytes;
}

-- What the publisher uses of a `kafka.Writer`: the values of the messages that it writes.
pub record Writer (W : Type 0) : Type 0 where
  pub write_messages : Context → List (List ℕ) → W → Option Error × W
  pub close : W → Option Error × W

-- `json.Marshal` gives bytes or an error.
pub data Marshalled : Type 0 where
  bytes : List ℕ → Marshalled
  fails : Error → Marshalled

pub data Values : Type 0 where
  all_values : List (List ℕ) → Values
  first_error : Error → Values

module _ {W : Type 0} (marshal : LogEvent → Marshalled) (writer : Writer W) where
  append_value : (List (List ℕ) → Values) → List (List ℕ) → Marshalled → Values
  append_value rest msgs (bytes b) = rest (msgs ++ b ∷ [])
  append_value rest msgs (fails e) = first_error e

  marshal_all : List LogEvent → List (List ℕ) → Values
  unfolding append_value
  marshal_all [] msgs = all_values msgs
  marshal_all (e ∷ es) msgs = append_value (marshal_all es) msgs (marshal e)

  write_values : Context → Values → W → Option Error × W
  write_values ctx (all_values msgs) w = writer.write_messages ctx msgs w
  write_values ctx (first_error e) w = (some e, w)

  unfoldable pub publish : Context → List LogEvent → W → Option Error × W
  unfolding marshal_all write_values
  publish ctx events w = write_values ctx (marshal_all events []) w

  unfoldable pub close : W → Option Error × W
  close w = writer.close w

  unfoldable pub publisher : Publisher W
  unfolding publish close
  publisher = record { publish = publish; close = close }
