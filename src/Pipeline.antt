-- ===== src/Pipeline.antt =====
-- The way of an event from the collector's queue to the store: a worker of
-- internal/app/collector/service.go with the JSON parser and the Kafka publisher, the topic, and the
-- runner of internal/app/processor with the default processor.
pub mod Topic
pub mod Points
pub mod Delivered
pub mod Lives
pub mod EndToEnd
use api_observability_platfo.Base.{
  ℕ, suc, Option, none, some, List, [], ◌∷◌, ◌++◌, ◌≡◌, ◌<◌, replicate, Bool, not, if◌then◌else◌,
}
use api_observability_platfo.Domain.{Error, is_err, LogEvent, MetricPoint}
use api_observability_platfo.Contract.{Context, Parser, Publisher}
use api_observability_platfo.Metrics.Collector.{Metric}
use api_observability_platfo.Collector.Service.{IngestJob}
use api_observability_platfo.Collector.Worker.{Task, fresh_context}
use api_observability_platfo.Parser.{parse}
use api_observability_platfo.Kafka.{Marshalled, bytes, Writer}
use api_observability_platfo.Processor.Default.{process, default}
use api_observability_platfo.Processor.Runner.{
  Message, Runner, FlushTimes, Event, fetched, Call, wrote, commit_batch,
}

-- The write of the message `m` has put `k` copies of it at the end of the topic, at least one if it
-- returned nil.
abbrev pub IsDelivered :
    {V : Type 0} → (V → List (List ℕ)) → List ℕ → V → ℕ → Option Error × V → Type 0
IsDelivered log m v k (err, v') = (log v' ≡ log v ++ replicate k m) × (err ≡ none → 0 < k)

-- Whatever the state of the broker, the write of one message leaves some number of copies of it in
-- the topic: one, or none if it fails, or more if it is tried again after an acknowledgement was lost;
-- a write that returns nil has left at least one.
abbrev pub IsTopic : {V : Type 0} → (V → List (List ℕ)) → Writer V → Type 0
IsTopic {V} log writer =
    (ctx : Context) (m : List ℕ) (v : V)
    → (k : ℕ) × IsDelivered log m v k (writer.write_messages ctx (m ∷ []) v)

-- Each element as often as the list of numbers says.
abbrev pub repeated {ℓ} : {A : Type ℓ} → List ℕ → List A → List A
repeated (k ∷ ks) (x ∷ xs) = replicate k x ++ repeated ks xs
repeated _ _ = []

-- The messages of a partition from an offset on.
abbrev pub numbered : ℕ → List (List ℕ) → List Message
numbered n [] = []
numbered n (v ∷ vs) = record { partition = 0; offset = n; value = v } ∷ numbered (suc n) vs

-- The points of the batches that were written without an error and committed, oldest first.
abbrev pub stored_behind : List MetricPoint → List Call → List MetricPoint
stored_behind later (wrote pts result none ∷ cs) = later ++ pts
stored_behind later _ = later

abbrev pub stored : List Call → List MetricPoint
stored [] = []
stored (commit_batch msgs none ∷ cs) = stored_behind (stored cs) cs
stored (_ ∷ cs) = stored cs

module _ (unmarshal : List ℕ → LogEvent × Option Error) where
  -- What `Parse` makes of a job.
  abbrev pub event_of_task : Task → LogEvent
  event_of_task (t, j) = (parse unmarshal t.parsing j.payload).0

  -- The payload decodes, and encoding the event and decoding it again gives the same event.
  abbrev pub Travels : (LogEvent → Marshalled) → (LogEvent → List ℕ) → Task → Type 0
  Travels marshal encode x =
      ((parse unmarshal x.0.parsing x.1.payload).1 ≡ none)
      × (marshal (event_of_task x) ≡ bytes (encode (event_of_task x)))
      × (unmarshal (encode (event_of_task x)) ≡ (event_of_task x, none))

  -- The jobs whose payload decodes.
  abbrev pub decodes : Task → Bool
  decodes x = not (is_err (parse unmarshal x.0.parsing x.1.payload).1)

  abbrev pub decoded : List Task → List Task
  decoded [] = []
  decoded (x ∷ xs) = let rest = decoded xs in if decodes x then x ∷ rest else rest

  -- If the payload decodes, encoding the event and decoding it again gives the same event.
  abbrev pub Survives : (LogEvent → Marshalled) → (LogEvent → List ℕ) → Task → Type 0
  Survives marshal encode x =
      (parse unmarshal x.0.parsing x.1.payload).1 ≡ none
      → (marshal (event_of_task x) ≡ bytes (encode (event_of_task x)))
        × (unmarshal (encode (event_of_task x)) ≡ (event_of_task x, none))

  -- The events of the jobs are written one by one, and each leaves as many copies as the list says.
  abbrev pub Deliveries :
      {V : Type 0}
      → (V → List (List ℕ))
      → Writer V
      → (LogEvent → List ℕ)
      → List Task
      → List ℕ
      → V
      → Type 0
  Deliveries log writer encode [] [] v = Unit
  Deliveries log writer encode (x ∷ xs) (k ∷ ks) v =
      let m = encode (event_of_task x) in
      let answer = writer.write_messages fresh_context (m ∷ []) v in
      IsDelivered log m v k answer × Deliveries log writer encode xs ks answer.1
  Deliveries log writer encode _ _ v = ⊥
