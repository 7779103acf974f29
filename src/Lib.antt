-- ===== src/Lib.antt =====
-- The API observability platform: a collector that takes API logs over HTTP and publishes them to
-- Kafka, a processor that reads them from Kafka and writes metric points to a time series database,
-- and a query API whose repository is a stub.
--
-- The parts. A request to POST /v1/ingest calls `Ingest`, which copies the body with a pooled buffer
-- and puts a job into a bounded channel, by the policy of the configuration. Worker goroutines take
-- the jobs, parse and publish them. `Shutdown` closes the channel and waits for the workers. The
-- runner of the processor fetches the messages, decodes them, makes points of them, writes the
-- points in batches and commits the messages of a batch that was written.
--
-- Files, and what they model:
--   Domain, Contract        internal/domain, internal/contract: records, errors, interfaces
--   Metrics                 internal/infra/metrics: an observation is an entry of a log, newest first;
--                           Metrics/Descriptors is what `NewCollector`, `NewProcessor` and `NewHTTP`
--                           register; Metrics/Total sums over lists
--   Collector/Config        internal/app/collector/config.go and the defaults of `NewService`
--   Collector/Pool          internal/app/collector/pool.go, `copyPayload`, `ReadBodyIntoPool`
--   Collector/Pool/Memory   `copyPayload`, `Get` and `Put` again, statement by statement, for any number
--                           of calls at once on a memory with addresses that they share
--   Collector/Chan          Go's buffered channel as the collector and the runner use it
--   Collector/Service       internal/app/collector/service.go: `NewService`, `Ingest`, `enqueue`,
--                           `observeDepth`, `IngestBatch`, each as a function of the service
--   Collector/Enqueue       the same file: `enqueue` in steps, one for each `select`
--   Collector/Worker        the same file: `handleJob`, and `workerLoop` for one worker alone
--   Collector/System        the same file as it runs: a `Move` is one `select` of `enqueue`, the
--                           counters behind it, a receive of a worker, one `handleJob`, or the close
--                           of `Shutdown`; `fire` makes one move and `run` a list of them, so that
--                           every order of moves is one list
--   Processor/Default       internal/app/processor/defaultproc.go
--   Processor/Runner        internal/app/processor/runner.go: `flush`, one turn of the loop as `step`,
--                           `Run` on the events that its `select` sees as `run`
--   Processor/Runner/Fetching the same `Run` with the goroutine that fetches, the channel of 8 between
--                           it and the loop, and the end of the context; a list of `RunMove`s is one
--                           order of their steps
--   Processor/Runner/Restarts the runner over several lives, each reading from the position that the
--                           commits of the earlier ones have left with Kafka
--   Storage                 internal/infra/storage: InfluxDB and the one without effect
--   Parser                  internal/parser/json.go
--   Http                    internal/infra/http/router.go, the path label of metrics/http.go
--   Http/Middleware         infra/metrics/http.go: `Middleware`, round the ingest handler
--   Kafka                   internal/infra/kafka
--   Runtime                 internal/infra/runtime/shutdown.go: `WaitGroupClose`
--   Runtime/Server          the same file: `HTTPServer` as a state machine on what the server's calls
--                           return, `SleepInterruptible`, `MetricsHandler`, `MustHostname`
--   Query                   internal/app/query/memory_repo.go
--   Cmd                     cmd/collector/main.go and cmd/processor/main.go: what the programs take from
--                           the environment; Cmd/Timeouts the time limits of the shutdown
--   Cmd/Lifecycle           cmd/collector/main.go from the start of its server to its end, as a state
--                           machine whose other moves are those of Collector/System
--   Cmd/ProcessorMain       cmd/processor/main.go from `run.Run` on; ProcessorMain/Beside the same with
--                           the goroutines of `Run` and of the metrics server beside it
--   Cmd/QueryApi            cmd/query-api/main.go: routes, answer, and the wait for its signal
--   Pipeline                the collector, the topic and the runner of the processor in succession:
--                           Pipeline/Topic what the writes of the workers leave in the topic, Delivered
--                           and Points what its messages carry, Pipeline/Lives a processor that
--                           crashes and comes back, Pipeline/EndToEnd the programs from start to end
--   Base                    names of the library, lists and integers over the native numbers;
--                           Base/Reads reads and writes of a list at an index
--   Tests                   runs at small inputs, and the theorems at such inputs
-- The modules below these hold the theorems: System/Invariant says what holds in every state of the
-- collector, System/Selects and System/Preserved that every move keeps it, System/Accounts what
-- follows, System/Jobs follows each job by its identity, System/Hands says what the workers hold,
-- System/InTurn and System/Order say in which order the workers publish, System/Drain and
-- System/Crashes treat the shutdown; Lifecycle/Kept says what `main` keeps of all that; Runner/Written
-- and Runner/History do for the runner what Invariant and Accounts do for the collector.
--
-- Conventions. Code outside the repository is a parameter: json.Unmarshal and json.Marshal, the
-- growth of a bytes.Buffer, os.Getenv, strconv.Atoi and strings.Split, which buffer a sync.Pool hands
-- out, time.ParseDuration, the clients of Kafka and InfluxDB with the world `W` that they change, and
-- the clock, whose readings are arguments. A Go `error` is `Option Error`, none for nil. A call that
-- may panic returns a `Flow`.
-- Go's int is the integers: the counters and lengths of the program stay far below 2^63. A float64
-- is its bit pattern. The fields `entered`, `left`, `evicted`, `handled` and `phantoms` of a
-- collector, `calls` and `taken` of a runner, and `events` and `answered` of a running `Run` record the
-- history and influence nothing.
--
-- Fuel. No function takes fuel: the loops over slices and events are structural, and the loops of
-- the goroutines are moves, so that a run of any length is a list of them.
--
-- Not modelled: the JSON codec, the Prometheus client, gin's matching and recovery, kafka-go, the
-- InfluxDB client, net/http, errgroup, signals and time.ParseDuration, whose code is not in the
-- repository (Runtime/Server and Cmd/Lifecycle state what they take from the documentation of
-- errgroup and of net/http, Runner/Restarts and Pipeline what they take from that of Kafka; Pipeline
-- is about a writer that waits for its acknowledgements, `Async` being false, and a topic of one
-- partition); NotifyContext, one call of os/signal; log lines; and the half second that the runner
-- sleeps behind a failed fetch. The 10 ms ticker of `Shutdown` is the freedom to close whenever the
-- channel is empty.
pub mod Base
pub mod Domain
pub mod Metrics
pub mod Contract
pub mod Collector
pub mod Processor
pub mod Storage
pub mod Parser
pub mod Http
pub mod Kafka
pub mod Runtime
pub mod Query
pub mod Cmd
pub mod Pipeline
pub mod Tests
