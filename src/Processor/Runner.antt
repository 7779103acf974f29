-- ===== src/Processor/Runner.antt =====
-- internal/app/processor/runner.go. `W` is the world of storage and Kafka; `unmarshal` is
-- `json.Unmarshal` into an event. The goroutine that fetches is the source of the `fetched` events;
-- Runner/Fetching shows that the channel between it and the loop keeps their order.
pub mod Loop
pub mod Turns
pub mod Written
pub mod History
pub mod Intake
pub mod Bounds
pub mod Faults
pub mod Partial
pub mod OverInflux
pub mod Delivery
pub mod Exit
pub mod Restarts
pub mod Fetching
use api_observability_platfo.Base.{
  ℕ, ◌*◌, String, ℤ, pos, pos_part, le_zero, Bool, Option, none, some, List, [], ◌∷◌, ◌++◌, map,
  leb, if◌then◌else◌, length,
}
use api_observability_platfo.Domain.{
  Error, is_err, Time, Duration, since, millisecond, LogEvent, MetricPoint, WriteResult,
}
use api_observability_platfo.Contract.{Context, Processor, Storage}
use api_observability_platfo.Metrics.Processor.{
  Metric, write_latency_seconds, batch_size, process_errors,
}

-- What the program and its offsets use of a `kafka.Message`.
pub record Message : Type 0 where
  pub partition : ℕ
  pub offset : ℕ
  pub value : List ℕ

-- What the loop uses of a `kafka.Reader`.
pub record Reader (W : Type 0) : Type 0 where
  pub commit_messages : Context → List Message → W → Option Error × W

pub record Runner (W : Type 0) : Type 0 where
  pub reader : Reader W
  pub proc : Processor
  pub storage : Storage W
  pub batch_max : ℤ
  pub flush_int : Duration
  pub backend : String

pub record BatchItem : Type 0 where
  pub msg : Message
  pub pt : MetricPoint

-- A call of the world by the runner, with its answer; the two places that commit are told apart.
pub data Call : Type 0 where
  wrote : List MetricPoint → WriteResult → Option Error → Call
  commit_batch : List Message → Option Error → Call
  commit_poison : Message → Option Error → Call

-- `calls`, newest first, and `taken`, all items that were ever put into the buffer, record the
-- history and influence nothing.
pub record RunState (W : Type 0) : Type 0 where
  pub buf : List BatchItem
  pub world : W
  pub metrics : List Metric
  pub calls : List Call
  pub taken : List BatchItem

-- The readings of the clock around a write.
pub record FlushTimes : Type 0 where
  pub start : Time
  pub now : Time

pub record FetchOutcome : Type 0 where
  pub msg : Message
  pub err : Option Error

-- Which case of the `select` is taken, with the context as it is then.
pub data Event : Type 0 where
  cancelled : Context → FlushTimes → Event
  ticked : Context → FlushTimes → Event
  fetched : Context → FlushTimes → FetchOutcome → Event

-- Whether the loop goes on, or `Run` returns.
pub data Verdict : Type 0 where
  goes_on : Verdict
  stops : Option Error → Verdict

module _ {W : Type 0} where
  -- The first lines of `Run`.
  unfoldable pub with_defaults : Runner W → Runner W
  with_defaults r =
      let bm = if le_zero r.batch_max then pos 500 else r.batch_max in
      let fi = if le_zero r.flush_int then pos (200 * millisecond) else r.flush_int in
      record r { batch_max = bm; flush_int = fi }

  abbrev fails_at : String → Runner W → RunState W → RunState W
  fails_at stage r s = record s { metrics = process_errors stage r.backend ∷ s.metrics }

  after_commit : Runner W → Option Error → RunState W → Option Error × RunState W
  after_commit r (some e) s = (some e, fails_at "commit" r s)
  after_commit r none s = (none, record s { buf = [] })

  commit_buffer : Context → Runner W → RunState W → Option Error × RunState W
  commit_buffer ctx r s =
      let msgs = map (λ i. i.msg) s.buf in
      let (err, w) = r.reader.commit_messages ctx msgs s.world in
      after_commit r err (record s { world = w; calls = commit_batch msgs err ∷ s.calls })

  after_write : Context → Runner W → Option Error → RunState W → Option Error × RunState W
  after_write ctx r (some e) s = (some e, fails_at "write" r s)
  after_write ctx r none s = commit_buffer ctx r s

  write_buffer : Context → FlushTimes → Runner W → RunState W → Option Error × RunState W
  write_buffer ctx t r s =
      let points = map (λ i. i.pt) s.buf in
      let ((result, err), w) = r.storage.write_points ctx points s.world in
      after_write ctx r err (record s {
        world = w;
        metrics =
            write_latency_seconds r.backend (since t.start t.now)
            ∷ batch_size (length points)
            ∷ s.metrics;
        calls = wrote points result err ∷ s.calls;
      })

  flush_items :
      Context → FlushTimes → Runner W → List BatchItem → RunState W → Option Error × RunState W
  flush_items ctx t r [] s = (none, s)
  flush_items ctx t r (i ∷ is) s = write_buffer ctx t r s

  unfoldable pub flush : Context → FlushTimes → Runner W → RunState W → Option Error × RunState W
  unfolding flush_items write_buffer after_write commit_buffer after_commit
  flush ctx t r s = flush_items ctx t r s.buf s

  after_poison_commit : Option Error → RunState W → Verdict × RunState W
  after_poison_commit (some e) s = (stops (some e), s)
  after_poison_commit none s = (goes_on, s)

  skip_poison : Context → Runner W → Message → RunState W → Verdict × RunState W
  unfolding after_poison_commit
  skip_poison ctx r m s =
      let counted = fails_at "unmarshal" r s in
      let (err, w) = r.reader.commit_messages ctx (m ∷ []) s.world in
      after_poison_commit err (record counted { world = w; calls = commit_poison m err ∷ s.calls })

  put_in : Context → FlushTimes → Runner W → BatchItem → RunState W → Verdict × RunState W
  put_in ctx t r i s =
      let fuller = record s { buf = s.buf ++ i ∷ []; taken = s.taken ++ i ∷ [] } in
      if leb (pos_part r.batch_max) (length fuller.buf)
      then (goes_on, (flush ctx t r fuller).1)
      else (goes_on, fuller)

  after_process :
      Context
      → FlushTimes
      → Runner W
      → Message
      → MetricPoint × Option Error
      → RunState W
      → Verdict × RunState W
  after_process ctx t r m (pt, some e) s = (goes_on, fails_at "process" r s)
  after_process ctx t r m (pt, none) s = put_in ctx t r (record { msg = m; pt = pt }) s

  after_unmarshal :
      Context
      → FlushTimes
      → Runner W
      → Message
      → LogEvent × Option Error
      → RunState W
      → Verdict × RunState W
  after_unmarshal ctx t r m (ev, some e) s = skip_poison ctx r m s
  after_unmarshal ctx t r m (ev, none) s = after_process ctx t r m (r.proc.process ctx ev) s

  -- A fetch that failed: the loop ends if the context has, and waits half a second otherwise.
  after_fetch_error : Context → FlushTimes → Runner W → RunState W → Verdict × RunState W
  after_fetch_error ctx t r s =
      if is_err ctx.err then (stops ctx.err, (flush ctx t r s).1) else (goes_on, s)

module _ {W : Type 0} (unmarshal : List ℕ → LogEvent × Option Error) where
  on_outcome :
      Context → FlushTimes → Runner W → Message → Option Error → RunState W → Verdict × RunState W
  unfolding after_fetch_error after_unmarshal after_process put_in skip_poison
  on_outcome ctx t r m (some e) s = after_fetch_error ctx t r s
  on_outcome ctx t r m none s = after_unmarshal ctx t r m (unmarshal m.value) s

  -- One turn of the loop.
  unfoldable pub step : Runner W → Event → RunState W → Verdict × RunState W
  unfolding on_outcome
  step r (cancelled ctx t) s = (stops ctx.err, (flush ctx t r s).1)
  step r (ticked ctx t) s = (goes_on, (flush ctx t r s).1)
  step r (fetched ctx t fo) s = on_outcome ctx t r fo.msg fo.err s

  loop_on : (RunState W → Verdict × RunState W) → Verdict × RunState W → Verdict × RunState W
  loop_on rest (goes_on, s) = rest s
  loop_on rest (stops e, s) = (stops e, s)

  unfoldable pub run_loop : Runner W → List Event → RunState W → Verdict × RunState W
  unfolding loop_on
  run_loop r [] s = (goes_on, s)
  run_loop r (e ∷ es) s = loop_on (run_loop r es) (step r e s)

  -- `Run` on the events that come, as far as they go; `goes_on` where it has not returned.
  unfoldable pub run : Runner W → List Event → W → Verdict × RunState W
  unfolding run_loop
  run r es w =
      run_loop (with_defaults r) es
        (record { buf = []; world = w; metrics = []; calls = []; taken = [] })
