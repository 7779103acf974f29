-- ===== src/Processor/Runner/Faults.antt =====
-- How the runner meets faults: failing writes, undecodable messages, a cancelled context.
use api_observability_platfo.Base.{
  ℕ, suc, ◌<◌, ◌≡◌, refl, sym, ap, ◌∙◌, Option, none, some, List, [], ◌∷◌, ◌++◌, map, arith,
  if◌then◌else◌, ◌==◌, ◌≢◌,
}
use Prim.Native.Nat.{max}
use api_observability_platfo.Domain.{Error, LogEvent, MetricPoint, WriteResult}
use api_observability_platfo.Contract.{Context}
use api_observability_platfo.Processor.Runner.{
  Message, Runner, BatchItem, Call, commit_batch, commit_poison, RunState, FlushTimes, Event,
  cancelled, ticked, fetched, goes_on, with_defaults, flush, skip_poison, put_in, after_process,
  after_unmarshal, after_fetch_error, after_poison_commit, on_outcome, step, run,
}
use api_observability_platfo.Processor.Runner.Written.{msg_of, pt_of, released}
use api_observability_platfo.Processor.Runner.Intake.{wanted, run_intake}
use api_observability_platfo.Processor.Runner.Loop.{run_loop_keeps}

-- The position from which a partition is read after a restart: one behind the largest offset that
-- was committed, which is how Kafka keeps the commits of a consumer group.
abbrev pub behind : ℕ → List Message → ℕ
behind p [] = 0
behind p (m ∷ ms) = if m.partition == p then max (suc m.offset) (behind p ms) else behind p ms

abbrev pub restart_at : ℕ → List Call → ℕ
restart_at p [] = 0
restart_at p (commit_batch msgs none ∷ cs) = max (behind p msgs) (restart_at p cs)
restart_at p (commit_poison m none ∷ cs) = max (behind p (m ∷ [])) (restart_at p cs)
restart_at p (_ ∷ cs) = restart_at p cs

-- What a flush returns and leaves in the buffer, by the answers of the write and the commit.
abbrev pub flushed_by : List BatchItem → Option Error → Option Error → Option Error × List BatchItem
flushed_by [] wrote_err commit_err = (none, [])
flushed_by (i ∷ is) (some e) commit_err = (some e, i ∷ is)
flushed_by (i ∷ is) none (some e) = (some e, i ∷ is)
flushed_by (i ∷ is) none none = (none, [])

module _ {W : Type 0} where
  -- What one `flush` does with a buffer that is not empty, for each answer of the world.
  abbrev pub write_answer : Context → Runner W → RunState W → (WriteResult × Option Error) × W
  write_answer ctx r s = r.storage.write_points ctx (map pt_of s.buf) s.world

  abbrev pub commit_answer : Context → Runner W → RunState W → Option Error × W
  commit_answer ctx r s = r.reader.commit_messages ctx (map msg_of s.buf) (write_answer ctx r s).1

  -- `flush` returns the error of the write, else that of the commit, and then keeps the buffer as it
  -- was; it empties the buffer if there was neither. What the write says of single points has no
  -- part in it. An empty buffer is no error.
  pub flush_lem :
      (ctx : Context) (t : FlushTimes) (r : Runner W) (s : RunState W)
      → ((flush ctx t r s).0, (flush ctx t r s).1.buf)
        ≡ flushed_by s.buf (write_answer ctx r s).0.1 (commit_answer ctx r s).0
  unfolding flush
  flush_lem ctx t r s = ground arith

  -- The runner's storage is down: it fails for whatever points it is given, if there are any.
  abbrev pub IsDown : Runner W → Type 0
  IsDown r =
      (ctx : Context) (p : MetricPoint) (ps : List MetricPoint) (w : W)
      → (r.storage.write_points ctx (p ∷ ps) w).0.1 ≢ none

  released-flush :
      (ctx : Context) (t : FlushTimes) (r : Runner W) (s : RunState W)
      → IsDown r
      → released (flush ctx t r s).1.calls ≡ released s.calls
  unfolding flush
  released-flush ctx t r s down = go s.buf refl
    where
      go :
          (is : List BatchItem) → s.buf ≡ is → released (flush ctx t r s).1.calls ≡ released s.calls
      go [] e = ground (arith, e)
      go (i ∷ is) e = ground (arith, e, down ctx (pt_of i) (map pt_of is) s.world)

module _ {W : Type 0} (unmarshal : List ℕ → LogEvent × Option Error) where
  released-step :
      (r : Runner W) (e : Event) (s : RunState W)
      → IsDown r
      → released (step unmarshal r e s).1.calls ≡ released s.calls
  unfolding step on_outcome after_fetch_error after_unmarshal after_process put_in skip_poison
  released-step r (cancelled ctx t) s down = released-flush ctx t r s down
  released-step r (ticked ctx t) s down = released-flush ctx t r s down
  released-step r (fetched ctx t fo) s down =
      let i : BatchItem = record {
        msg = fo.msg;
        pt = (r.proc.process ctx (unmarshal fo.msg.value).0).0;
      } in
      let fuller : RunState W = record s { buf = s.buf ++ i ∷ []; taken = s.taken ++ i ∷ [] } in
      ground (arith, released-flush ctx t r s down, released-flush ctx t r fuller down)

  -- If the storage fails for every write of at least one point and `Run` has not returned, the buffer
  -- holds every message that was fetched, decodes and is processed: nothing bounds it.
  pub outage_grows :
      (r : Runner W) (es : List Event) (w : W)
      → IsDown r
      → (run unmarshal r es w).0 ≡ goes_on
      → map msg_of (run unmarshal r es w).1.buf ≡ wanted unmarshal r.proc es
  unfolding run with_defaults
  outage_grows r es w down h =
      let nothing : released (run unmarshal r es w).1.calls ≡ [] =
        run_loop_keeps unmarshal (with_defaults r) (λ s. released s.calls ≡ [])
          (λ e s none_yet. released-step (with_defaults r) e s down ∙ none_yet) es _ refl in
      ap (λ q. q ++ map msg_of (run unmarshal r es w).1.buf) (sym nothing)
      ∙ sym (run_intake unmarshal r es w h)

  -- An undecodable message is committed at once. If the buffer holds an earlier message of the same
  -- partition and the commit succeeds, then the restart position has passed that message although
  -- it is still in the buffer and nothing was written.
  pub poison_overtakes :
      (r : Runner W) (ctx : Context) (t : FlushTimes) (m : Message) (s : RunState W) (x : BatchItem)
      (is : List BatchItem) (e : Error)
      → s.buf ≡ x ∷ is
      → x.msg.partition ≡ m.partition
      → x.msg.offset < m.offset
      → (unmarshal m.value).1 ≡ some e
      → (r.reader.commit_messages ctx (m ∷ []) s.world).0 ≡ none
      → let s' = (step unmarshal r (fetched ctx t (record { msg = m; err = none })) s).1 in
        (s'.buf ≡ x ∷ is)
        × (s'.calls ≡ commit_poison m none ∷ s.calls)
        × (x.msg.offset < restart_at m.partition s'.calls)
  unfolding step on_outcome after_unmarshal skip_poison after_poison_commit
  poison_overtakes r ctx t m s x is e held same earlier poison committed = ground arith
