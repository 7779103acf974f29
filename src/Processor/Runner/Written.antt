-- ===== src/Processor/Runner/Written.antt =====
-- What a flush writes and commits: the calls of the runner keep its accounts.
use api_observability_platfo.Base.{
  ℕ, ◌≡◌, refl, Option, none, some, List, [], ◌∷◌, ◌++◌, map, append-nil, All,
}
use api_observability_platfo.Metrics.Processor.{Metric}
use api_observability_platfo.Domain.{WriteResult, Error, LogEvent, MetricPoint}
use api_observability_platfo.Contract.{Context, Processor}
use api_observability_platfo.Processor.Runner.{
  Message, Runner, BatchItem, Call, wrote, commit_batch, RunState, FlushTimes, flush, flush_items,
  write_buffer, after_write, commit_buffer, after_commit,
}

abbrev pub msg_of : BatchItem → Message
msg_of i = i.msg

abbrev pub pt_of : BatchItem → MetricPoint
pt_of i = i.pt

-- The messages of all batches whose commit succeeded, oldest first.
abbrev pub released : List Call → List Message
released [] = []
released (commit_batch msgs none ∷ cs) = released cs ++ msgs
released (_ ∷ cs) = released cs

-- The message decodes, and the point is what the processor makes of its event.
abbrev pub IsMade : (List ℕ → LogEvent × Option Error) → Processor → BatchItem → Type 0
IsMade unmarshal p i =
    (ctx : Context) × (e : LogEvent) × (unmarshal i.msg.value ≡ (e, none))
    × (p.process ctx e ≡ (i.pt, none))

-- The last call was a write of the points of these messages, and it returned no error. `Made` says
-- which point belongs to which message.
abbrev pub JustWrote : (BatchItem → Type 0) → List Message → List Call → Type 0
JustWrote Made msgs (wrote pts result none ∷ cs) =
    (items : List BatchItem) × (msgs ≡ map msg_of items) × (pts ≡ map pt_of items) × All Made items
JustWrote Made msgs _ = ⊥

-- Every commit of a batch comes straight after a write of its points without an error.
abbrev pub IsWriteFirst : (BatchItem → Type 0) → List Call → Type 0
IsWriteFirst Made [] = Unit
IsWriteFirst Made (commit_batch msgs err ∷ cs) = JustWrote Made msgs cs × IsWriteFirst Made cs
IsWriteFirst Made (_ ∷ cs) = IsWriteFirst Made cs

module _ {W : Type 0} (Made : BatchItem → Type 0) where
  pub record Inv (s : RunState W) : Type 0 where
    pub conserved : map msg_of s.taken ≡ released s.calls ++ map msg_of s.buf
    pub write_first : IsWriteFirst Made s.calls
    pub made : All Made s.buf

  committed-Inv :
      (r : Runner W) (err : Option Error) (w : W) (s : RunState W)
      → JustWrote Made (map msg_of s.buf) s.calls
      → Inv s
      → Inv
          (after_commit r err
            (record s { world = w; calls = commit_batch (map msg_of s.buf) err ∷ s.calls })).1
  unfolding after_commit
  committed-Inv r (some e) w s just inv = record {
    conserved = inv.conserved;
    write_first = (just, inv.write_first);
    made = inv.made;
  }
  committed-Inv r none w s just inv = record {
    conserved = rw append-nil inv.conserved;
    write_first = (just, inv.write_first);
    made = tt;
  }

  written-Inv :
      (ctx : Context) (r : Runner W) (result : WriteResult) (err : Option Error) (w : W)
      (m : List Metric) (s : RunState W)
      → Inv s
      → Inv
          (after_write ctx r err (record s {
            world = w;
            metrics = m;
            calls = wrote (map pt_of s.buf) result err ∷ s.calls;
          })).1
  unfolding after_write commit_buffer
  written-Inv ctx r result (some e) w m s inv = record {
    conserved = inv.conserved;
    write_first = inv.write_first;
    made = inv.made;
  }
  written-Inv ctx r result none w m s inv =
      let wrote_it = record s {
        world = w;
        metrics = m;
        calls = wrote (map pt_of s.buf) result none ∷ s.calls;
      } in
      let (err, w') = r.reader.commit_messages ctx (map msg_of s.buf) w in
      committed-Inv r err w' wrote_it (s.buf, refl, refl, inv.made)
        (record { conserved = inv.conserved; write_first = inv.write_first; made = inv.made })

  flush_items-Inv :
      (ctx : Context) (t : FlushTimes) (r : Runner W) (items : List BatchItem) (s : RunState W)
      → Inv s
      → Inv (flush_items ctx t r items s).1
  unfolding flush_items write_buffer
  flush_items-Inv ctx t r [] s inv = inv
  flush_items-Inv ctx t r (i ∷ is) s inv =
      let ((result, err), w) = r.storage.write_points ctx (map pt_of s.buf) s.world in
      written-Inv ctx r result err w _ s inv

  pub flush-Inv :
      (ctx : Context) (t : FlushTimes) (r : Runner W) (s : RunState W)
      → Inv s
      → Inv (flush ctx t r s).1
  unfolding flush
  flush-Inv ctx t r s inv = flush_items-Inv ctx t r s.buf s inv
