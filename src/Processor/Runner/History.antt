-- ===== src/Processor/Runner/History.antt =====
-- What the calls of the runner say of the messages that it took.
use api_observability_platfo.Base.{
  Bool-cases, leb, inl, inr, ℕ, ◌≡◌, refl, Option, none, some, List, [], ◌∷◌, ◌++◌, map,
  append_assoc, length, pos_part, All-append,
}
use mathlib.Core.List.{map-append}
use api_observability_platfo.Metrics.Processor.{Metric}
use api_observability_platfo.Domain.{Error, LogEvent, MetricPoint, is_err}
use api_observability_platfo.Contract.{Context}
use api_observability_platfo.Processor.Runner.Loop.{run_loop_keeps}
use api_observability_platfo.Processor.Runner.{
  Message, Runner, BatchItem, commit_poison, RunState, FlushTimes, Event, cancelled, ticked,
  fetched, with_defaults, skip_poison, put_in, after_process, after_unmarshal, after_fetch_error,
  after_poison_commit, on_outcome, step, run,
}
use api_observability_platfo.Processor.Runner.Written.{
  msg_of, released, IsMade, IsWriteFirst, Inv, flush-Inv,
}

module _ {W : Type 0} (Made : BatchItem → Type 0) where
  put_in-Inv :
      (ctx : Context) (t : FlushTimes) (r : Runner W) (i : BatchItem) (s : RunState W)
      → Made i
      → Inv Made s
      → Inv Made (put_in ctx t r i s).1
  unfolding put_in
  put_in-Inv ctx t r i s well inv =
      let fuller : RunState W = record s { buf = s.buf ++ i ∷ []; taken = s.taken ++ i ∷ [] } in
      let kept : Inv Made fuller = record {
        conserved =
            rw (map-append msg_of s.taken (i ∷ []), map-append msg_of s.buf (i ∷ []))
              (rw inv.conserved (append_assoc (released s.calls) (map msg_of s.buf) (i.msg ∷ [])));
        write_first = inv.write_first;
        made = All-append Made s.buf (i ∷ []) inv.made (well, tt);
      } in
      elim (Bool-cases (leb (pos_part r.batch_max) (length fuller.buf))) [
        | inl full ↦ rw (full, put_in) (flush-Inv Made ctx t r fuller kept)
        | inr roomy ↦ rw (roomy, put_in) kept
      ]

  poisoned-Inv :
      (m : Message) (err : Option Error) (w : W) (ms : List Metric) (s : RunState W)
      → Inv Made s
      → Inv Made
          (after_poison_commit err
            (record s { world = w; metrics = ms; calls = commit_poison m err ∷ s.calls })).1
  unfolding after_poison_commit
  poisoned-Inv m (some e) w ms s inv = record {
    conserved = inv.conserved;
    write_first = inv.write_first;
    made = inv.made;
  }
  poisoned-Inv m none w ms s inv = record {
    conserved = inv.conserved;
    write_first = inv.write_first;
    made = inv.made;
  }

  after_process-Inv :
      (ctx : Context) (t : FlushTimes) (r : Runner W) (m : Message) (p : MetricPoint × Option Error)
      (s : RunState W)
      → ((pt : MetricPoint) → p ≡ (pt, none) → Made (record { msg = m; pt = pt }))
      → Inv Made s
      → Inv Made (after_process ctx t r m p s).1
  unfolding after_process
  after_process-Inv ctx t r m (pt, some e) s well inv = record {
    conserved = inv.conserved;
    write_first = inv.write_first;
    made = inv.made;
  }
  after_process-Inv ctx t r m (pt, none) s well inv =
      put_in-Inv ctx t r (record { msg = m; pt = pt }) s (well pt refl) inv

  after_unmarshal-Inv :
      (ctx : Context) (t : FlushTimes) (r : Runner W) (m : Message) (u : LogEvent × Option Error)
      (s : RunState W)
      → ((pt : MetricPoint)
          → u ≡ (u.0, none)
          → r.proc.process ctx u.0 ≡ (pt, none)
          → Made (record { msg = m; pt = pt }))
      → Inv Made s
      → Inv Made (after_unmarshal ctx t r m u s).1
  unfolding after_unmarshal skip_poison
  after_unmarshal-Inv ctx t r m (ev, some e) s well inv =
      let (err, w) = r.reader.commit_messages ctx (m ∷ []) s.world in poisoned-Inv m err w _ s inv
  after_unmarshal-Inv ctx t r m (ev, none) s well inv =
      after_process-Inv ctx t r m (r.proc.process ctx ev) s (λ pt. well pt refl) inv

  after_fetch_error-Inv :
      (ctx : Context) (t : FlushTimes) (r : Runner W) (s : RunState W)
      → Inv Made s
      → Inv Made (after_fetch_error ctx t r s).1
  unfolding after_fetch_error
  after_fetch_error-Inv ctx t r s inv = elim (Bool-cases (is_err ctx.err)) [
    | inl over ↦ rw (over, after_fetch_error) (flush-Inv Made ctx t r s inv)
    | inr live ↦ rw (live, after_fetch_error) inv
  ]

module _ {W : Type 0} (unmarshal : List ℕ → LogEvent × Option Error) where
  on_outcome-Inv :
      (ctx : Context) (t : FlushTimes) (r : Runner W) (m : Message) (err : Option Error)
      (s : RunState W)
      → Inv (IsMade unmarshal r.proc) s
      → Inv (IsMade unmarshal r.proc) (on_outcome unmarshal ctx t r m err s).1
  unfolding on_outcome
  on_outcome-Inv ctx t r m (some e) s inv =
      after_fetch_error-Inv (IsMade unmarshal r.proc) ctx t r s inv
  on_outcome-Inv ctx t r m none s inv =
      after_unmarshal-Inv (IsMade unmarshal r.proc) ctx t r m (unmarshal m.value) s
        (λ pt decoded processed. (ctx, (unmarshal m.value).0, decoded, processed)) inv

  step-Inv :
      (r : Runner W) (e : Event) (s : RunState W)
      → Inv (IsMade unmarshal r.proc) s
      → Inv (IsMade unmarshal r.proc) (step unmarshal r e s).1
  unfolding step
  step-Inv r (cancelled ctx t) s inv = flush-Inv (IsMade unmarshal r.proc) ctx t r s inv
  step-Inv r (ticked ctx t) s inv = flush-Inv (IsMade unmarshal r.proc) ctx t r s inv
  step-Inv r (fetched ctx t fo) s inv = on_outcome-Inv ctx t r fo.msg fo.err s inv

  -- At-least-once. Whatever storage, Kafka and the clock answer, a batch is committed only straight
  -- after a write that returned no error, of the points that the processor made of its messages, one
  -- for each and in order; and the messages that the runner took into its buffer are, in the order
  -- of arrival, those of the batches whose commit succeeded followed by those still in the buffer.
  pub run_history :
      (r : Runner W) (es : List Event) (w : W)
      → let s = (run unmarshal r es w).1 in
        IsWriteFirst (IsMade unmarshal r.proc) s.calls
        × (map msg_of s.taken ≡ released s.calls ++ map msg_of s.buf)
  unfolding run with_defaults
  run_history r es w =
      let inv =
        run_loop_keeps unmarshal (with_defaults r) (Inv (IsMade unmarshal r.proc))
          (step-Inv (with_defaults r)) es _
          (record { conserved = refl; write_first = tt; made = tt }) in
      (inv.write_first, inv.conserved)
