-- ===== src/Processor/Runner/Bounds.antt =====
-- How large the buffer and the batches get.
use api_observability_platfo.Base.{
  ℕ, ◌≤◌, ◌<◌, ◌≡◌, refl, Option, none, some, List, [], ◌∷◌, ◌++◌, arith, Bool-cases, leb, inl, inr,
  pos_part, length, length-map, length-snoc,
}
use native.Mathlib.Nat.{le_of_lt}
use api_observability_platfo.Domain.{Error, LogEvent, MetricPoint, is_err}
use api_observability_platfo.Contract.{Context}
use api_observability_platfo.Processor.Runner.Loop.{run_loop_keeps}
use api_observability_platfo.Processor.Runner.{
  Message, Runner, BatchItem, Call, wrote, commit_batch, commit_poison, RunState, FlushTimes, Event,
  cancelled, ticked, fetched, with_defaults, flush, skip_poison, put_in, after_process,
  after_unmarshal, after_fetch_error, after_poison_commit, on_outcome, step, run,
}
use api_observability_platfo.Processor.Runner.Written.{pt_of}

-- No flush has failed so far.
abbrev pub AllOk : List Call → Type 0
AllOk [] = Unit
AllOk (wrote pts result err ∷ cs) = (err ≡ none) × AllOk cs
AllOk (commit_batch msgs err ∷ cs) = (err ≡ none) × AllOk cs
AllOk (commit_poison m err ∷ cs) = AllOk cs

-- No write had more points than `n`.
abbrev pub Sized : ℕ → List Call → Type 0
Sized n [] = Unit
Sized n (wrote pts result err ∷ cs) = (length pts ≤ n) × Sized n cs
Sized n (_ ∷ cs) = Sized n cs

module _ {W : Type 0} where
  record IsSmall (n : ℕ) (s : RunState W) : Type 0 where
    room : AllOk s.calls → length s.buf < n
    sized : AllOk s.calls → Sized n s.calls

  flush-IsSmall :
      (n : ℕ) (ctx : Context) (t : FlushTimes) (r : Runner W) (s : RunState W)
      → 0 < n
      → (AllOk s.calls → length s.buf ≤ n)
      → (AllOk s.calls → Sized n s.calls)
      → IsSmall n (flush ctx t r s).1
  unfolding flush
  flush-IsSmall n ctx t r s h small sized = ground (arith, length-map pt_of s.buf)

  module _ (n : ℕ) (ctx : Context) (t : FlushTimes) (r : Runner W) (room : 0 < n)
      (cap : pos_part r.batch_max ≡ n) where
    flushed-IsSmall : (s : RunState W) → IsSmall n s → IsSmall n (flush ctx t r s).1
    flushed-IsSmall s h = flush-IsSmall n ctx t r s room (λ ok. le_of_lt (h.room ok)) h.sized

    put_in-IsSmall :
        (i : BatchItem) (s : RunState W) → IsSmall n s → IsSmall n (put_in ctx t r i s).1
    unfolding put_in
    put_in-IsSmall i s h =
        let fuller : RunState W = record s { buf = s.buf ++ i ∷ []; taken = s.taken ++ i ∷ [] } in
        let fits : AllOk s.calls → length fuller.buf ≤ n =
          λ ok. omega (arith, length-snoc s.buf i, h.room ok) in
        elim (Bool-cases (leb (pos_part r.batch_max) (length fuller.buf))) [
          | inl full ↦ rw (full, put_in) (flush-IsSmall n ctx t r fuller room fits h.sized)
          | inr roomy ↦ rw (roomy, put_in) (record { room = λ ok. ground arith; sized = h.sized })
        ]

    processed-IsSmall :
        (m : Message) (p : MetricPoint × Option Error) (s : RunState W)
        → IsSmall n s
        → IsSmall n (after_process ctx t r m p s).1
    unfolding after_process
    processed-IsSmall m (pt, some e) s h = record { room = h.room; sized = h.sized }
    processed-IsSmall m (pt, none) s h = put_in-IsSmall (record { msg = m; pt = pt }) s h

    fetched-IsSmall :
        (m : Message) (u : LogEvent × Option Error) (s : RunState W)
        → IsSmall n s
        → IsSmall n (after_unmarshal ctx t r m u s).1
    unfolding after_unmarshal skip_poison after_poison_commit after_process
    fetched-IsSmall m (ev, some e) s h = ground (arith, h)
    fetched-IsSmall m (ev, none) s h = processed-IsSmall m (r.proc.process ctx ev) s h

    fetch_error-IsSmall : (s : RunState W) → IsSmall n s → IsSmall n (after_fetch_error ctx t r s).1
    unfolding after_fetch_error
    fetch_error-IsSmall s h = elim (Bool-cases (is_err ctx.err)) [
      | inl over ↦ rw (over, after_fetch_error) (flushed-IsSmall s h)
      | inr live ↦ rw (live, after_fetch_error) h
    ]

module _ {W : Type 0} where
  -- The batch size that the loop works with: the configured one if it is positive, else 500.
  pub effective_batch : Runner W → ℕ
  effective_batch r = pos_part (with_defaults r).batch_max

  effective_batch_pos : (r : Runner W) → 0 < effective_batch r
  unfolding effective_batch with_defaults
  effective_batch_pos r = ground arith

module _ {W : Type 0} (unmarshal : List ℕ → LogEvent × Option Error) where
  step-IsSmall :
      (n : ℕ) (r : Runner W)
      → 0 < n
      → pos_part r.batch_max ≡ n
      → (e : Event) (s : RunState W) → IsSmall n s
      → IsSmall n (step unmarshal r e s).1
  unfolding step on_outcome
  step-IsSmall n r room cap (cancelled ctx t) s h = flushed-IsSmall n ctx t r room cap s h
  step-IsSmall n r room cap (ticked ctx t) s h = flushed-IsSmall n ctx t r room cap s h
  step-IsSmall n r room cap (fetched ctx t fo) s h = go fo.err
    where
      go : (err : Option Error) → IsSmall n (on_outcome unmarshal ctx t r fo.msg err s).1
      go (some e) = fetch_error-IsSmall n ctx t r room cap s h
      go none = fetched-IsSmall n ctx t r room cap fo.msg (unmarshal fo.msg.value) s h

  -- As long as no write and no commit of a batch has failed, the buffer stays below the batch size,
  -- and no write had more points than that.
  pub run_bounded :
      (r : Runner W) (es : List Event) (w : W)
      → AllOk (run unmarshal r es w).1.calls
      → (length (run unmarshal r es w).1.buf < effective_batch r)
        × Sized (effective_batch r) (run unmarshal r es w).1.calls
  unfolding run
  run_bounded r es w ok =
      let n = effective_batch r in
      let room = effective_batch_pos r in
      let small =
        run_loop_keeps unmarshal (with_defaults r) (IsSmall n)
          (step-IsSmall n (with_defaults r) room (unfold effective_batch in refl)) es _
          (record { room = λ _. room; sized = λ _. tt }) in
      (small.room ok, small.sized ok)
