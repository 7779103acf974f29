-- ===== src/Processor/Runner/Exit.antt =====
-- How `Run` ends on a cancelled context: its final flush gets that context.
use api_observability_platfo.Base.{
  ℕ, ◌≡◌, ◌≢◌, refl, sym, ap, ◌∙◌, Option, none, List, [], ◌∷◌, ◌++◌, map, arith, append-nil,
}
use api_observability_platfo.Domain.{Error, LogEvent, MetricPoint}
use api_observability_platfo.Contract.{Context, Storage}
use api_observability_platfo.Processor.Runner.{
  BatchItem, Runner, RunState, FlushTimes, Event, cancelled, Verdict, goes_on, stops, with_defaults,
  flush, step, run,
}
use api_observability_platfo.Processor.Runner.Written.{msg_of, pt_of, released}
use api_observability_platfo.Processor.Runner.History.{run_history}
use api_observability_platfo.Processor.Runner.Intake.{wanted, taken-flush, taken-run_loop}
use api_observability_platfo.Processor.Runner.Bounds.{AllOk}
use api_observability_platfo.Processor.Runner.Delivery.{flush_ok, run_loop-snoc}

-- A storage that heeds its context: once that is done, a write of at least one point returns an error
-- and writes nothing.
abbrev pub HeedsContext : {W : Type 0} → Storage W → Type 0
HeedsContext {W} st =
    (ctx : Context) (p : MetricPoint) (ps : List MetricPoint) (w : W)
    → ctx.err ≢ none
    → ((st.write_points ctx (p ∷ ps) w).0.1 ≢ none) × ((st.write_points ctx (p ∷ ps) w).1 ≡ w)

module _ {W : Type 0} where
  refused_flush :
      (ctx : Context) (t : FlushTimes) (r : Runner W) (s : RunState W)
      → HeedsContext r.storage
      → ctx.err ≢ none
      → ((flush ctx t r s).1.buf ≡ s.buf)
        × ((flush ctx t r s).1.world ≡ s.world)
        × (released (flush ctx t r s).1.calls ≡ released s.calls)
  unfolding flush
  refused_flush ctx t r s heeds over = go s.buf refl
    where
      go :
          (is : List BatchItem)
          → s.buf ≡ is
          → ((flush ctx t r s).1.buf ≡ s.buf)
            × ((flush ctx t r s).1.world ≡ s.world)
            × (released (flush ctx t r s).1.calls ≡ released s.calls)
      go [] e = ground (arith, e)
      go (i ∷ is) e = ground (arith, e, heeds ctx (pt_of i) (map pt_of is) s.world over)

module _ {W : Type 0} (unmarshal : List ℕ → LogEvent × Option Error) where
  cancelled_step :
      (r : Runner W) (ctx : Context) (t : FlushTimes) (s : RunState W)
      → step unmarshal r (cancelled ctx t) s ≡ (stops ctx.err, (flush ctx t r s).1)
  unfolding step
  cancelled_step r ctx t s = refl

  -- If the storage heeds its context, in that a write of at least one point returns an error and
  -- writes nothing once the context is done, a cancelled context ends `Run` with its error, and the
  -- final flush does nothing: the store and the messages that are committed stay as they were, and so
  -- does the buffer, which is lost with the process.
  pub cancelled_keeps :
      (r : Runner W) (es : List Event) (w : W) (ctx : Context) (t : FlushTimes)
      → HeedsContext r.storage
      → ctx.err ≢ none
      → (run unmarshal r es w).0 ≡ goes_on
      → let s = (run unmarshal r es w).1 in
        let q = run unmarshal r (es ++ cancelled ctx t ∷ []) w in
        (q.0 ≡ stops ctx.err)
        × (q.1.buf ≡ s.buf)
        × (q.1.world ≡ s.world)
        × (released q.1.calls ≡ released s.calls)
  unfolding run
  cancelled_keeps r es w ctx t heeds over h =
      let d = with_defaults r in
      let last = run_loop-snoc unmarshal d es (cancelled ctx t) _ h ∙ cancelled_step d ctx t _ in
      let refused =
        refused_flush ctx t d (run unmarshal r es w).1 (unfold with_defaults in heeds) over in
      (rw last refl, rw last refused.0, rw last refused.1, rw last refused.2)

  -- If `Run` has not returned, the context is cancelled, and no write and no commit of a batch fails,
  -- those of the final flush included, then `Run` returns the error of the context, the buffer is
  -- empty, and every message that was fetched, decodes and is processed is, once and in the order of
  -- arrival, in a batch whose commit succeeded.
  pub cancelled_delivers :
      (r : Runner W) (es : List Event) (w : W) (ctx : Context) (t : FlushTimes)
      → (run unmarshal r es w).0 ≡ goes_on
      → AllOk (run unmarshal r (es ++ cancelled ctx t ∷ []) w).1.calls
      → let q = run unmarshal r (es ++ cancelled ctx t ∷ []) w in
        (q.0 ≡ stops ctx.err) × (q.1.buf ≡ []) × (released q.1.calls ≡ wanted unmarshal r.proc es)
  unfolding run
  cancelled_delivers r es w ctx t h ok =
      let d = with_defaults r in
      let before = (run unmarshal r es w).1 in
      let q = run unmarshal r (es ++ cancelled ctx t ∷ []) w in
      let last = run_loop-snoc unmarshal d es (cancelled ctx t) _ h ∙ cancelled_step d ctx t _ in
      let empty : q.1.buf ≡ [] = rw last (flush_ok ctx t d before (rw last at ok)) in
      let taken : map msg_of q.1.taken ≡ wanted unmarshal r.proc es =
        ap (map msg_of)
          (ap (λ (p : Verdict × RunState W). p.1.taken) last ∙ taken-flush ctx t d before)
        ∙ (unfold with_defaults in taken-run_loop unmarshal d es _ h) in
      (
        ap (λ (p : Verdict × RunState W). p.0) last,
        empty,
        sym (
            sym taken
            ∙ (run_history unmarshal r (es ++ cancelled ctx t ∷ []) w).1
            ∙ ap (λ b. released q.1.calls ++ map msg_of b) empty
            ∙ append-nil (released q.1.calls)),
      )
