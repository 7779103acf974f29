-- ===== src/Processor/Runner/Delivery.antt =====
-- That what the runner took gets out, where storage and Kafka answer without an error.
use api_observability_platfo.Base.{
  ℕ, ◌≡◌, refl, sym, ap, ◌∙◌, Option, List, [], ◌∷◌, ◌++◌, map, arith, append-nil,
}
use api_observability_platfo.Domain.{Error, LogEvent}
use api_observability_platfo.Contract.{Context, Processor}
use api_observability_platfo.Processor.Runner.{
  Runner, RunState, FlushTimes, Event, ticked, Verdict, goes_on, stops, with_defaults, flush, step,
  loop_on, run_loop, run,
}
use api_observability_platfo.Processor.Runner.Written.{msg_of, released}
use api_observability_platfo.Processor.Runner.Intake.{wanted, wanted-cons, run_intake}
use api_observability_platfo.Processor.Runner.Bounds.{AllOk}

module _ {W : Type 0} where
  pub flush_ok :
      (ctx : Context) (t : FlushTimes) (r : Runner W) (s : RunState W)
      → AllOk (flush ctx t r s).1.calls
      → (flush ctx t r s).1.buf ≡ []
  unfolding flush
  flush_ok ctx t r s ok = ground arith

wanted-snoc :
    (unmarshal : List ℕ → LogEvent × Option Error) (p : Processor) (es : List Event) (ctx : Context)
    (t : FlushTimes)
    → wanted unmarshal p (es ++ ticked ctx t ∷ []) ≡ wanted unmarshal p es
unfolding wanted
wanted-snoc unmarshal p [] ctx t = refl
wanted-snoc unmarshal p (e ∷ es) ctx t =
    wanted-cons unmarshal p e (es ++ ticked ctx t ∷ [])
    ∙ ap (λ q. wanted unmarshal p (e ∷ []) ++ q) (wanted-snoc unmarshal p es ctx t)
    ∙ sym (wanted-cons unmarshal p e es)

module _ {W : Type 0} (unmarshal : List ℕ → LogEvent × Option Error) where
  loop_once :
      (r : Runner W) (q : Verdict × RunState W) → loop_on unmarshal (run_loop unmarshal r []) q ≡ q
  unfolding run_loop
  loop_once r (goes_on, s) = refl
  loop_once r (stops x, s) = refl

  pub run_loop-snoc :
      (r : Runner W) (es : List Event) (e : Event) (s : RunState W)
      → (run_loop unmarshal r es s).0 ≡ goes_on
      → run_loop unmarshal r (es ++ e ∷ []) s ≡ step unmarshal r e (run_loop unmarshal r es s).1
  unfolding run_loop
  run_loop-snoc r [] e s h = loop_once r (step unmarshal r e s)
  run_loop-snoc r (d ∷ es) e s h = go (step unmarshal r d s) (run_loop-snoc r es e) h
    where
      go :
          (q : Verdict × RunState W)
          → ((u : RunState W)
              → (run_loop unmarshal r es u).0 ≡ goes_on
              → run_loop unmarshal r (es ++ e ∷ []) u
                ≡ step unmarshal r e (run_loop unmarshal r es u).1)
          → (loop_on unmarshal (run_loop unmarshal r es) q).0 ≡ goes_on
          → loop_on unmarshal (run_loop unmarshal r (es ++ e ∷ [])) q
            ≡ step unmarshal r e (loop_on unmarshal (run_loop unmarshal r es) q).1
      go (goes_on, u) rest ran = rest u ran
      go (stops x, u) rest ran = cc

  -- If `Run` has not returned, the ticker then fires, and no write and no commit of a batch has
  -- failed up to the end of that flush, then the buffer is empty and every message that was fetched,
  -- decodes and is processed is, once and in the order of arrival, in a batch whose commit succeeded.
  pub run_delivers :
      (r : Runner W) (es : List Event) (w : W) (ctx : Context) (t : FlushTimes)
      → (run unmarshal r es w).0 ≡ goes_on
      → AllOk (run unmarshal r (es ++ ticked ctx t ∷ []) w).1.calls
      → let s = (run unmarshal r (es ++ ticked ctx t ∷ []) w).1 in
        (s.buf ≡ []) × (released s.calls ≡ wanted unmarshal r.proc es)
  unfolding run step
  run_delivers r es w ctx t h ok =
      let before = (run unmarshal r es w).1 in
      let last = run_loop-snoc (with_defaults r) es (ticked ctx t) _ h in
      let empty : (run unmarshal r (es ++ ticked ctx t ∷ []) w).1.buf ≡ [] =
        rw last (flush_ok ctx t (with_defaults r) before (rw last at ok)) in
      let all =
        run_intake unmarshal r (es ++ ticked ctx t ∷ []) w
          (ap (λ (q : Verdict × RunState W). q.0) last) in
      (
        empty,
        sym (
            sym (wanted-snoc unmarshal r.proc es ctx t)
            ∙ all
            ∙ ap
                (λ q.
                  released (run unmarshal r (es ++ ticked ctx t ∷ []) w).1.calls ++ map msg_of q)
                empty
            ∙ append-nil _),
      )
