-- ===== src/Processor/Runner/Intake.antt =====
-- Which messages the runner takes into its buffer.
use api_observability_platfo.Base.{
  ℕ, ◌≡◌, refl, sym, ap, ◌∙◌, Option, none, some, List, [], ◌∷◌, ◌++◌, map, arith, append_assoc,
  append-nil,
}
use mathlib.Core.List.{map-append}
use api_observability_platfo.Domain.{Error, LogEvent, MetricPoint}
use api_observability_platfo.Contract.{Context, Processor}
use api_observability_platfo.Processor.Runner.{
  Message, Runner, BatchItem, RunState, FlushTimes, Event, cancelled, ticked, fetched, Verdict,
  goes_on, stops, with_defaults, flush, skip_poison, put_in, after_process, after_unmarshal,
  after_fetch_error, after_poison_commit, on_outcome, step, loop_on, run_loop, run,
}
use api_observability_platfo.Processor.Runner.Written.{msg_of, released}
use api_observability_platfo.Processor.Runner.History.{run_history}

-- The message of a fetch that succeeded, whose value decodes and whose event is processed.
abbrev pub if_processed : Message → MetricPoint × Option Error → List Message
if_processed m (pt, none) = m ∷ []
if_processed m (pt, some e) = []

abbrev pub if_decoded : Processor → Context → Message → LogEvent × Option Error → List Message
if_decoded p ctx m (ev, none) = if_processed m (p.process ctx ev)
if_decoded p ctx m (ev, some e) = []

abbrev pub if_fetched :
    (List ℕ → LogEvent × Option Error) → Processor → Context → Message → Option Error → List Message
if_fetched unmarshal p ctx m none = if_decoded p ctx m (unmarshal m.value)
if_fetched unmarshal p ctx m (some e) = []

unfoldable pub wanted : (List ℕ → LogEvent × Option Error) → Processor → List Event → List Message
wanted unmarshal p [] = []
wanted unmarshal p (cancelled ctx t ∷ es) = wanted unmarshal p es
wanted unmarshal p (ticked ctx t ∷ es) = wanted unmarshal p es
wanted unmarshal p (fetched ctx t fo ∷ es) =
    if_fetched unmarshal p ctx fo.msg fo.err ++ wanted unmarshal p es

pub wanted-cons :
    (unmarshal : List ℕ → LogEvent × Option Error) (p : Processor) (e : Event) (es : List Event)
    → wanted unmarshal p (e ∷ es) ≡ wanted unmarshal p (e ∷ []) ++ wanted unmarshal p es
unfolding wanted
wanted-cons unmarshal p (cancelled ctx t) es = refl
wanted-cons unmarshal p (ticked ctx t) es = refl
wanted-cons unmarshal p (fetched ctx t fo) es = rw append-nil

module _ {W : Type 0} where
  pub taken-flush :
      (ctx : Context) (t : FlushTimes) (r : Runner W) (s : RunState W)
      → (flush ctx t r s).1.taken ≡ s.taken
  unfolding flush
  taken-flush ctx t r s = ground arith

  taken-put_in :
      (ctx : Context) (t : FlushTimes) (r : Runner W) (i : BatchItem) (s : RunState W)
      → (put_in ctx t r i s).1.taken ≡ s.taken ++ i ∷ []
  unfolding put_in
  taken-put_in ctx t r i s =
      ground
        (arith, taken-flush ctx t r (record s { buf = s.buf ++ i ∷ []; taken = s.taken ++ i ∷ [] }))

  taken-after_process :
      (ctx : Context) (t : FlushTimes) (r : Runner W) (m : Message) (p : MetricPoint × Option Error)
      (s : RunState W)
      → map msg_of (after_process ctx t r m p s).1.taken ≡ map msg_of s.taken ++ if_processed m p
  unfolding after_process
  taken-after_process ctx t r m (pt, some e) s = rw append-nil
  taken-after_process ctx t r m (pt, none) s =
      let i : BatchItem = record { msg = m; pt = pt } in
      ap (map msg_of) (taken-put_in ctx t r i s) ∙ map-append msg_of s.taken (i ∷ [])

  taken-after_unmarshal :
      (ctx : Context) (t : FlushTimes) (r : Runner W) (m : Message) (u : LogEvent × Option Error)
      (s : RunState W)
      → map msg_of (after_unmarshal ctx t r m u s).1.taken
        ≡ map msg_of s.taken ++ if_decoded r.proc ctx m u
  unfolding after_unmarshal skip_poison after_poison_commit
  taken-after_unmarshal ctx t r m (ev, some e) s = ground (arith, append-nil (map msg_of s.taken))
  taken-after_unmarshal ctx t r m (ev, none) s =
      taken-after_process ctx t r m (r.proc.process ctx ev) s

module _ {W : Type 0} (unmarshal : List ℕ → LogEvent × Option Error) where
  pub taken-step :
      (r : Runner W) (e : Event) (s : RunState W)
      → map msg_of (step unmarshal r e s).1.taken
        ≡ map msg_of s.taken ++ wanted unmarshal r.proc (e ∷ [])
  unfolding step on_outcome after_fetch_error wanted
  taken-step r (cancelled ctx t) s = rw (taken-flush ctx t r s, append-nil)
  taken-step r (ticked ctx t) s = rw (taken-flush ctx t r s, append-nil)
  taken-step r (fetched ctx t fo) s = go fo.err
    where
      go :
          (err : Option Error)
          → map msg_of (on_outcome unmarshal ctx t r fo.msg err s).1.taken
            ≡ map msg_of s.taken ++ (if_fetched unmarshal r.proc ctx fo.msg err ++ [])
      go (some e) = ground (arith, taken-flush ctx t r s, append-nil (map msg_of s.taken))
      go none = rw append-nil (taken-after_unmarshal ctx t r fo.msg (unmarshal fo.msg.value) s)

  pub taken-run_loop :
      (r : Runner W) (es : List Event) (s : RunState W)
      → (run_loop unmarshal r es s).0 ≡ goes_on
      → map msg_of (run_loop unmarshal r es s).1.taken
        ≡ map msg_of s.taken ++ wanted unmarshal r.proc es
  unfolding run_loop wanted
  taken-run_loop r [] s h = rw append-nil
  taken-run_loop r (e ∷ es) s h =
      rw wanted-cons (go (step unmarshal r e s) (taken-step r e s) (taken-run_loop r es) h)
    where
      go :
          (q : Verdict × RunState W)
          → map msg_of q.1.taken ≡ map msg_of s.taken ++ wanted unmarshal r.proc (e ∷ [])
          → ((u : RunState W)
              → (run_loop unmarshal r es u).0 ≡ goes_on
              → map msg_of (run_loop unmarshal r es u).1.taken
                ≡ map msg_of u.taken ++ wanted unmarshal r.proc es)
          → (loop_on unmarshal (run_loop unmarshal r es) q).0 ≡ goes_on
          → map msg_of (loop_on unmarshal (run_loop unmarshal r es) q).1.taken
            ≡ map msg_of s.taken ++ (wanted unmarshal r.proc (e ∷ []) ++ wanted unmarshal r.proc es)
      go (goes_on, u) now rest ran =
          rest u ran
          ∙ rw now (
              append_assoc (map msg_of s.taken) (wanted unmarshal r.proc (e ∷ []))
                (wanted unmarshal r.proc es))
      go (stops x, u) now rest ran = cc

  -- As long as `Run` has not returned, every message that was fetched, decodes and is processed is,
  -- once and in the order of arrival, either in a batch whose commit succeeded or, behind all of
  -- those, in the buffer.
  pub run_intake :
      (r : Runner W) (es : List Event) (w : W)
      → (run unmarshal r es w).0 ≡ goes_on
      → let s = (run unmarshal r es w).1 in
        wanted unmarshal r.proc es ≡ released s.calls ++ map msg_of s.buf
  unfolding run with_defaults
  run_intake r es w h =
      sym (taken-run_loop (with_defaults r) es _ h) ∙ (run_history unmarshal r es w).1
