-- ===== src/Processor/Runner/Restarts/Taken.antt =====
-- What one life takes of the messages that it fetches, wherever it is cut off.
use api_observability_platfo.Base.{
  ℕ, ◌≡◌, refl, sym, ap, ◌∙◌, Option, none, some, List, [], ◌∷◌, ◌++◌, map, arith, All,
  append_assoc, append-nil, ◌==◌, Bool-cases, inl, inr, All-append,
}
use mathlib.Core.Path.{subst}
use api_observability_platfo.Domain.{Error, LogEvent, MetricPoint}
use api_observability_platfo.Contract.{Context, Processor}
use api_observability_platfo.Processor.Runner.{
  Message, Runner, RunState, Event, cancelled, ticked, fetched, Verdict, goes_on, stops,
  with_defaults, step, loop_on, run_loop, run,
}
use api_observability_platfo.Processor.Runner.Written.{msg_of, released}
use api_observability_platfo.Processor.Runner.History.{run_history}
use api_observability_platfo.Processor.Runner.Intake.{
  if_processed, if_decoded, if_fetched, wanted, wanted-cons, taken-step,
}
use api_observability_platfo.Processor.Runner.Restarts.{got, received, of_partition}
use api_observability_platfo.Processor.Runner.Restarts.Logs.{
  All-front, All-behind, of_partition-append,
}
use api_observability_platfo.Processor.Runner.Restarts.Position.{IsSound}

-- The processor makes a point of every event.
abbrev pub NeverFails : Processor → Type 0
NeverFails p = (ctx : Context) (e : LogEvent) → (p.process ctx e).1 ≡ none

module _ (unmarshal : List ℕ → LogEvent × Option Error) where
  -- The messages of the partition decode.
  abbrev pub Decode : ℕ → List Message → Type 0
  Decode p ms = All (λ m. m.partition ≡ p → (unmarshal m.value).1 ≡ none) ms

  pub received-IsSound :
      (p : ℕ) (es : List Event) → Decode p (received es) → All (IsSound unmarshal p) es
  received-IsSound p [] h = tt
  received-IsSound p (cancelled ctx t ∷ es) h = (tt, received-IsSound p es h)
  received-IsSound p (ticked ctx t ∷ es) h = (tt, received-IsSound p es h)
  received-IsSound p (fetched ctx t fo ∷ es) h = (
    rw append-nil (All-front _ (got fo.msg fo.err) (received es) h),
    received-IsSound p es (All-behind _ (got fo.msg fo.err) (received es) h),
  )

  module _ (q : Processor) (never : NeverFails q) (p : ℕ) where
    one_wanted :
        (ctx : Context) (m : Message) (err : Option Error)
        → Decode p (got m err)
        → of_partition p (if_fetched unmarshal q ctx m err) ≡ of_partition p (got m err)
    one_wanted ctx m (some e) h = refl
    one_wanted ctx m none h = elim (Bool-cases (m.partition == p)) [
      | inl own ↦ ground (arith, h.0 (ground (arith, own)), never ctx (unmarshal m.value).0)
      | inr other ↦ ground (arith, other)
    ]

    -- Of the partition, all that is fetched is wanted.
    pub wanted-received :
        (es : List Event)
        → Decode p (received es)
        → of_partition p (wanted unmarshal q es) ≡ of_partition p (received es)
    unfolding wanted
    wanted-received [] h = refl
    wanted-received (cancelled ctx t ∷ es) h = wanted-received es h
    wanted-received (ticked ctx t ∷ es) h = wanted-received es h
    wanted-received (fetched ctx t fo ∷ es) h =
        let first = All-front _ (got fo.msg fo.err) (received es) h in
        let later = All-behind _ (got fo.msg fo.err) (received es) h in
        rw (
          of_partition-append p (if_fetched unmarshal q ctx fo.msg fo.err) (wanted unmarshal q es),
          of_partition-append p (got fo.msg fo.err) (received es),
          one_wanted ctx fo.msg fo.err first,
          wanted-received es later,
        )

  module _ {κ} (P : Message → Type κ) (q : Processor) (ctx : Context) (m : Message) where
    All-if_decoded : (d : LogEvent × Option Error) → P m → All P (if_decoded q ctx m d)
    All-if_decoded (ev, some e) h = tt
    All-if_decoded (ev, none) h = go (q.process ctx ev)
      where
        go : (pt : MetricPoint × Option Error) → All P (if_processed m pt)
        go (pt, none) = (h, tt)
        go (pt, some e) = tt

    All-if_fetched :
        (err : Option Error) → All P (got m err) → All P (if_fetched unmarshal q ctx m err)
    All-if_fetched none h = All-if_decoded (unmarshal m.value) h.0
    All-if_fetched (some e) h = tt

  -- Nothing is wanted that was not fetched.
  pub All-wanted {κ} :
      (P : Message → Type κ) (q : Processor) (es : List Event)
      → All P (received es)
      → All P (wanted unmarshal q es)
  unfolding wanted
  All-wanted P q [] h = tt
  All-wanted P q (cancelled ctx t ∷ es) h = All-wanted P q es h
  All-wanted P q (ticked ctx t ∷ es) h = All-wanted P q es h
  All-wanted P q (fetched ctx t fo ∷ es) h =
      let first = All-front _ (got fo.msg fo.err) (received es) h in
      let later = All-behind _ (got fo.msg fo.err) (received es) h in
      All-append P (if_fetched unmarshal q ctx fo.msg fo.err) (wanted unmarshal q es)
        (All-if_fetched P q ctx fo.msg fo.err first) (All-wanted P q es later)

  module _ {W : Type 0} where
    -- What is in the end behind what a run has taken was still wanted.
    pub taken_front :
        (r : Runner W) (es : List Event) (s : RunState W)
        → (rest : List Message) × (map msg_of (run_loop unmarshal r es s).1.taken ++ rest
            ≡ map msg_of s.taken ++ wanted unmarshal r.proc es)
    unfolding run_loop wanted
    taken_front r [] s = ([], refl)
    taken_front r (e ∷ es) s =
        rw wanted-cons (go (step unmarshal r e s) (taken-step unmarshal r e s) (taken_front r es))
      where
        go :
            (q : Verdict × RunState W)
            → map msg_of q.1.taken ≡ map msg_of s.taken ++ wanted unmarshal r.proc (e ∷ [])
            → ((u : RunState W)
                → (rest : List Message) × (map msg_of (run_loop unmarshal r es u).1.taken ++ rest
                    ≡ map msg_of u.taken ++ wanted unmarshal r.proc es))
            → (rest : List Message) × (map msg_of
                    (loop_on unmarshal (run_loop unmarshal r es) q).1.taken
                  ++ rest
                ≡ map msg_of s.taken
                  ++ (wanted unmarshal r.proc (e ∷ []) ++ wanted unmarshal r.proc es))
        go (goes_on, u) now later =
            let (rest, e') = later u in (rest, e' ∙ rw now (append_assoc (map msg_of s.taken) _ _))
        go (stops x, u) now later =
            (wanted unmarshal r.proc es, rw now (append_assoc (map msg_of s.taken) _ _))

    -- The messages of the committed batches are the first of those that were wanted.
    released-wanted :
        (r : Runner W) (es : List Event) (w : W)
        → (rest : List Message) × (released (run unmarshal r es w).1.calls ++ rest
            ≡ wanted unmarshal r.proc es)
    unfolding run
    released-wanted r es w =
        let begun : RunState W = record {
          buf = [];
          world = w;
          metrics = [];
          calls = [];
          taken = [];
        } in
        let (rest, e) = taken_front (with_defaults r) es begun in
        let s = (run unmarshal r es w).1 in
        (
          map msg_of s.buf ++ rest,
          sym (append_assoc (released s.calls) (map msg_of s.buf) rest)
              ∙ ap (λ q. q ++ rest) (sym (run_history unmarshal r es w).1)
              ∙ (unfold with_defaults in e),
        )

    -- Of a partition, the messages of the committed batches are the first of those that were fetched.
    pub released_front :
        (r : Runner W) (p : ℕ) (es : List Event) (w : W)
        → NeverFails r.proc
        → Decode p (received es)
        → (rest : List Message) × (of_partition p (released (run unmarshal r es w).1.calls) ++ rest
            ≡ of_partition p (received es))
    released_front r p es w never h =
        let cs = (run unmarshal r es w).1.calls in
        let (rest, e) = released-wanted r es w in
        (
          of_partition p rest,
          sym (of_partition-append p (released cs) rest)
              ∙ ap (of_partition p) e
              ∙ wanted-received r.proc never p es h,
        )

    -- What was not fetched is not committed with a batch.
    pub All-released {κ} :
        (P : Message → Type κ) (r : Runner W) (es : List Event) (w : W)
        → All P (received es)
        → All P (released (run unmarshal r es w).1.calls)
    All-released P r es w h =
        let (rest, e) = released-wanted r es w in
        All-front P (released (run unmarshal r es w).1.calls) rest
          (subst (All P) (sym e) (All-wanted P r.proc es h))
