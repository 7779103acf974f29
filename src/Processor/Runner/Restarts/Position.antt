-- ===== src/Processor/Runner/Restarts/Position.antt =====
-- Where no message of a partition is poison, the commits of batches alone say where it is read from next.
use api_observability_platfo.Base.{
  ℕ, ◌≡◌, Option, none, some, List, [], ◌∷◌, ◌++◌, map, arith, All, ◌==◌, Bool-cases, inl, inr,
}
use api_observability_platfo.Domain.{Error, LogEvent}
use api_observability_platfo.Contract.{Context}
use api_observability_platfo.Processor.Runner.{
  Message, Runner, BatchItem, RunState, FlushTimes, Event, cancelled, ticked, fetched, flush,
  put_in, after_process, after_unmarshal, skip_poison, after_poison_commit, after_fetch_error,
  on_outcome, step,
}
use api_observability_platfo.Processor.Runner.Written.{released}
use api_observability_platfo.Processor.Runner.Faults.{behind, restart_at}
use api_observability_platfo.Processor.Runner.Restarts.{got, received}
use api_observability_platfo.Processor.Runner.Restarts.Logs.{All-front, behind-append}

-- If the event is a message of the partition, it decodes.
abbrev pub IsSound : (List ℕ → LogEvent × Option Error) → ℕ → Event → Type 0
IsSound unmarshal p e =
    All (λ m. m.partition ≡ p → (unmarshal m.value).1 ≡ none) (received (e ∷ []))

module _ {W : Type 0} (p : ℕ) where
  abbrev pub IsPlain : RunState W → Type 0
  IsPlain s = restart_at p s.calls ≡ behind p (released s.calls)

  flush-IsPlain :
      (ctx : Context) (t : FlushTimes) (r : Runner W) (s : RunState W)
      → IsPlain s
      → IsPlain (flush ctx t r s).1
  unfolding flush
  flush-IsPlain ctx t r s h =
      ground (arith, h, behind-append p (released s.calls) (map (λ i. i.msg) s.buf))

  put_in-IsPlain :
      (ctx : Context) (t : FlushTimes) (r : Runner W) (i : BatchItem) (s : RunState W)
      → IsPlain s
      → IsPlain (put_in ctx t r i s).1
  unfolding put_in
  put_in-IsPlain ctx t r i s h =
      let fuller : RunState W = record s { buf = s.buf ++ i ∷ []; taken = s.taken ++ i ∷ [] } in
      ground (arith, h, flush-IsPlain ctx t r fuller h)

  module _ (unmarshal : List ℕ → LogEvent × Option Error) (r : Runner W) where
    on_outcome-IsPlain :
        (ctx : Context) (t : FlushTimes) (m : Message) (err : Option Error) (s : RunState W)
        → All (λ n. n.partition ≡ p → (unmarshal n.value).1 ≡ none) (got m err)
        → IsPlain s
        → IsPlain (on_outcome unmarshal ctx t r m err s).1
    unfolding on_outcome after_fetch_error after_unmarshal after_process skip_poison
        after_poison_commit
    on_outcome-IsPlain ctx t m (some e) s own h = ground (arith, h, flush-IsPlain ctx t r s h)
    on_outcome-IsPlain ctx t m none s own h =
        let i : BatchItem = record { msg = m; pt = (r.proc.process ctx (unmarshal m.value).0).0 } in
        elim (Bool-cases (m.partition == p)) [
          | inl mine ↦ ground (arith, own.0 (ground (arith, mine)), h, put_in-IsPlain ctx t r i s h)
          | inr other ↦ ground (arith, other, h, put_in-IsPlain ctx t r i s h)
        ]

    pub step-IsPlain :
        (e : Event) (s : RunState W)
        → IsSound unmarshal p e
        → IsPlain s
        → IsPlain (step unmarshal r e s).1
    unfolding step
    step-IsPlain (cancelled ctx t) s own h = flush-IsPlain ctx t r s h
    step-IsPlain (ticked ctx t) s own h = flush-IsPlain ctx t r s h
    step-IsPlain (fetched ctx t fo) s own h =
        on_outcome-IsPlain ctx t fo.msg fo.err s (All-front _ (got fo.msg fo.err) [] own) h
