-- ===== src/Processor/Runner/Partial.antt =====
-- The runner over the InfluxDB storage: a batch of which only a part was written.
use api_observability_platfo.Base.{
  ◌<◌, ◌≡◌, ap, ◌∙◌, Option, none, List, [], ◌∷◌, map, arith, Option-cases, inl, inr,
}
use api_observability_platfo.Domain.{Error}
use api_observability_platfo.Contract.{Context}
use api_observability_platfo.Storage.Influx
use api_observability_platfo.Storage.Influx.{Client}
use api_observability_platfo.Storage.Promise.{influx-IsHonest}
use api_observability_platfo.Processor.Runner.{Runner, RunState, BatchItem, FlushTimes, flush}
use api_observability_platfo.Processor.Runner.Written.{pt_of}
use api_observability_platfo.Processor.Runner.Faults.{
  flushed_by, flush_lem, write_answer, commit_answer,
}

flushed_whole :
    (items : List BatchItem) (write_err commit_err : Option Error) {x : BatchItem}
    {is : List BatchItem}
    → items ≡ x ∷ is
    → write_err ≡ none
    → commit_err ≡ none
    → flushed_by items write_err commit_err ≡ (none, [])
flushed_whole items write_err commit_err held wrote committed = rw (held, wrote, committed)

module _ {W : Type 0} (c : Client W) where
  abbrev pub over_influx : Runner W → Runner W
  over_influx r = record r { storage = Influx.storage c }

  some_written :
      (ctx : Context) (r : Runner W) (s : RunState W)
      → 0 < (write_answer ctx (over_influx r) s).0.0.written
      → (write_answer ctx (over_influx r) s).0.1 ≡ none
  some_written ctx r s h = elim (Option-cases (write_answer ctx (over_influx r) s).0.1) [
    | inl e ↦ e
    | inr (x, e) ↦
        let honest = influx-IsHonest c ctx (map pt_of s.buf) s.world in
        let failed = honest.error_iff.0 (λ q. cc) in absurd (omega (arith, failed.1, h))
  ]

  -- Over the InfluxDB storage, a flush that wrote at least one point and whose commit succeeded
  -- returns nil and empties the buffer, whatever errors the other points had.
  pub partial_flush :
      (ctx : Context) (t : FlushTimes) (r : Runner W) (s : RunState W) (x : BatchItem)
      (is : List BatchItem)
      → s.buf ≡ x ∷ is
      → 0 < (write_answer ctx (over_influx r) s).0.0.written
      → (commit_answer ctx (over_influx r) s).0 ≡ none
      → ((flush ctx t (over_influx r) s).0 ≡ none) × ((flush ctx t (over_influx r) s).1.buf ≡ [])
  partial_flush ctx t r s x is held wrote committed =
      let answer =
        flush_lem ctx t (over_influx r) s
        ∙ flushed_whole s.buf _ _ held (some_written ctx r s wrote) committed in
      (
        ap (λ (q : Option Error × List BatchItem). q.0) answer,
        ap (λ (q : Option Error × List BatchItem). q.1) answer,
      )
