-- ===== src/Collector/Service/Batch.antt =====
-- What `IngestBatch` returns and leaves in the channel, with no worker running.
use api_observability_platfo.Base.{
  ℕ, suc, ◌+◌, ◌≤◌, ◌≡◌, refl, sym, ap, ◌∙◌, Bool, true, false, ◌||◌, none, some, List, [], ◌∷◌,
  ◌++◌, map, append-nil, arith, ltb, leb, length, length-snoc, take, take_all, take-append_le, All,
  Bool-cases, inl, inr,
}
use api_observability_platfo.Domain.{Error}
use api_observability_platfo.Collector.Chan.{Chan}
use api_observability_platfo.Collector.Service.Window.{
  IsReady, HasBody, kept, kept_short, kept_step, outcome, ingest-IsReady,
}
use api_observability_platfo.Collector.Service.{
  IngestJob, Service, Flow, returns, panics, Request, and_then, ingest, ingest_batch,
}
use api_observability_platfo.Collector.Service.Offer.{job_of}

room_after :
    (oldest : Bool) (j : IngestJob) (c : Chan IngestJob) (n : ℕ)
    → (oldest || ltb (length c.items) c.capacity) ≡ true
    → (oldest || leb (length (kept oldest c.capacity (c.items ++ j ∷ [])) + n) c.capacity)
      ≡ (oldest || leb (length c.items + suc n) c.capacity)
room_after true j c n fits = refl
room_after false j c n fits =
    let whole : length (c.items ++ j ∷ []) ≤ c.capacity
        → take c.capacity (c.items ++ j ∷ []) ≡ c.items ++ j ∷ [] =
      take_all c.capacity (c.items ++ j ∷ []) in
    ground (arith, length-snoc c.items j, ap length (whole (ground (arith, length-snoc c.items j))))

kept_when_full :
    (oldest : Bool) (j : IngestJob) (js : List IngestJob) (c : Chan IngestJob) (n : ℕ)
    → length c.items ≤ c.capacity
    → (oldest || ltb (length c.items) c.capacity) ≡ false
    → ((oldest || leb (length c.items + suc n) c.capacity) ≡ false)
      × (record c { items = kept oldest c.capacity (c.items ++ j ∷ []) }
          ≡ record c { items = kept oldest c.capacity (c.items ++ j ∷ js) })
kept_when_full true j js c n bounded full = cc
kept_when_full false j js c n bounded full =
    let size : c.capacity ≤ length c.items = ground arith in
    (
      ground arith,
      rw (
        take-append_le c.capacity c.items (j ∷ []) size,
        take-append_le c.capacity c.items (j ∷ js) size,
      ),
    )

and_then_ok :
    (x : Flow × Service) (k : Service → Flow × Service) → x.0 ≡ returns none → and_then x k ≡ k x.1
unfolding and_then
and_then_ok (returns none, s) k h = refl
and_then_ok (returns (some e), s) k h = cc
and_then_ok (panics, s) k h = cc

and_then_err :
    (x : Flow × Service) (k : Service → Flow × Service) {e : Error}
    → x.0 ≡ returns (some e)
    → and_then x k ≡ x
unfolding and_then
and_then_err (returns none, s) k h = cc
and_then_err (returns (some e), s) k h = refl
and_then_err (panics, s) k h = refl

module _ (grow : ℕ → ℕ → ℕ) where
  -- `IngestBatch` of requests with bodies, on a ready service (its channel open, with a capacity
  -- and within it) that has no worker running, returns nil under drop_oldest, and otherwise exactly
  -- if there is room for the whole batch; else it reports saturation. The channel then holds, of
  -- all jobs that were there or are in the batch, in order, the newest ones up to the capacity
  -- under drop_oldest, else the oldest ones: with as much of the batch as there was room for.
  pub ingest_batch-kept :
      (oldest : Bool) (rs : List Request) (s : Service)
      → IsReady oldest s
      → All HasBody rs
      → ((ingest_batch grow rs s).0
          ≡ outcome (oldest || leb (length s.ch.items + length rs) s.ch.capacity))
        × ((ingest_batch grow rs s).1.ch
            ≡ record s.ch { items = kept oldest s.ch.capacity (s.ch.items ++ map job_of rs) })
  unfolding ingest_batch
  ingest_batch-kept oldest [] s ready bodies = (
    ground (arith, ready.bounded),
    rw (append-nil, kept_short oldest s.ch.capacity s.ch.items ready.bounded),
  )
  ingest_batch-kept oldest (r ∷ rs) s ready bodies =
      let (all, ready') = ingest-IsReady grow oldest r s ready bodies.0 in
      let flow = ap (λ (q : Flow × Chan IngestJob). q.0) all in
      let ch = ap (λ (q : Flow × Chan IngestJob). q.1) all in
      let (flows, chs) = ingest_batch-kept oldest rs (ingest grow r s).1 ready' bodies.1 in
      elim (Bool-cases (oldest || ltb (length s.ch.items) s.ch.capacity)) [
        | inl fits ↦
            rw (and_then_ok (ingest grow r s) (ingest_batch grow rs) (flow ∙ ap outcome fits)) (
              flows ∙ rw ch (ap outcome (room_after oldest (job_of r) s.ch (length rs) fits)),
              chs ∙ rw ch (kept_step oldest s.ch (job_of r) (map job_of rs)),
            )
        | inr full ↦
            let (late, same) =
              kept_when_full oldest (job_of r) (map job_of rs) s.ch (length rs) ready.bounded
                full in
            rw (and_then_err (ingest grow r s) (ingest_batch grow rs) (flow ∙ ap outcome full))
              (flow ∙ ap outcome (full ∙ sym late), ch ∙ same)
      ]
