-- ===== src/Collector/Service/Offer.antt =====
-- `Ingest` against a reference definition that knows only the channel.
use api_observability_platfo.Base.{
  ℕ, ◌≤◌, ◌<◌, ◌≡◌, refl, ap, ◌∙◌, String, none, some, List, [], ◌∷◌, ◌++◌, arith, ltb,
  if◌then◌else◌, str_eq, length,
}
use api_observability_platfo.Domain.{err_non_retryable, err_queue_saturated}
use api_observability_platfo.Collector.Chan.{Chan, try_send, try_receive}
use api_observability_platfo.Collector.Config.{DropPolicy, drop_oldest}
use api_observability_platfo.Collector.Pool.Isolation.{copy_payload-eq}
use api_observability_platfo.Collector.Pool.{copy_payload}
use api_observability_platfo.Collector.Service.{
  IngestJob, IngestTimes, Service, Flow, returns, panics, Request, enqueue, send_or_refuse,
  evict_oldest, observe_depth, record_accepted, finish_ingest, ingest_payload, ingest_with_source,
  ingest,
}

abbrev pub job_of : Request → IngestJob
job_of r = record { payload = r.raw; accept_at = r.times.start; source_tag = "http" }

abbrev pub behind_first : List IngestJob → IngestJob → List IngestJob
behind_first [] j = []
behind_first (x ∷ xs) j = xs ++ j ∷ []

-- A bounded queue under a drop policy, in one step.
unfoldable pub offer : DropPolicy → IngestJob → Chan IngestJob → Flow × Chan IngestJob
offer policy j c =
    if c.closed
    then (panics, c)
    else if ltb (length c.items) c.capacity
    then (returns none, record c { items = c.items ++ j ∷ [] })
    else if str_eq policy drop_oldest
    then (returns none, record c { items = behind_first c.items j })
    else (returns (some err_queue_saturated), c)

abbrev pub offer_body : List ℕ → DropPolicy → IngestJob → Chan IngestJob → Flow × Chan IngestJob
offer_body [] policy j c = (returns (some err_non_retryable), c)
offer_body (b ∷ raw) policy j c = offer policy j c

abbrev pub expected_ingest : Request → DropPolicy → Chan IngestJob → Flow × Chan IngestJob
expected_ingest r policy c = offer_body r.raw policy (job_of r) c

-- What of a service the outcome of `Ingest` depends on.
abbrev pub seen : Flow × Service → Flow × Chan IngestJob
seen (f, s) = (f, s.ch)

enqueue-offer :
    (j : IngestJob) (s : Service)
    → 0 < s.ch.capacity
    → length s.ch.items ≤ s.ch.capacity
    → (seen (enqueue j s) ≡ offer s.drop_policy j s.ch)
      × ((enqueue j s).1.drop_policy ≡ s.drop_policy)
unfolding enqueue offer send_or_refuse evict_oldest try_send try_receive
enqueue-offer j s room bounded = ground arith

-- The counters behind `enqueue` change neither the outcome nor the channel.
finish_ingest_lem :
    (t : IngestTimes) (source : String) (r : Flow × Service)
    → (seen (finish_ingest t source r) ≡ seen r)
      × ((finish_ingest t source r).1.drop_policy ≡ r.1.drop_policy)
unfolding finish_ingest record_accepted observe_depth
finish_ingest_lem t source (returns none, s) = (refl, refl)
finish_ingest_lem t source (returns (some e), s) = (refl, refl)
finish_ingest_lem t source (panics, s) = (refl, refl)

module _ (grow : ℕ → ℕ → ℕ) where
  ingest_body-offer :
      (r : Request) (raw : List ℕ) (s : Service)
      → 0 < s.ch.capacity
      → length s.ch.items ≤ s.ch.capacity
      → (seen (ingest_with_source grow r.pick r.times raw "http" s)
          ≡ offer_body raw s.drop_policy (record (job_of r) { payload = raw }) s.ch)
        × ((ingest_with_source grow r.pick r.times raw "http" s).1.drop_policy ≡ s.drop_policy)
  unfolding ingest_with_source ingest_payload
  ingest_body-offer r [] s room bounded = (refl, refl)
  ingest_body-offer r (b ∷ raw) s room bounded =
      let p = copy_payload grow r.pick (b ∷ raw) s.bp in
      let j : IngestJob = record (job_of r) { payload = p.0 } in
      let s' : Service = record s { bp = p.1 } in
      let (same, kept) = finish_ingest_lem r.times "http" (enqueue j s') in
      let (offered, policy) = enqueue-offer j s' room bounded in
      let copied : offer s.drop_policy j s.ch
          ≡ offer s.drop_policy (record (job_of r) { payload = b ∷ raw }) s.ch =
        ap (λ q. offer s.drop_policy (record (job_of r) { payload = q }) s.ch)
          (copy_payload-eq grow r.pick (b ∷ raw) s.bp) in
      (same ∙ offered ∙ copied, kept ∙ policy)

  -- One call of `Ingest` on a service whose channel has a positive capacity and is not overfull. An
  -- empty body is refused as not retryable and leaves the channel alone. Any other body does to the
  -- channel what the bounded queue does under the policy, with the bytes of the request itself: it
  -- panics on a closed channel; it appends where there is room; on a full channel the policy
  -- drop_oldest puts it behind all jobs but the oldest, and any other policy reports saturation and
  -- changes nothing. The policy stays.
  pub ingest-offer :
      (r : Request) (s : Service)
      → 0 < s.ch.capacity
      → length s.ch.items ≤ s.ch.capacity
      → (seen (ingest grow r s) ≡ expected_ingest r s.drop_policy s.ch)
        × ((ingest grow r s).1.drop_policy ≡ s.drop_policy)
  unfolding ingest
  ingest-offer r s room bounded = ingest_body-offer r r.raw s room bounded
