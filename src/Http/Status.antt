-- ===== src/Http/Status.antt =====
-- What the status of `POST /v1/ingest` tells the client.
use api_observability_platfo.Base.{
  ℕ, ◌≡◌, refl, ap, ◌∙◌, Bool, true, false, ◌||◌, none, some, [], ◌∷◌, ◌++◌, ltb, if◌then◌else◌,
  length,
}
use api_observability_platfo.Collector.Chan.{Chan}
use api_observability_platfo.Collector.Service.{IngestJob, Service, Flow, Request}
use api_observability_platfo.Collector.Service.Offer.{job_of}
use api_observability_platfo.Collector.Service.Window.{
  IsReady, HasBody, kept, outcome, ingest-IsReady,
}
use api_observability_platfo.Http.{handle_ingest, status_of}

status_of-outcome : (fits : Bool) → status_of (outcome fits) ≡ some (if fits then 202 else 503)
unfolding status_of
status_of-outcome true = refl
status_of-outcome false = refl

module _ (grow : ℕ → ℕ → ℕ) where
  -- On a ready service, its channel open, with a capacity and within it, a request whose body was
  -- read and is not empty is answered 202 under the policy drop_oldest or if the channel has room,
  -- and 503 otherwise; and the channel then holds its job exactly as the policy says: last, or not
  -- at all where it was refused.
  pub ingest_status :
      (oldest : Bool) (r : Request) (s : Service)
      → IsReady oldest s
      → HasBody r
      → ((handle_ingest grow none r s).0
          ≡ some (if oldest || ltb (length s.ch.items) s.ch.capacity then 202 else 503))
        × ((handle_ingest grow none r s).1.ch.items
            ≡ kept oldest s.ch.capacity (s.ch.items ++ job_of r ∷ []))
  unfolding handle_ingest status_of
  ingest_status oldest r s ready body =
      let all = (ingest-IsReady grow oldest r s ready body).0 in
      (
        ap status_of (ap (λ (q : Flow × Chan IngestJob). q.0) all)
            ∙ status_of-outcome (oldest || ltb (length s.ch.items) s.ch.capacity),
        ap (λ (q : Flow × Chan IngestJob). q.1.items) all,
      )
