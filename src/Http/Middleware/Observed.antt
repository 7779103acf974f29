-- ===== src/Http/Middleware/Observed.antt =====
-- Which requests the middleware sees.
use api_observability_platfo.Base.{
  ℕ, ◌≤◌, ◌<◌, ◌≡◌, ◌≢◌, refl, sym, ap, ◌∙◌, Bool, true, false, ◌||◌, String, Option, none, some,
  List, [], ◌∷◌, arith, inl, inr, ltb, if◌then◌else◌, length, str_eq, Bool-cases,
}
use api_observability_platfo.Domain.{since}
use api_observability_platfo.Metrics.Http.{RequestDuration}
use api_observability_platfo.Collector.Chan.{Chan}
use api_observability_platfo.Collector.Config.{drop_oldest}
use api_observability_platfo.Collector.Service.{IngestJob, Service, Flow, panics, Request, ingest}
use api_observability_platfo.Collector.Service.Offer.{job_of, offer, offer_body, ingest-offer}
use api_observability_platfo.Collector.Service.Window.{IsReady, HasBody}
use api_observability_platfo.Http.{handle_ingest, path_label, status_of}
use api_observability_platfo.Http.Status.{ingest_status}
use api_observability_platfo.Http.Middleware.{RequestTimes, after_next, serve_ingest}

-- The reply to a request with a body, or `none` for a panic.
abbrev pub expected_reply : Bool → Chan IngestJob → Option ℕ
expected_reply oldest c =
    if c.closed then none else some (if oldest || ltb (length c.items) c.capacity then 202 else 503)

reply_closed :
    (oldest : Bool) (c : Chan IngestJob) → c.closed ≡ true → expected_reply oldest c ≡ none
reply_closed oldest c h = ground arith

reply_open :
    (oldest : Bool) (c : Chan IngestJob)
    → c.closed ≡ false
    → expected_reply oldest c
      ≡ some (if oldest || ltb (length c.items) c.capacity then 202 else 503)
reply_open oldest c h = ground arith

closed_panics :
    (r : Request) (raw : List ℕ) (s : Service)
    → raw ≢ []
    → s.ch.closed ≡ true
    → (offer_body raw s.drop_policy (job_of r) s.ch).0 ≡ panics
unfolding offer
closed_panics r [] s body closed = absurd (body refl)
closed_panics r (b ∷ raw) s body closed = rw (closed, offer)

module _ (itoa : ℕ → String) where
  -- The log behind a request to POST /v1/ingest that got this reply.
  abbrev pub expected_log : RequestTimes → Option ℕ → List RequestDuration → List RequestDuration
  expected_log t none log = log
  expected_log t (some status) log =
      record {
        method = "POST";
        path = "/v1/ingest";
        status = itoa status;
        duration = since t.start t.now;
      }
      ∷ log

  logged :
      (t : RequestTimes) (reply : Option ℕ) (log : List RequestDuration)
      → after_next itoa t "POST" "/v1/ingest" reply log ≡ expected_log t reply log
  unfolding after_next path_label
  logged t none log = refl
  logged t (some status) log = refl

module _ (itoa : ℕ → String) (grow : ℕ → ℕ → ℕ) where
  reply_lem :
      (oldest : Bool) (r : Request) (s : Service)
      → 0 < s.ch.capacity
      → length s.ch.items ≤ s.ch.capacity
      → str_eq s.drop_policy drop_oldest ≡ oldest
      → HasBody r
      → (handle_ingest grow none r s).0 ≡ expected_reply oldest s.ch
  unfolding handle_ingest status_of
  reply_lem oldest r s room bounded policy body = elim (Bool-cases s.ch.closed) [
    | inl closed ↦
        let all = (ingest-offer grow r s room bounded).0 in
        let flow : (ingest grow r s).0 ≡ panics =
          ap (λ (q : Flow × Chan IngestJob). q.0) all ∙ closed_panics r r.raw s body closed in
        ap status_of flow ∙ sym (reply_closed oldest s.ch closed)
    | inr alive ↦
        let ready : IsReady oldest s = record {
          alive = alive;
          room = room;
          bounded = bounded;
          policy = policy;
        } in
        (ingest_status grow oldest r s ready body).0 ∙ sym (reply_open oldest s.ch alive)
  ]

  -- On a service whose channel has a capacity and is within it, a request with a body whose reading
  -- succeeded leaves one observation, of the method POST, the path /v1/ingest, the time between the two
  -- readings of the clock and the status that it is answered with, which is 202 or 503 as the policy
  -- and the channel say. If the channel is closed, the handler panics and nothing is observed.
  pub ingest_observed :
      (oldest : Bool) (t : RequestTimes) (r : Request) (s : Service) (log : List RequestDuration)
      → 0 < s.ch.capacity
      → length s.ch.items ≤ s.ch.capacity
      → str_eq s.drop_policy drop_oldest ≡ oldest
      → HasBody r
      → ((serve_ingest itoa grow t none r s log).0 ≡ expected_reply oldest s.ch)
        × ((serve_ingest itoa grow t none r s log).2
            ≡ expected_log itoa t (expected_reply oldest s.ch) log)
  unfolding serve_ingest
  ingest_observed oldest t r s log room bounded policy body =
      let reply = reply_lem oldest r s room bounded policy body in
      (
        reply,
        ap (λ q. after_next itoa t "POST" "/v1/ingest" q log) reply
            ∙ logged itoa t (expected_reply oldest s.ch) log,
      )
