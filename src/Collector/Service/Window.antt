-- ===== src/Collector/Service/Window.antt =====
-- What the channel holds after calls of `Ingest`, one after the other with no worker running.
use api_observability_platfo.Base.{
  ℕ, ◌-◌, ◌≤◌, ◌<◌, ◌≡◌, ◌≢◌, refl, ap, ◌∙◌, Bool, true, false, ◌||◌, none, some, List, [], ◌∷◌,
  ◌++◌, map, append_assoc, append-nil, arith, ltb, if◌then◌else◌, str_eq, length, length-snoc, take,
  take_all, take-append_le, take-append_take, length-take_le, last, last_short, last-append,
  length-last_le, All,
}
use native.Mathlib.Decide.{dec_lt}
use api_observability_platfo.Domain.{err_queue_saturated}
use api_observability_platfo.Collector.Chan.{Chan}
use api_observability_platfo.Collector.Config.{DropPolicy, drop_oldest}
use api_observability_platfo.Collector.Service.{IngestJob, Service, Flow, returns, Request, ingest}
use api_observability_platfo.Collector.Service.Offer.{
  job_of, offer, offer_body, behind_first, seen, expected_ingest, ingest-offer,
}

-- The end of a list that a policy keeps: the newest `n` under drop_oldest, else the oldest `n`.
abbrev pub kept {ℓ} : {A : Type ℓ} → Bool → ℕ → List A → List A
kept true n xs = last n xs
kept false n xs = take n xs

-- A service that is ready: its channel is open, has a capacity and holds no more than that. And
-- whether it drops the oldest.
pub record IsReady (oldest : Bool) (s : Service) : Type 0 where
  pub alive : s.ch.closed ≡ false
  pub room : 0 < s.ch.capacity
  pub bounded : length s.ch.items ≤ s.ch.capacity
  pub policy : str_eq s.drop_policy drop_oldest ≡ oldest

abbrev pub HasBody : Request → Type 0
HasBody r = r.raw ≢ []

module _ {ℓ} {A : Type ℓ} where
  pub kept_short : (b : Bool) (n : ℕ) (xs : List A) → length xs ≤ n → kept b n xs ≡ xs
  kept_short true n xs h = last_short n xs h
  kept_short false n xs h = take_all n xs h

  kept-append :
      (b : Bool) (n : ℕ) (xs ys : List A) → kept b n (kept b n xs ++ ys) ≡ kept b n (xs ++ ys)
  kept-append true n xs ys = last-append n xs ys
  kept-append false n xs ys = take-append_take n xs ys

  length-kept_le : (b : Bool) (n : ℕ) (xs : List A) → length (kept b n xs) ≤ n
  length-kept_le true n xs = length-last_le n xs
  length-kept_le false n xs = length-take_le n xs

last_full :
    (n : ℕ) (xs : List IngestJob) (j : IngestJob)
    → length xs ≡ n
    → 0 < n
    → last n (xs ++ j ∷ []) ≡ behind_first xs j
last_full n [] j h room = absurd (omega arith)
last_full n (x ∷ xs) j h room =
    let one : length (x ∷ (xs ++ j ∷ [])) - n ≡ 1 = omega (arith, length-snoc xs j) in rw one

take_full :
    (n : ℕ) (xs : List IngestJob) (j : IngestJob) → length xs ≡ n → take n (xs ++ j ∷ []) ≡ xs
take_full n xs j h = take-append_le n xs (j ∷ []) (omega arith) ∙ take_all n xs (omega arith)

abbrev pub outcome : Bool → Flow
outcome fits = if fits then returns none else returns (some err_queue_saturated)

pub kept_step :
    (oldest : Bool) (c : Chan IngestJob) (j : IngestJob) (js : List IngestJob)
    → record c { items = kept oldest c.capacity (kept oldest c.capacity (c.items ++ j ∷ []) ++ js) }
      ≡ record c { items = kept oldest c.capacity (c.items ++ j ∷ js) }
kept_step oldest c j js =
    rw (kept-append oldest c.capacity (c.items ++ j ∷ []) js, append_assoc c.items (j ∷ []) js)

-- One offer to an open channel, in terms of what is kept.
offer-kept :
    (oldest : Bool) (p : DropPolicy) (j : IngestJob) (c : Chan IngestJob)
    → c.closed ≡ false
    → 0 < c.capacity
    → length c.items ≤ c.capacity
    → str_eq p drop_oldest ≡ oldest
    → offer p j c ≡ (
      outcome (oldest || ltb (length c.items) c.capacity),
      record c { items = kept oldest c.capacity (c.items ++ j ∷ []) },
    )
unfolding offer
offer-kept oldest p j c alive room bounded policy = elim (dec_lt (length c.items) c.capacity) [
  | yes fits ↦
      let whole =
        kept_short oldest c.capacity (c.items ++ j ∷ []) (omega (arith, length-snoc c.items j)) in
      ground (arith, whole)
  | no full ↦
      let size : length c.items ≡ c.capacity = omega arith in
      ground (arith, last_full c.capacity c.items j size room, take_full c.capacity c.items j size)
]

expected_ingest-offer :
    (r : Request) (p : DropPolicy) (c : Chan IngestJob)
    → HasBody r
    → expected_ingest r p c ≡ offer p (job_of r) c
expected_ingest-offer r p c h = with_body r.raw h
  where
    with_body : (raw : List ℕ) → raw ≢ [] → offer_body raw p (job_of r) c ≡ offer p (job_of r) c
    with_body [] e = absurd (e refl)
    with_body (b ∷ raw) e = refl

module _ (grow : ℕ → ℕ → ℕ) where
  pub ingest-IsReady :
      (oldest : Bool) (r : Request) (s : Service)
      → IsReady oldest s
      → HasBody r
      → (seen (ingest grow r s) ≡ (
        outcome (oldest || ltb (length s.ch.items) s.ch.capacity),
        record s.ch { items = kept oldest s.ch.capacity (s.ch.items ++ job_of r ∷ []) },
      ))
        × IsReady oldest (ingest grow r s).1
  ingest-IsReady oldest r s ready body =
      let c = s.ch in
      let (ran, policy) = ingest-offer grow r s ready.room ready.bounded in
      let all =
        ran
        ∙ expected_ingest-offer r s.drop_policy c body
        ∙ offer-kept oldest s.drop_policy (job_of r) c ready.alive ready.room ready.bounded
            ready.policy in
      let ch : (ingest grow r s).1.ch
          ≡ record c { items = kept oldest c.capacity (c.items ++ job_of r ∷ []) } =
        ap (λ (q : Flow × Chan IngestJob). q.1) all in
      (
        all,
        record {
          alive = rw ch ready.alive;
          room = rw ch ready.room;
          bounded = rw ch (length-kept_le oldest c.capacity (c.items ++ job_of r ∷ []));
          policy = rw policy ready.policy;
        },
      )

  -- Calls of `Ingest` one after the other, whatever they return.
  unfoldable pub ingest_each : List Request → Service → Service
  ingest_each [] s = s
  ingest_each (r ∷ rs) s = ingest_each rs (ingest grow r s).1

  -- With no worker running, the channel of a ready service (open, with a capacity and within it)
  -- holds, after any calls of `Ingest` with bodies, the oldest jobs of all that were there or came,
  -- up to the capacity, in the order of arrival; under the policy drop_oldest it holds the newest
  -- ones instead.
  pub ingest_each-kept :
      (oldest : Bool) (rs : List Request) (s : Service)
      → IsReady oldest s
      → All HasBody rs
      → (ingest_each rs s).ch
        ≡ record s.ch { items = kept oldest s.ch.capacity (s.ch.items ++ map job_of rs) }
  unfolding ingest_each
  ingest_each-kept oldest [] s ready bodies =
      rw (append-nil, kept_short oldest s.ch.capacity s.ch.items ready.bounded)
  ingest_each-kept oldest (r ∷ rs) s ready bodies =
      let (all, ready') = ingest-IsReady oldest r s ready bodies.0 in
      let ch = ap (λ (q : Flow × Chan IngestJob). q.1) all in
      ingest_each-kept oldest rs (ingest grow r s).1 ready' bodies.1
      ∙ rw ch (kept_step oldest s.ch (job_of r) (map job_of rs))
