-- ===== src/Processor/Runner/Fetching/Fed.antt =====
-- What each step of the goroutine that fetches keeps of the feed of the loop.
use api_observability_platfo.Base.{
  ℕ, ◌≤◌, ◌<◌, ◌≡◌, refl, sym, ap, ◌∙◌, Option, none, some, List, [], ◌∷◌, ◌++◌, arith,
  append_assoc, append-nil, length, length-snoc, Bool-cases, inl, inr, ltb,
}
use api_observability_platfo.Domain.{Error, is_err, LogEvent}
use api_observability_platfo.Collector.Chan.{try_send}
use api_observability_platfo.Processor.Runner.{
  Runner, FetchOutcome, Event, cancelled, ticked, fetched, run,
}
use api_observability_platfo.Processor.Runner.Fetching.{
  Fetcher, checking, asking, offering, left_idle, left_with, Running, fire_ends, fire_checks,
  fire_answers, fire_offers, fire_gives_up,
}

-- The outcomes that the loop has received.
abbrev pub seen : List Event → List FetchOutcome
seen [] = []
seen (cancelled ctx t ∷ es) = seen es
seen (ticked ctx t ∷ es) = seen es
seen (fetched ctx t fo ∷ es) = fo ∷ seen es

-- The outcome that the goroutine holds.
abbrev pub pending : Fetcher → List FetchOutcome
pending (offering fo) = fo ∷ []
pending (left_with fo) = fo ∷ []
pending _ = []

pub seen-append : (es fs : List Event) → seen (es ++ fs) ≡ seen es ++ seen fs
seen-append [] fs = refl
seen-append (cancelled ctx t ∷ es) fs = seen-append es fs
seen-append (ticked ctx t ∷ es) fs = seen-append es fs
seen-append (fetched ctx t fo ∷ es) fs = ap (◌∷◌ fo) (seen-append es fs)

module _ {W : Type 0} (unmarshal : List ℕ → LogEvent × Option Error) (r : Runner W) (w : W) where
  pub record IsFed (s : Running W) : Type 0 where
    pub same : run unmarshal r s.events w ≡ (s.verdict, s.state)
    pub kept : seen s.events ++ (s.outcomes.items ++ pending s.fetcher) ≡ s.answered
    pub size : s.outcomes.capacity ≡ 8
    pub room : length s.outcomes.items ≤ 8

  abbrev pub LeadsTo : Option (Running W) → Type 0
  LeadsTo none = Unit
  LeadsTo (some t) = IsFed t

  module _ (s : Running W) (fed : IsFed s) where
    -- The goroutine is elsewhere and holds the same.
    elsewhere : (f : Fetcher) → pending f ≡ pending s.fetcher → IsFed (record s { fetcher = f })
    elsewhere f e = record {
      same = fed.same;
      kept = ap (λ q. seen s.events ++ (s.outcomes.items ++ q)) e ∙ fed.kept;
      size = fed.size;
      room = fed.room;
    }

    pub ends-IsFed : (e : Error) → LeadsTo (fire_ends e s)
    unfolding fire_ends
    ends-IsFed e = elim (Bool-cases (is_err (s.ctx.err))) [
      | inl done ↦ rw done tt
      | inr live ↦
          rw live (record { same = fed.same; kept = fed.kept; size = fed.size; room = fed.room })
    ]

    pub checks-IsFed : (f : Fetcher) → f ≡ s.fetcher → LeadsTo (fire_checks f s)
    unfolding fire_checks
    checks-IsFed checking e = elim (Bool-cases (is_err (s.ctx.err))) [
      | inl done ↦ rw done (elsewhere left_idle (ap pending e))
      | inr live ↦ rw live (elsewhere asking (ap pending e))
    ]
    checks-IsFed _ e = tt

    pub answers-IsFed :
        (fo : FetchOutcome) (f : Fetcher) → f ≡ s.fetcher → LeadsTo (fire_answers fo f s)
    unfolding fire_answers
    answers-IsFed fo asking e = record {
      same = fed.same;
      kept =
          sym (append_assoc (seen s.events) s.outcomes.items (fo ∷ []))
          ∙ ap (λ q. q ++ fo ∷ [])
              (ap (λ q. seen s.events ++ q)
                  (sym (append-nil s.outcomes.items) ∙ ap (λ f. s.outcomes.items ++ pending f) e)
                ∙ fed.kept);
      size = fed.size;
      room = fed.room;
    }
    answers-IsFed fo _ e = tt

    pub offers-IsFed : (f : Fetcher) → f ≡ s.fetcher → LeadsTo (fire_offers f s)
    unfolding fire_offers try_send
    offers-IsFed (offering fo) e = elim (Bool-cases (s.outcomes.closed)) [
      | inl shut ↦ rw shut tt
      | inr opened ↦ elim (Bool-cases (ltb (length s.outcomes.items) s.outcomes.capacity)) [
        | inl fits ↦
            rw (opened, fits)
              (record {
                same = fed.same;
                kept =
                    ap (λ q. seen s.events ++ q)
                      (append-nil (s.outcomes.items ++ fo ∷ [])
                        ∙ ap (λ f. s.outcomes.items ++ pending f) e)
                    ∙ fed.kept;
                size = fed.size;
                room =
                    let below : length s.outcomes.items < s.outcomes.capacity =
                      ground (arith, fits) in
                    omega (arith, below, fed.size, length-snoc s.outcomes.items fo);
              })
        | inr full ↦ rw (opened, full) tt
      ]
    ]
    offers-IsFed _ e = tt

    pub gives_up-IsFed : (f : Fetcher) → f ≡ s.fetcher → LeadsTo (fire_gives_up f s)
    unfolding fire_gives_up
    gives_up-IsFed (offering fo) e = elim (Bool-cases (is_err (s.ctx.err))) [
      | inl done ↦ rw done (elsewhere (left_with fo) (ap pending e))
      | inr live ↦ rw live tt
    ]
    gives_up-IsFed _ e = tt
