-- ===== src/Processor/Runner/Fetching/Ends.antt =====
-- That both goroutines of `Run` end when the context has ended.
use api_observability_platfo.Base.{
  ℕ, ◌≤◌, ◌≡◌, refl, ap, ◌∙◌, Bool, true, false, Option, some, List, [], ◌∷◌, ◌++◌, arith, length,
  Option-cases, inl, inr,
}
use api_observability_platfo.Domain.{Error, is_err, LogEvent}
use api_observability_platfo.Processor.Runner.{
  Runner, FlushTimes, FetchOutcome, cancelled, Verdict, goes_on, stops, step, with_defaults,
}
use api_observability_platfo.Processor.Runner.Fetching.{
  Fetcher, checking, asking, offering, left_idle, left_with, Running, RunMove, checks, answers,
  gives_up, sees_end, fire_checks, fire_answers, fire_gives_up, turn_with, fire_sees_end, fire_turn,
  fire_run, run_moves,
}

abbrev pub has_left : Fetcher → Bool
has_left left_idle = true
has_left (left_with fo) = true
has_left _ = false

abbrev pub has_returned : Verdict → Bool
has_returned goes_on = false
has_returned (stops e) = true

-- What the goroutine that fetches still does. A call of `FetchMessage` returns, as its documentation
-- says, when the context has ended.
abbrev pub last_moves : FetchOutcome → Fetcher → List RunMove
last_moves fo checking = checks ∷ []
last_moves fo asking = answers fo ∷ gives_up ∷ []
last_moves fo (offering f) = gives_up ∷ []
last_moves fo _ = []

-- And the loop.
abbrev pub last_turn : FlushTimes → Verdict → List RunMove
last_turn t goes_on = sees_end t ∷ []
last_turn t (stops e) = []

module _ {W : Type 0} (unmarshal : List ℕ → LogEvent × Option Error) (r : Runner W) where
  run_moves-append :
      (xs ys : List RunMove) (s u : Running W)
      → run_moves unmarshal r xs s ≡ some u
      → run_moves unmarshal r (xs ++ ys) s ≡ run_moves unmarshal r ys u
  unfolding run_moves
  run_moves-append [] ys s u ran = let e : s ≡ u = cc in ap (run_moves unmarshal r ys) e
  run_moves-append (mv ∷ xs) ys s u ran = elim (Option-cases (fire_run unmarshal r mv s)) [
    | inl e ↦ absurd (cc)
    | inr (q, e) ↦ rw (run_moves, e) (run_moves-append xs ys q u (rw (run_moves, e) at ran))
  ]

  one_move :
      (mv : RunMove) (mvs : List RunMove) (s u : Running W)
      → fire_run unmarshal r mv s ≡ some u
      → run_moves unmarshal r (mv ∷ mvs) s ≡ run_moves unmarshal r mvs u
  unfolding run_moves
  one_move mv mvs s u e = rw (run_moves, e)

  module _ (s : Running W) (done : is_err s.ctx.err ≡ true) where
    fetcher_ends :
        (fo : FetchOutcome) (f : Fetcher)
        → s.fetcher ≡ f
        → (u : Running W) × (run_moves unmarshal r (last_moves fo f) s ≡ some u)
          × (has_left u.fetcher ≡ true)
          × (u.verdict ≡ s.verdict)
    unfolding run_moves fire_run fire_checks fire_answers fire_gives_up
    fetcher_ends fo checking e =
        let u : Running W = record s { fetcher = left_idle } in
        (u, one_move checks [] s u (rw (e, done)), refl, refl)
    fetcher_ends fo asking e =
        let m : Running W = record s { fetcher = offering fo; answered = s.answered ++ fo ∷ [] } in
        let u : Running W = record m { fetcher = left_with fo } in
        (
          u,
          one_move (answers fo) (gives_up ∷ []) s m (rw e) ∙ one_move gives_up [] m u (rw done),
          refl,
          refl,
        )
    fetcher_ends fo (offering f) e =
        let u : Running W = record s { fetcher = left_with f } in
        (u, one_move gives_up [] s u (rw (e, done)), refl, refl)
    fetcher_ends fo left_idle e = (s, refl, ap has_left e, refl)
    fetcher_ends fo (left_with f) e = (s, refl, ap has_left e, refl)

    loop_ends :
        (t : FlushTimes) (v : Verdict)
        → s.verdict ≡ v
        → (u : Running W) × (run_moves unmarshal r (last_turn t v) s ≡ some u)
          × (has_returned u.verdict ≡ true)
          × (u.fetcher ≡ s.fetcher)
          × (u.ctx ≡ s.ctx)
    unfolding run_moves fire_run fire_turn fire_sees_end turn_with step
    loop_ends t goes_on e =
        let u : Running W = record s {
          verdict = stops (s.ctx.err);
          state = (step unmarshal (with_defaults r) (cancelled (s.ctx) t) s.state).1;
          events = s.events ++ cancelled (s.ctx) t ∷ [];
        } in
        (u, one_move (sees_end t) [] s u (rw (e, done)), refl, refl, refl)
    loop_ends t (stops x) e = (s, refl, ap has_returned e, refl, refl)

  length-last :
      (t : FlushTimes) (v : Verdict) (fo : FetchOutcome) (f : Fetcher)
      → length (last_turn t v ++ last_moves fo f) ≤ 3
  length-last t v fo f = ground arith

  -- When the context has ended, whatever the loop has done, and also if `Run` has returned or the
  -- channel is full, there is a run of at most three more moves at whose end both goroutines have
  -- ended: one move of the loop if `Run` has not returned, and behind it moves of the goroutine that
  -- fetches alone, whose call of `FetchMessage`, if there is one, returns.
  pub run_ends :
      (s : Running W) (fo : FetchOutcome) (t : FlushTimes)
      → is_err s.ctx.err ≡ true
      → (u : Running W) × (run_moves unmarshal r
            (last_turn t s.verdict ++ last_moves fo s.fetcher)
            s
          ≡ some u)
        × (length (last_turn t s.verdict ++ last_moves fo s.fetcher) ≤ 3)
        × (has_left u.fetcher ≡ true)
        × (has_returned u.verdict ≡ true)
  run_ends s fo t done =
      let (q, turned, returned, same, ctx) = loop_ends s done t s.verdict refl in
      let (u, moved, left, verdict) =
        fetcher_ends q (ap (λ c. is_err c.err) ctx ∙ done) fo s.fetcher same in
      (
        u,
        run_moves-append (last_turn t s.verdict) (last_moves fo s.fetcher) s q turned ∙ moved,
        length-last t s.verdict fo s.fetcher,
        left,
        ap has_returned verdict ∙ returned,
      )
