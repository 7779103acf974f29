-- ===== src/Processor/Runner/Fetching/Feed.antt =====
-- The loop of `Run` sees what `FetchMessage` returned, in order, whatever the goroutines do.
use api_observability_platfo.Base.{
  ℕ, ◌≤◌, ◌≡◌, refl, sym, ap, ◌∙◌, Option, some, List, [], ◌∷◌, ◌++◌, arith, append_assoc, length,
  length-append, Bool-cases, Option-cases, inl, inr,
}
use mathlib.Core.Path.{subst}
use api_observability_platfo.Domain.{Error, is_err, LogEvent}
use api_observability_platfo.Contract.{Context}
use api_observability_platfo.Collector.Chan.{Chan, try_receive, receive}
use api_observability_platfo.Processor.Runner.{
  Runner, RunState, FlushTimes, FetchOutcome, Event, cancelled, ticked, fetched, Verdict, goes_on,
  with_defaults, step, run, run_loop,
}
use api_observability_platfo.Processor.Runner.Delivery.{run_loop-snoc}
use api_observability_platfo.Processor.Runner.Fetching.{
  Running, RunMove, ends, checks, answers, offers, gives_up, sees_end, sees_tick, sees_outcome,
  begin_run, turn_with, fire_sees_end, after_outcome, fire_turn, fire_run, run_moves,
}
use api_observability_platfo.Processor.Runner.Fetching.Fed.{
  seen, pending, seen-append, IsFed, LeadsTo, ends-IsFed, checks-IsFed, answers-IsFed, offers-IsFed,
  gives_up-IsFed,
}

module _ {W : Type 0} (unmarshal : List ℕ → LogEvent × Option Error) (r : Runner W) (w : W) where
  module _ (s : Running W) (fed : IsFed unmarshal r w s) where
    turn_with-IsFed :
        (e : Event) (c : Chan FetchOutcome)
        → s.verdict ≡ goes_on
        → s.outcomes.items ≡ seen (e ∷ []) ++ c.items
        → c.capacity ≡ s.outcomes.capacity
        → LeadsTo unmarshal r w (turn_with unmarshal r e (record s { outcomes = c }))
    unfolding turn_with run
    turn_with-IsFed e c live split cap =
        let begun : RunState W = record {
          buf = [];
          world = w;
          metrics = [];
          calls = [];
          taken = [];
        } in
        let on : (run unmarshal r s.events w).0 ≡ goes_on = ap (λ q. q.0) fed.same ∙ live in
        record {
          same =
              run_loop-snoc unmarshal (with_defaults r) s.events e begun on
              ∙ ap (λ q. step unmarshal (with_defaults r) e q.1) fed.same;
          kept =
              ap (λ q. q ++ (c.items ++ pending s.fetcher)) (seen-append s.events (e ∷ []))
              ∙ append_assoc (seen s.events) (seen (e ∷ [])) (c.items ++ pending s.fetcher)
              ∙ ap (λ q. seen s.events ++ q)
                  (sym (append_assoc (seen (e ∷ [])) c.items (pending s.fetcher))
                    ∙ ap (λ q. q ++ pending s.fetcher) (sym split))
              ∙ fed.kept;
          size = cap ∙ fed.size;
          room = omega (arith, fed.room, length-append (seen (e ∷ [])) c.items, ap length split);
        }

    outcome-IsFed :
        (t : FlushTimes)
        → s.verdict ≡ goes_on
        → (fos : List FetchOutcome) → s.outcomes.items ≡ fos
        → LeadsTo unmarshal r w (after_outcome unmarshal r t (receive fos s.outcomes) s)
    outcome-IsFed t live [] e = elim (Bool-cases (s.outcomes.closed)) [
      | inl shut ↦ rw shut tt
      | inr opened ↦ rw opened tt
    ]
    outcome-IsFed t live (fo ∷ fos) e =
        turn_with-IsFed (fetched (s.ctx) t fo) (record (s.outcomes) { items = fos }) live e refl

    turn-IsFed :
        (mv : RunMove) (v : Verdict)
        → s.verdict ≡ v
        → LeadsTo unmarshal r w (fire_turn unmarshal r mv v s)
    unfolding fire_turn fire_sees_end try_receive
    turn-IsFed (sees_end t) goes_on live = elim (Bool-cases (is_err (s.ctx.err))) [
      | inl done ↦ rw done (turn_with-IsFed (cancelled (s.ctx) t) (s.outcomes) live refl refl)
      | inr other ↦ rw other tt
    ]
    turn-IsFed (sees_tick t) goes_on live =
        turn_with-IsFed (ticked (s.ctx) t) (s.outcomes) live refl refl
    turn-IsFed (sees_outcome t) goes_on live = outcome-IsFed t live s.outcomes.items refl
    turn-IsFed _ _ live = tt

    pub fire_run-IsFed : (mv : RunMove) → LeadsTo unmarshal r w (fire_run unmarshal r mv s)
    unfolding fire_run
    fire_run-IsFed (ends e) = ends-IsFed unmarshal r w s fed e
    fire_run-IsFed checks = checks-IsFed unmarshal r w s fed s.fetcher refl
    fire_run-IsFed (answers fo) = answers-IsFed unmarshal r w s fed fo s.fetcher refl
    fire_run-IsFed offers = offers-IsFed unmarshal r w s fed s.fetcher refl
    fire_run-IsFed gives_up = gives_up-IsFed unmarshal r w s fed s.fetcher refl
    fire_run-IsFed (sees_end t) = turn-IsFed (sees_end t) s.verdict refl
    fire_run-IsFed (sees_tick t) = turn-IsFed (sees_tick t) s.verdict refl
    fire_run-IsFed (sees_outcome t) = turn-IsFed (sees_outcome t) s.verdict refl

  run_moves-IsFed :
      (mvs : List RunMove) (s t : Running W)
      → IsFed unmarshal r w s
      → run_moves unmarshal r mvs s ≡ some t
      → IsFed unmarshal r w t
  unfolding run_moves
  run_moves-IsFed [] s t fed ran = subst (LeadsTo unmarshal r w) ran fed
  run_moves-IsFed (mv ∷ mvs) s t fed ran =
      let one = fire_run-IsFed s fed mv in
      elim (Option-cases (fire_run unmarshal r mv s)) [
        | inl e ↦ absurd (cc)
        | inr (u, e) ↦
            run_moves-IsFed mvs u t (subst (LeadsTo unmarshal r w) e one) (rw (run_moves, e) at ran)
      ]

  pub begin_run-IsFed : (ctx : Context) → IsFed unmarshal r w (begin_run ctx w)
  unfolding begin_run run run_loop
  begin_run-IsFed ctx = record { same = refl; kept = refl; size = refl; room = omega arith }

  -- The two goroutines of `Run`, the ticker and the end of the context, in any order, whatever
  -- `FetchMessage` returns: the loop stands where `run` on its events puts it; the outcomes that it has
  -- received, those in the channel and the one that the goroutine holds are, one after the other, all
  -- that `FetchMessage` has returned; and the channel holds at most 8.
  pub fed_in_order :
      (ctx : Context) (mvs : List RunMove) (s : Running W)
      → run_moves unmarshal r mvs (begin_run ctx w) ≡ some s
      → (run unmarshal r s.events w ≡ (s.verdict, s.state))
        × (seen s.events ++ (s.outcomes.items ++ pending s.fetcher) ≡ s.answered)
        × (length s.outcomes.items ≤ 8)
  fed_in_order ctx mvs s ran =
      let fed = run_moves-IsFed mvs (begin_run ctx w) s (begin_run-IsFed ctx) ran in
      (fed.same, fed.kept, fed.room)
