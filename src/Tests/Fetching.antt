-- ===== src/Tests/Fetching.antt =====
-- The goroutines of `Run` with one message received and one on its way when the context ends.
use api_observability_platfo.Base.{ℕ, ◌≤◌, ◌≡◌, refl, true, none, some, List, [], ◌∷◌, ◌++◌, length}
use api_observability_platfo.Domain.{canceled, is_err}
use api_observability_platfo.Collector.Chan.{try_send, try_receive}
use api_observability_platfo.Processor.Default.{process, default}
use api_observability_platfo.Processor.Runner.{
  FetchOutcome, run, run_loop, with_defaults, flush, step,
}
use api_observability_platfo.Processor.Runner.Fetching.{
  Running, RunMove, ends, checks, answers, offers, sees_tick, sees_outcome, begin_run, fire_run,
  run_moves,
}
use api_observability_platfo.Processor.Runner.Fetching.Fed.{seen, pending}
use api_observability_platfo.Processor.Runner.Fetching.Feed.{fed_in_order}
use api_observability_platfo.Processor.Runner.Fetching.Ends.{
  has_left, has_returned, last_moves, last_turn, run_ends,
}
use api_observability_platfo.Pipeline.Delivered.{with_default}
use api_observability_platfo.Tests.EndToEnd.{toy_unmarshal, reading, live, clock}

abbrev outcome : ℕ → ℕ → FetchOutcome
outcome n v = record { msg = record { partition = 0; offset = n; value = v ∷ [] }; err = none }

abbrev on_the_way : List RunMove
on_the_way =
    checks
    ∷ answers (outcome 0 2)
    ∷ offers
    ∷ checks
    ∷ answers (outcome 1 3)
    ∷ sees_outcome clock
    ∷ offers
    ∷ sees_tick clock
    ∷ checks
    ∷ answers (outcome 2 4)
    ∷ ends canceled
    ∷ []

abbrev standing : Running ℕ
standing = elim (run_moves toy_unmarshal (with_default reading) on_the_way (begin_run live 0)) [
  | none ↦ begin_run live 0
  | some s ↦ s
]

way_runs :
    run_moves toy_unmarshal (with_default reading) on_the_way (begin_run live 0) ≡ some standing
unfolding run_moves fire_run begin_run toy_unmarshal run run_loop with_defaults step flush default
    process try_send try_receive
way_runs = refl

-- One outcome is in the channel, one in the goroutine's hand, and one message is stored.
way_counts :
    (length standing.outcomes.items ≡ 1)
    × (length (pending standing.fetcher) ≡ 1)
    × (standing.state.world ≡ 1)
unfolding run_moves fire_run begin_run toy_unmarshal run run_loop with_defaults step flush default
    process try_send try_receive
way_counts = (refl, refl, refl)

fed_in_order_example :
    (run toy_unmarshal (with_default reading) standing.events 0
      ≡ (standing.verdict, standing.state))
    × (seen standing.events ++ (standing.outcomes.items ++ pending standing.fetcher)
        ≡ standing.answered)
    × (length standing.outcomes.items ≤ 8)
fed_in_order_example =
    fed_in_order toy_unmarshal (with_default reading) 0 live on_the_way standing way_runs

has_ended : is_err standing.ctx.err ≡ true
unfolding run_moves fire_run begin_run toy_unmarshal run run_loop with_defaults step flush default
    process try_send try_receive
has_ended = refl

run_ends_example :
    let mvs = last_turn clock standing.verdict ++ last_moves (outcome 3 5) standing.fetcher in
    (u : Running ℕ) × (run_moves toy_unmarshal (with_default reading) mvs standing ≡ some u)
    × (length mvs ≤ 3)
    × (has_left u.fetcher ≡ true)
    × (has_returned u.verdict ≡ true)
run_ends_example =
    run_ends toy_unmarshal (with_default reading) standing (outcome 3 5) clock has_ended
