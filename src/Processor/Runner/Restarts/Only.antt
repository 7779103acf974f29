-- ===== src/Processor/Runner/Restarts/Only.antt =====
-- A topic of one partition.
use api_observability_platfo.Base.{
  ℕ, suc, ◌≡◌, sym, ◌∙◌, Option, none, List, [], ◌∷◌, All, All-append, take,
}
use api_observability_platfo.Domain.{Error, LogEvent}
use api_observability_platfo.Contract.{Processor}
use api_observability_platfo.Processor.Runner.{Message, Runner, Event, run}
use api_observability_platfo.Processor.Runner.Written.{released}
use api_observability_platfo.Processor.Runner.Intake.{wanted}
use api_observability_platfo.Processor.Runner.Restarts.{
  IsLog, received, AreOnlyFrom, all_released, position_after, lives, Rereads,
}
use api_observability_platfo.Processor.Runner.Restarts.Logs.{of_partition-All}
use api_observability_platfo.Processor.Runner.Restarts.Taken.{
  NeverFails, Decode, wanted-received, All-wanted, All-released,
}
use api_observability_platfo.Processor.Runner.Restarts.Covered.{lives_cover}

pub IsLog-only : (p n : ℕ) (log : List Message) → IsLog p n log → All (λ m. m.partition ≡ p) log
IsLog-only p n [] h = tt
IsLog-only p n (m ∷ ms) h = (h.0, IsLog-only p (suc n) ms h.2)

module _ (unmarshal : List ℕ → LogEvent × Option Error) (p : ℕ) where
  -- All that is fetched is wanted.
  pub wanted_only :
      (q : Processor) (es : List Event)
      → NeverFails q
      → Decode unmarshal p (received es)
      → All (λ m. m.partition ≡ p) (received es)
      → wanted unmarshal q es ≡ received es
  wanted_only q es never sound only =
      sym (of_partition-All p (wanted unmarshal q es) (All-wanted unmarshal _ q es only))
      ∙ wanted-received unmarshal q never p es sound
      ∙ of_partition-All p (received es) only

  module _ {W : Type 0} (r : Runner W) where
    released_only :
        (ess : List (List Event)) (pos : ℕ) (w : W)
        → AreOnlyFrom p ess
        → All (λ m. m.partition ≡ p) (all_released (lives unmarshal r p ess pos w).0)
    unfolding lives
    released_only [] pos w only = tt
    released_only (es ∷ ess) pos w only =
        let s = (run unmarshal r es w).1 in
        let next = position_after unmarshal r p pos s in
        All-append _ (released s.calls) (all_released (lives unmarshal r p ess next s.world).0)
          (All-released unmarshal _ r es w only.0) (released_only ess next s.world only.1)

    -- The messages of the committed batches of all lives are those before the committed position.
    pub covered_only :
        (log : List Message)
        → IsLog p 0 log
        → All (λ m. (unmarshal m.value).1 ≡ none) log
        → NeverFails r.proc
        → (ess : List (List Event)) (w : W) → Rereads unmarshal r p log ess 0 w
        → AreOnlyFrom p ess
        → let (css, end, w') = lives unmarshal r p ess 0 w in all_released css ≡ take end log
    covered_only log gapless sound never ess w reads only =
        sym (of_partition-All p _ (released_only ess 0 w only))
        ∙ (lives_cover unmarshal r p log gapless sound never ess w reads).1
