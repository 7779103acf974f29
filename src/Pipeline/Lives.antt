-- ===== src/Pipeline/Lives.antt =====
-- What a processor that crashes and comes back stores of a topic.
use api_observability_platfo.Base.{
  ℕ, zero, suc, ◌≡◌, refl, sym, ap, ◌∙◌, Option, none, List, [], ◌∷◌, ◌++◌, map, All, All-map, take,
  drop,
}
use mathlib.Core.List.{map-append}
use mathlib.Core.Path.{subst}
use api_observability_platfo.Domain.{Error, LogEvent, MetricPoint}
use api_observability_platfo.Contract.{Context}
use api_observability_platfo.Processor.Default.{default, process}
use api_observability_platfo.Processor.Runner.{
  Runner, FlushTimes, Event, ticked, Call, goes_on, run,
}
use api_observability_platfo.Processor.Runner.Written.{released, IsMade, IsWriteFirst}
use api_observability_platfo.Processor.Runner.History.{run_history}
use api_observability_platfo.Processor.Runner.Bounds.{AllOk}
use api_observability_platfo.Processor.Runner.Delivery.{run_delivers}
use api_observability_platfo.Processor.Runner.Restarts.{
  IsLog, received, AreOnlyFrom, all_released, lives, Rereads,
}
use api_observability_platfo.Processor.Runner.Restarts.Logs.{All-drop}
use api_observability_platfo.Processor.Runner.Restarts.Taken.{NeverFails}
use api_observability_platfo.Processor.Runner.Restarts.Covered.{lives_cover}
use api_observability_platfo.Processor.Runner.Restarts.Only.{IsLog-only, wanted_only, covered_only}
use api_observability_platfo.Pipeline.{numbered, stored}
use api_observability_platfo.Pipeline.Points.{point_of, stored-released}
use api_observability_platfo.Pipeline.Delivered.{with_default}

-- The points that the committed batches of all lives have stored.
abbrev pub all_stored : List (List Call) → List MetricPoint
all_stored [] = []
all_stored (cs ∷ css) = stored cs ++ all_stored css

numbered-IsLog : (n : ℕ) (vs : List (List ℕ)) → IsLog 0 n (numbered n vs)
numbered-IsLog n [] = tt
numbered-IsLog n (v ∷ vs) = (refl, refl, numbered-IsLog (suc n) vs)

take-append-drop {ℓ} : {A : Type ℓ} (n : ℕ) (xs : List A) → take n xs ++ drop n xs ≡ xs
take-append-drop zero xs = refl
take-append-drop (suc n) [] = refl
take-append-drop (suc n) (x ∷ xs) = ap (◌∷◌ x) (take-append-drop n xs)

default-NeverFails : NeverFails default
unfolding default process
default-NeverFails ctx e = refl

module _ (unmarshal : List ℕ → LogEvent × Option Error) where
  all_stored-released :
      (css : List (List Call))
      → All (IsWriteFirst (IsMade unmarshal default)) css
      → all_stored css ≡ map (point_of unmarshal) (all_released css)
  all_stored-released [] h = refl
  all_stored-released (cs ∷ css) h =
      ap (λ q. q ++ all_stored css) (stored-released unmarshal cs h.0)
      ∙ ap (λ q. map (point_of unmarshal) (released cs) ++ q) (all_stored-released css h.1)
      ∙ sym (map-append (point_of unmarshal) (released cs) (all_released css))

  module _ {W : Type 0} (r : Runner W) (topic : List (List ℕ))
      (sound : All (λ m. (unmarshal m.value).1 ≡ none) (numbered 0 topic)) (ess : List (List Event))
      (w : W) (reads : Rereads unmarshal (with_default r) 0 (numbered 0 topic) ess 0 w)
      (only : AreOnlyFrom 0 ess) where
    abbrev lived : List (List Call) × ℕ × W
    lived = lives unmarshal (with_default r) 0 ess 0 w

    -- The lives, and one more that fetches the rest of the partition, sees the ticker fire, and meets
    -- no failure, have stored the points of all its messages.
    pub topic_stored_at_last :
        (es : List Event) (ctx : Context) (t : FlushTimes)
        → received es ≡ drop lived.1 (numbered 0 topic)
        → (run unmarshal (with_default r) es lived.2).0 ≡ goes_on
        → AllOk (run unmarshal (with_default r) (es ++ ticked ctx t ∷ []) lived.2).1.calls
        → all_stored lived.0
            ++ stored (run unmarshal (with_default r) (es ++ ticked ctx t ∷ []) lived.2).1.calls
          ≡ map (point_of unmarshal) (numbered 0 topic)
    topic_stored_at_last es ctx t rest h ok =
        let log = numbered 0 topic in
        let q = with_default r in
        let cs = (run unmarshal q (es ++ ticked ctx t ∷ []) lived.2).1.calls in
        let gapless = numbered-IsLog 0 topic in
        let first =
          (lives_cover unmarshal q 0 log gapless sound default-NeverFails ess w reads).0 in
        let covered =
          covered_only unmarshal 0 q log gapless sound default-NeverFails ess w reads only in
        let mine =
          subst (All _) (sym rest)
            (All-drop (λ m. (unmarshal m.value).1 ≡ none) lived.1 log sound) in
        let last : released cs ≡ drop lived.1 log =
          (run_delivers unmarshal q es lived.2 ctx t h ok).1
          ∙ wanted_only unmarshal 0 default es default-NeverFails
              (All-map (λ m e own. e) (received es) mine)
              (subst (All _) (sym rest) (All-drop _ lived.1 log (IsLog-only 0 0 log gapless)))
          ∙ rest in
        ap (λ a. a ++ stored cs) (all_stored-released lived.0 first)
        ∙ ap (λ a. map (point_of unmarshal) (all_released lived.0) ++ a)
            (stored-released unmarshal cs
              (run_history unmarshal q (es ++ ticked ctx t ∷ []) lived.2).0)
        ∙ sym (map-append (point_of unmarshal) (all_released lived.0) (released cs))
        ∙ ap (map (point_of unmarshal)) (
            ap (λ a. a ++ released cs) covered
            ∙ ap (λ a. take lived.1 log ++ a) last
            ∙ take-append-drop lived.1 log)
