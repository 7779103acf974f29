-- ===== src/Pipeline/Points.antt =====
-- What the runner stores of the messages that it fetches.
use api_observability_platfo.Base.{
  ℕ, ◌≡◌, refl, sym, ap, ◌∙◌, Option, none, some, List, [], ◌∷◌, ◌++◌, map, All,
}
use mathlib.Core.List.{map-append}
use api_observability_platfo.Domain.{Error, LogEvent, MetricPoint}
use api_observability_platfo.Processor.Default.{process, default}
use api_observability_platfo.Processor.Runner.{
  Message, BatchItem, Call, wrote, commit_batch, commit_poison,
}
use api_observability_platfo.Processor.Runner.Written.{
  msg_of, pt_of, released, IsMade, IsWriteFirst,
}
use api_observability_platfo.Pipeline.{stored}

module _ (unmarshal : List ℕ → LogEvent × Option Error) where
  -- The point of the event that a message carries; the processor does not read the context.
  abbrev pub point_of : Message → MetricPoint
  point_of m = (process (record { err = none }) (unmarshal m.value).0).0

  points_made :
      (items : List BatchItem)
      → All (IsMade unmarshal default) items
      → map pt_of items ≡ map point_of (map msg_of items)
  unfolding default process
  points_made [] h = refl
  points_made (i ∷ is) h =
      let (ctx, e, decoded, processed) = h.0 in
      let point : pt_of i ≡ point_of (msg_of i) =
        ap (λ (q : MetricPoint × Option Error). q.0) (sym processed)
        ∙ ap (λ (q : LogEvent × Option Error). (process ctx q.0).0) (sym decoded) in
      rw (point, points_made is h.1) refl

  -- In a history in which every commit follows the write of its points, the points of the committed
  -- batches are those of the committed messages.
  pub stored-released :
      (cs : List Call)
      → IsWriteFirst (IsMade unmarshal default) cs
      → stored cs ≡ map point_of (released cs)
  stored-released [] h = refl
  stored-released (wrote pts result err ∷ cs) h = stored-released cs h
  stored-released (commit_poison m err ∷ cs) h = stored-released cs h
  stored-released (commit_batch msgs (some e) ∷ cs) h = stored-released cs h.1
  stored-released (commit_batch msgs none ∷ []) h = absurd h.0
  stored-released (commit_batch msgs none ∷ (wrote pts result none ∷ cs)) h =
      let (items, same, points, made) = h.0 in
      ap (λ q. q ++ pts) (stored-released cs h.1)
      ∙ ap (λ q. map point_of (released cs) ++ q)
          (points ∙ points_made items made ∙ ap (map point_of) (sym same))
      ∙ sym (map-append point_of (released cs) msgs)
  stored-released (commit_batch msgs none ∷ (wrote pts result (some e) ∷ cs)) h = absurd h.0
  stored-released (commit_batch msgs none ∷ (commit_batch ms err ∷ cs)) h = absurd h.0
  stored-released (commit_batch msgs none ∷ (commit_poison m err ∷ cs)) h = absurd h.0
