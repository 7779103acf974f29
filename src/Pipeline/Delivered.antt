-- ===== src/Pipeline/Delivered.antt =====
-- The messages of a topic that carries copies of the events of jobs.
use api_observability_platfo.Base.{
  ℕ, zero, suc, ◌≡◌, refl, ap, Option, none, List, [], ◌∷◌, ◌++◌, map, All, replicate, Option-cases,
  inl, inr,
}
use api_observability_platfo.Domain.{Error, LogEvent, MetricPoint}
use api_observability_platfo.Contract.{Context}
use api_observability_platfo.Parser.{parse}
use api_observability_platfo.Kafka.{Marshalled}
use api_observability_platfo.Processor.Default.{process, default}
use api_observability_platfo.Processor.Runner.{Message, Runner}
use api_observability_platfo.Collector.Worker.{Task}
use api_observability_platfo.Pipeline.{
  numbered, event_of_task, Travels, decoded, Survives, repeated,
}
use api_observability_platfo.Pipeline.Points.{point_of}

-- The runner with the default processor, as cmd/processor/main.go builds it.
abbrev pub with_default : {W : Type 0} → Runner W → Runner W
with_default r = record r { proc = default }

module _ (unmarshal : List ℕ → LogEvent × Option Error) (marshal : LogEvent → Marshalled)
    (encode : LogEvent → List ℕ) where
  abbrev message : Task → List ℕ
  message x = encode (event_of_task unmarshal x)

  abbrev IsSound : Message → Type 0
  IsSound n = (unmarshal n.value).1 ≡ none

  pub decoded_travel :
      (js : List Task)
      → All (Survives unmarshal marshal encode) js
      → All (Travels unmarshal marshal encode) (decoded unmarshal js)
  decoded_travel [] h = tt
  decoded_travel (x ∷ js) h =
      let rest = decoded_travel js h.1 in
      elim (Option-cases (parse unmarshal x.0.parsing x.1.payload).1) [
        | inl good ↦ rw good ((good, (h.0 good).0, (h.0 good).1), rest)
        | inr (err, bad) ↦ rw bad rest
      ]

  copies_decode :
      (x : Task) (k n : ℕ) (behind : List (List ℕ))
      → Travels unmarshal marshal encode x
      → ((i : ℕ) → All IsSound (numbered i behind))
      → All IsSound (numbered n (replicate k (message x) ++ behind))
  copies_decode x zero n behind h rest = rest n
  copies_decode x (suc k) n behind h rest =
      (ap (λ (q : LogEvent × Option Error). q.1) h.2, copies_decode x k (suc n) behind h rest)

  -- Every copy of an event decodes.
  pub repeated_decode :
      (ks : List ℕ) (xs : List Task) (n : ℕ)
      → All (Travels unmarshal marshal encode) xs
      → All IsSound (numbered n (repeated ks (map message xs)))
  repeated_decode [] xs n h = tt
  repeated_decode (k ∷ ks) [] n h = tt
  repeated_decode (k ∷ ks) (x ∷ xs) n h =
      copies_decode x k n _ h.0 (λ i. repeated_decode ks xs i h.1)

  module _ (ctx : Context) where
    abbrev point : Task → MetricPoint
    point x = (process ctx (event_of_task unmarshal x)).0

    points_of_copies :
        (x : Task) (k n : ℕ) (behind : List (List ℕ)) (points : List MetricPoint)
        → Travels unmarshal marshal encode x
        → ((i : ℕ) → map (point_of unmarshal) (numbered i behind) ≡ points)
        → map (point_of unmarshal) (numbered n (replicate k (message x) ++ behind))
          ≡ replicate k (point x) ++ points
    unfolding process
    points_of_copies x zero n behind points h rest = rest n
    points_of_copies x (suc k) n behind points h rest =
        rw
          (
            ap (λ (q : LogEvent × Option Error). (process ctx q.0).0) h.2,
            points_of_copies x k (suc n) behind points h rest,
          )
          refl

    -- The copies of an event have the point of its job, each.
    pub points_repeated :
        (ks : List ℕ) (xs : List Task) (n : ℕ)
        → All (Travels unmarshal marshal encode) xs
        → map (point_of unmarshal) (numbered n (repeated ks (map message xs)))
          ≡ repeated ks (map point xs)
    points_repeated [] xs n h = refl
    points_repeated (k ∷ ks) [] n h = refl
    points_repeated (k ∷ ks) (x ∷ xs) n h =
        points_of_copies x k n _ _ h.0 (λ i. points_repeated ks xs i h.1)
