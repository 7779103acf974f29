-- ===== src/Pipeline/Topic.antt =====
-- What the worker leaves in the topic.
use api_observability_platfo.Base.{
  ℕ, ◌≡◌, ap, some, Option-cases, inl, inr, ◌∙◌, Option, List, [], ◌∷◌, ◌++◌, map, append_assoc,
  append-nil, All, arith, replicate,
}
use mathlib.Core.Path.{subst}
use api_observability_platfo.Domain.{Error, LogEvent}
use api_observability_platfo.Metrics.Collector.{Metric}
use api_observability_platfo.Collector.Worker.{handle_each, Task, handle_job, fresh_context}
use api_observability_platfo.Parser.{json, parse}
use api_observability_platfo.Kafka.{Marshalled, Writer, publisher}
use api_observability_platfo.Kafka.Delivery.{publish_in_order}
use api_observability_platfo.Pipeline.{
  IsTopic, event_of_task, Travels, decoded, Survives, repeated, Deliveries,
}

module _ (unmarshal : List ℕ → LogEvent × Option Error) (marshal : LogEvent → Marshalled)
    (encode : LogEvent → List ℕ) {V : Type 0} (log : V → List (List ℕ)) (writer : Writer V)
    (kept : IsTopic log writer) where
  abbrev message : Task → List ℕ
  message x = encode (event_of_task unmarshal x)

  -- What the worker makes of a job that decodes: one write of its event.
  handle_job-write :
      (x : Task) (m : List Metric) (v : V)
      → Travels unmarshal marshal encode x
      → (handle_job (json unmarshal) (publisher marshal writer) x.0 x.1 m v).1
        ≡ (writer.write_messages fresh_context (message x ∷ []) v).1
  unfolding handle_job json publisher
  handle_job-write (t, j) m v h =
      let e = event_of_task unmarshal (t, j) in
      ground (arith, h.0, publish_in_order marshal writer fresh_context encode (e ∷ []) v (h.1, tt))

  -- A job whose payload does not decode leaves the broker alone.
  handle_job-undecoded :
      (x : Task) (m : List Metric) (v : V) (err : Error)
      → (parse unmarshal x.0.parsing x.1.payload).1 ≡ some err
      → (handle_job (json unmarshal) (publisher marshal writer) x.0 x.1 m v).1 ≡ v
  unfolding handle_job json
  handle_job-undecoded (t, j) m v err h = ground (arith, h)

  -- The jobs that decode were written from the first state on, and the topic has their copies more.
  abbrev Reaches : List Task → V → V → Type 0
  Reaches xs v v' =
      (ks : List ℕ) × Deliveries unmarshal log writer encode xs ks v
      × (log v' ≡ log v ++ repeated ks (map message xs))

  one_more :
      (x : Task) (xs : List Task) (v v' : V)
      → Reaches xs (writer.write_messages fresh_context (message x ∷ []) v).1 v'
      → Reaches (x ∷ xs) v v'
  one_more x xs v v' (ks, written, same) =
      let (k, written_x) = kept fresh_context (message x) v in
      let behind = repeated ks (map message xs) in
      (
        k ∷ ks,
        (written_x, written),
        same
            ∙ ap (λ q. q ++ behind) written_x.0
            ∙ append_assoc (log v) (replicate k (message x)) behind,
      )

  pub topic_after_decoded :
      (js : List Task) (m : List Metric) (v : V)
      → All (Survives unmarshal marshal encode) js
      → Reaches
          (decoded unmarshal js)
          v
          (handle_each (json unmarshal) (publisher marshal writer) js m v).1
  unfolding handle_each
  topic_after_decoded [] m v h = ([], tt, rw append-nil)
  topic_after_decoded ((t, j) ∷ js) m v h =
      let (m', v') = handle_job (json unmarshal) (publisher marshal writer) t j m v in
      let end = (handle_each (json unmarshal) (publisher marshal writer) js m' v').1 in
      let rest : Reaches (decoded unmarshal js) v' end = topic_after_decoded js m' v' h.1 in
      let from = λ (u : V). Reaches (decoded unmarshal js) u end in
      elim (Option-cases (parse unmarshal t.parsing j.payload).1) [
        | inl good ↦
            let step = handle_job-write (t, j) m v (good, (h.0 good).0, (h.0 good).1) in
            rw good (one_more (t, j) (decoded unmarshal js) v end (subst from step rest))
        | inr (err, bad) ↦ rw bad (subst from (handle_job-undecoded (t, j) m v err bad) rest)
      ]
