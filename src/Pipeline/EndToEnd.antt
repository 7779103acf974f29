-- ===== src/Pipeline/EndToEnd.antt =====
-- The collector from its start to the end of its `main`, and the processor over crashes.
use api_observability_platfo.Base.{
  ℕ, ◌<◌, ◌≡◌, ap, sym, ◌∙◌, Option, some, none, List, [], ◌∷◌, ◌++◌, map, Perm, All, length, drop,
}
use mathlib.Core.Path.{subst}
use api_observability_platfo.Domain.{Error, LogEvent}
use api_observability_platfo.Contract.{Context}
use api_observability_platfo.Metrics.Total.{total}
use api_observability_platfo.Collector.Config.{BackpressureConfig}
use api_observability_platfo.Collector.System.Invariant.{as_accepted}
use api_observability_platfo.Collector.System.Hands.{jobs_of}
use api_observability_platfo.Kafka.{Marshalled, Writer, publisher}
use api_observability_platfo.Parser.{json}
use api_observability_platfo.Processor.Default.{process}
use api_observability_platfo.Processor.Runner.{Runner, FlushTimes, Event, ticked, goes_on, run}
use api_observability_platfo.Processor.Runner.Bounds.{AllOk}
use api_observability_platfo.Processor.Runner.Restarts.{received, AreOnlyFrom, lives, Rereads}
use api_observability_platfo.Cmd.Lifecycle.{Main, MainMove, stopped, run_main, serve}
use api_observability_platfo.Cmd.Lifecycle.Exit.{counted_at_end}
use api_observability_platfo.Cmd.Lifecycle.Kept.{settled_at_end, published_by_main}
use api_observability_platfo.Collector.Worker.{Task}
use api_observability_platfo.Pipeline.{
  IsTopic, numbered, stored, event_of_task, decoded, Survives, Travels, repeated, Deliveries,
}
use api_observability_platfo.Pipeline.Topic.{topic_after_decoded}
use api_observability_platfo.Pipeline.Points.{point_of}
use api_observability_platfo.Pipeline.Delivered.{
  with_default, decoded_travel, repeated_decode, points_repeated,
}
use api_observability_platfo.Pipeline.Lives.{all_stored, topic_stored_at_last}

-- The close of the writer leaves the broker as it is.
abbrev pub ClosesQuietly : {V : Type 0} → Writer V → Type 0
ClosesQuietly {V} writer = (v : V) → (writer.close v).1 ≡ v

module _ (unmarshal : List ℕ → LogEvent × Option Error) (marshal : LogEvent → Marshalled)
    (encode : LogEvent → List ℕ) (grow : ℕ → ℕ → ℕ) {V : Type 0} (log : V → List (List ℕ))
    (writer : Writer V) (kept : IsTopic log writer) (quiet : ClosesQuietly writer) (num_cpu : ℕ)
    (c : BackpressureConfig) (v : V) (empty : log v ≡ []) (mvs : List MainMove) (m : Main V)
    (ran : run_main grow (json unmarshal) (publisher marshal writer) mvs (serve num_cpu c v)
      ≡ some m)
    (survive : All (Survives unmarshal marshal encode) m.system.handled) where
  abbrev sent : List Task
  sent = decoded unmarshal m.system.handled

  abbrev message : Task → List ℕ
  message x = encode (event_of_task unmarshal x)

  travel : All (Travels unmarshal marshal encode) sent
  travel = decoded_travel unmarshal marshal encode m.system.handled survive

  -- The writes of the jobs that decode, and the topic at the end of `main`.
  topic_at_end :
      (ks : List ℕ) × Deliveries unmarshal log writer encode sent ks v
      × (log m.system.world ≡ repeated ks (map message sent))
  topic_at_end =
      let published =
        published_by_main grow (json unmarshal) (publisher marshal writer) num_cpu c v mvs m ran
          (unfold publisher in quiet) in
      let (ks, written, same) =
        topic_after_decoded unmarshal marshal encode log writer kept m.system.handled [] v
          survive in
      (ks, written, ap log published ∙ same ∙ ap (λ q. q ++ repeated ks (map message sent)) empty)

  sound_at_end : All (λ n. (unmarshal n.value).1 ≡ none) (numbered 0 (log m.system.world))
  sound_at_end =
      subst (λ q. All (λ n. (unmarshal n.value).1 ≡ none) (numbered 0 q)) (sym topic_at_end.2)
        (repeated_decode unmarshal marshal encode topic_at_end.0 sent 0 travel)

  points_at_end :
      (ctx : Context)
      → map (point_of unmarshal) (numbered 0 (log m.system.world))
        ≡ repeated topic_at_end.0 (map (λ x. (process ctx (event_of_task unmarshal x)).0) sent)
  points_at_end ctx =
      ap (λ q. map (point_of unmarshal) (numbered 0 q)) topic_at_end.2
      ∙ points_repeated unmarshal marshal encode ctx topic_at_end.0 sent 0 travel

  -- End to end, over failed and repeated writes to Kafka and over crashes of the processor. The
  -- collector, on a machine with a processor, runs from its start, with an empty topic, under any
  -- interleaving of requests, workers and `main` to the end of `main`, and `srv.Shutdown` returned nil.
  -- Its publisher's writer is synchronous and the topic has one partition: the write of a message may
  -- fail and may leave any number of copies, also when it fails, but leaves at least one when it
  -- returns nil; its close leaves the topic alone. What decodes survives encoding and decoding. The
  -- processor then lives any number of times, each life cut off after any turn, with any failures,
  -- and reading that topic alone, from the committed position on; its last life fetches the rest, its
  -- ticker fires, and no write and no commit of a batch fails in it. Then the events counted as
  -- accepted are as many as the jobs that entered the channel; each of these was, exactly once, evicted
  -- or handled; the handled jobs whose payload decodes were written, one by one and in order, each
  -- leaving some number of copies, at least one if its write returned nil; and the points of the
  -- committed batches of all lives are, in order, the points of these jobs, each as often as its write
  -- left copies.
  pub platform_stores :
      0 < num_cpu
      → m.phase ≡ stopped none
      → {W : Type 0} (r : Runner W) (ess : List (List Event)) (w : W)
      → Rereads unmarshal (with_default r) 0 (numbered 0 (log m.system.world)) ess 0 w
      → AreOnlyFrom 0 ess
      → (es : List Event) (ctx : Context) (t : FlushTimes)
      → let (css, end, w') = lives unmarshal (with_default r) 0 ess 0 w in
        received es ≡ drop end (numbered 0 (log m.system.world))
        → (run unmarshal (with_default r) es w').0 ≡ goes_on
        → AllOk (run unmarshal (with_default r) (es ++ ticked ctx t ∷ []) w').1.calls
        → (total as_accepted m.system.service.m ≡ length m.system.entered)
          × Perm m.system.entered (m.system.evicted ++ jobs_of m.system.handled)
          × (ks : List ℕ) × Deliveries unmarshal log writer encode
              (decoded unmarshal m.system.handled)
              ks
              v
          × (all_stored css
                ++ stored (run unmarshal (with_default r) (es ++ ticked ctx t ∷ []) w').1.calls
              ≡ repeated ks (
                  map
                    (λ x. (process ctx (event_of_task unmarshal x)).0)
                    (decoded unmarshal m.system.handled)))
  platform_stores processors ended r ess w reads only es ctx t rest h ok = (
    counted_at_end grow (json unmarshal) (publisher marshal writer) num_cpu c v processors mvs m ran
        ended,
    settled_at_end grow (json unmarshal) (publisher marshal writer) num_cpu c v mvs m ran processors
        none ended,
    topic_at_end.0,
    topic_at_end.1,
    topic_stored_at_last unmarshal r (log m.system.world) sound_at_end ess w reads only es ctx t
          rest h ok
        ∙ points_at_end ctx,
  )
