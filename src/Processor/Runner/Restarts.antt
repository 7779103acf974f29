-- ===== src/Processor/Runner/Restarts.antt =====
-- The processor over several lives: a life is one `Run`, cut off after any of its turns. As Kafka
-- keeps the position of a consumer group, the next life reads a partition from one behind the last
-- offset that was committed. The world of storage and Kafka lives on; the buffer does not.
pub mod Logs
pub mod Position
pub mod Taken
pub mod Covered
pub mod Only
use api_observability_platfo.Base.{
  ℕ, suc, ◌≡◌, Option, none, some, List, [], ◌∷◌, ◌++◌, All, drop, ◌==◌, if◌then◌else◌,
}
use Prim.Native.Nat.{max}
use api_observability_platfo.Domain.{Error, LogEvent}
use api_observability_platfo.Processor.Runner.{
  Message, Runner, Call, Event, cancelled, ticked, fetched, RunState, run,
}
use api_observability_platfo.Processor.Runner.Written.{released}
use api_observability_platfo.Processor.Runner.Faults.{restart_at}

-- The messages of a partition, without a gap from an offset on.
abbrev pub IsLog : ℕ → ℕ → List Message → Type 0
IsLog p n [] = Unit
IsLog p n (m ∷ ms) = (m.partition ≡ p) × (m.offset ≡ n) × IsLog p (suc n) ms

abbrev pub got : Message → Option Error → List Message
got m none = m ∷ []
got m (some e) = []

-- The messages that were fetched.
abbrev pub received : List Event → List Message
received [] = []
received (cancelled ctx t ∷ es) = received es
received (ticked ctx t ∷ es) = received es
received (fetched ctx t fo ∷ es) = got fo.msg fo.err ++ received es

abbrev pub of_partition : ℕ → List Message → List Message
of_partition p [] = []
of_partition p (m ∷ ms) =
    let rest = of_partition p ms in if m.partition == p then m ∷ rest else rest

-- The lives fetch from one partition alone.
abbrev pub AreOnlyFrom : ℕ → List (List Event) → Type 0
AreOnlyFrom p ess = All (λ es. All (λ m. m.partition ≡ p) (received es)) ess

-- The messages of all committed batches of all lives, in the order of the commits.
abbrev pub all_released : List (List Call) → List Message
all_released [] = []
all_released (cs ∷ css) = released cs ++ all_released css

module _ {W : Type 0} (unmarshal : List ℕ → LogEvent × Option Error) (r : Runner W) (p : ℕ) where
  abbrev pub position_after : ℕ → RunState W → ℕ
  position_after pos s = max pos (restart_at p s.calls)

  -- The calls of each life, and behind the last one the committed position of the partition and the
  -- world.
  unfoldable pub lives : List (List Event) → ℕ → W → List (List Call) × ℕ × W
  lives [] pos w = ([], pos, w)
  lives (es ∷ ess) pos w =
      let s = (run unmarshal r es w).1 in
      let (css, end, w') = lives ess (position_after pos s) s.world in (s.calls ∷ css, end, w')

  -- Of the partition, each life fetches messages one after the other from the committed position on.
  abbrev pub Rereads : List Message → List (List Event) → ℕ → W → Type 0
  Rereads log [] pos w = Unit
  Rereads log (es ∷ ess) pos w =
      let s = (run unmarshal r es w).1 in
      ((rest : List Message) × (of_partition p (received es) ++ rest ≡ drop pos log))
      × Rereads log ess (position_after pos s) s.world
