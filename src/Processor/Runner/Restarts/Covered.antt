-- ===== src/Processor/Runner/Restarts/Covered.antt =====
-- At least once over all lives.
use api_observability_platfo.Base.{
  ℕ, ◌+◌, ◌≡◌, refl, sym, ap, ◌∙◌, Option, none, List, [], ◌∷◌, ◌++◌, arith, All, length, take,
  drop, append_assoc, append-nil,
}
use mathlib.Core.Path.{subst}
use native.Mathlib.Nat.{zero-add}
use api_observability_platfo.Domain.{Error, LogEvent}
use api_observability_platfo.Processor.Runner.{Message, Runner, Event, RunState, with_defaults, run}
use api_observability_platfo.Processor.Runner.Loop.{run_loop_keeps_on}
use api_observability_platfo.Processor.Runner.Written.{released, IsMade, IsWriteFirst}
use api_observability_platfo.Processor.Runner.History.{run_history}
use api_observability_platfo.Processor.Runner.Restarts.{
  IsLog, received, all_released, position_after, lives, Rereads, of_partition,
}
use api_observability_platfo.Processor.Runner.Restarts.Logs.{
  All-drop, All-front, take-front, IsLog-drop, IsLog-front, behind-IsLog, of_partition-append,
  behind-of_partition, All-of_partition,
}
use api_observability_platfo.Processor.Runner.Restarts.Position.{IsSound, IsPlain, step-IsPlain}
use api_observability_platfo.Processor.Runner.Restarts.Taken.{
  NeverFails, received-IsSound, released_front,
}

module _ {W : Type 0} (unmarshal : List ℕ → LogEvent × Option Error) (r : Runner W) (p : ℕ)
    (log : List Message) (gapless : IsLog p 0 log)
    (sound : All (λ m. (unmarshal m.value).1 ≡ none) log) (never : NeverFails r.proc) where
  -- One life releases what follows its position and moves the position behind it.
  pub life_lem :
      (es : List Event) (pos : ℕ) (w : W) (rest : List Message)
      → of_partition p (received es) ++ rest ≡ drop pos log
      → let s = (run unmarshal r es w).1 in
        let own = of_partition p (released s.calls) in
        (position_after unmarshal r p pos s ≡ pos + length own)
        × (take (pos + length own) log ≡ take pos log ++ own)
  unfolding run
  life_lem es pos w rest reads =
      let s = (run unmarshal r es w).1 in
      let own = of_partition p (released s.calls) in
      let ahead = All-drop (λ m. (unmarshal m.value).1 ≡ none) pos log sound in
      let mine =
        All-of_partition (λ m. (unmarshal m.value).1 ≡ none) p (received es)
          (All-front _ (of_partition p (received es)) rest (subst (All _) (sym reads) ahead)) in
      let (behind_it, first) = released_front unmarshal r p es w never mine in
      let part : own ++ (behind_it ++ rest) ≡ drop pos log =
        sym (append_assoc own behind_it rest) ∙ ap (λ q. q ++ rest) first ∙ reads in
      let begun : RunState W = record {
        buf = [];
        world = w;
        metrics = [];
        calls = [];
        taken = [];
      } in
      let plain : IsPlain p s =
        run_loop_keeps_on unmarshal (with_defaults r) (IsPlain p) (IsSound unmarshal p)
          (step-IsPlain p unmarshal (with_defaults r)) es begun
          (received-IsSound unmarshal p es mine) refl in
      let here =
        IsLog-front p pos own (behind_it ++ rest)
          (subst (IsLog p pos) (sym part) (rw zero-add at (IsLog-drop p 0 pos log gapless))) in
      (
        omega (arith, plain, behind-of_partition p (released s.calls), behind-IsLog p pos own here),
        take-front pos own (behind_it ++ rest) log part,
      )

  -- The released messages of the partition continue it up to the committed position.
  released_on :
      (ess : List (List Event)) (pos : ℕ) (w : W)
      → Rereads unmarshal r p log ess pos w
      → take pos log ++ of_partition p (all_released (lives unmarshal r p ess pos w).0)
        ≡ take (lives unmarshal r p ess pos w).1 log
  unfolding lives
  released_on [] pos w reads = rw append-nil
  released_on (es ∷ ess) pos w reads =
      let s = (run unmarshal r es w).1 in
      let (moved, longer) = life_lem es pos w reads.0.0 reads.0.1 in
      let next = position_after unmarshal r p pos s in
      let later = all_released (lives unmarshal r p ess next s.world).0 in
      ap (λ q. take pos log ++ q) (of_partition-append p (released s.calls) later)
      ∙ sym (append_assoc (take pos log) (of_partition p (released s.calls)) (of_partition p later))
      ∙ ap (λ q. q ++ of_partition p later) (sym longer ∙ ap (λ n. take n log) (sym moved))
      ∙ released_on ess next s.world reads.1

  write_first :
      (ess : List (List Event)) (pos : ℕ) (w : W)
      → All (IsWriteFirst (IsMade unmarshal r.proc)) (lives unmarshal r p ess pos w).0
  unfolding lives
  write_first [] pos w = tt
  write_first (es ∷ ess) pos w =
      let s = (run unmarshal r es w).1 in
      (
        (run_history unmarshal r es w).0,
        write_first ess (position_after unmarshal r p pos s) s.world,
      )

  -- At least once, over crashes, for every partition. The processor lives any number of times, each
  -- life cut off after any turn, and storage, Kafka and the clock answer as they like. If a partition
  -- has no gap, all its messages decode, the processor never fails, and each life reads the partition
  -- from the committed position on, then, whatever comes from other partitions, in every life a batch
  -- is committed only straight after a write that returned no error, of the points of its messages; and
  -- the messages of the partition in the committed batches of all lives are, in order, exactly those
  -- before its committed position: none is left out, and none is committed twice.
  pub lives_cover :
      (ess : List (List Event)) (w : W)
      → Rereads unmarshal r p log ess 0 w
      → let (css, end, w') = lives unmarshal r p ess 0 w in
        All (IsWriteFirst (IsMade unmarshal r.proc)) css
        × (of_partition p (all_released css) ≡ take end log)
  lives_cover ess w reads = (write_first ess 0 w, released_on ess 0 w reads)
