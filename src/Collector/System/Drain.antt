-- ===== src/Collector/System/Drain.antt =====
-- `Shutdown` ends: behind the `close` the workers have only so many moves, and stop only when all
-- of them have left their loops.
use api_observability_platfo.Base.{
  ℕ, zero, suc, ◌+◌, ◌*◌, ◌≤◌, ◌<◌, ◌≡◌, refl, true, ◌⊎◌, inl, inr, Option, none, some, List, [],
  ◌∷◌, arith, length, get_elem?, set, Option-cases, All,
}
use native.Mathlib.Decide.{dec_lt}
use api_observability_platfo.Contract.{Parser, Publisher}
use api_observability_platfo.Metrics.Total.{total, total-set}
use api_observability_platfo.Collector.Chan.{try_receive, receive}
use api_observability_platfo.Collector.Service.{IngestJob}
use api_observability_platfo.Collector.Worker.{HandleTimes}
use api_observability_platfo.Collector.System.{
  System, Worker, idle, busy, exited, Move, arrive, advance, conclude, take_job, handle, shut, fire,
  fire_take, fire_receive, fire_handle, run,
}
use api_observability_platfo.Collector.System.Invariant.{is_exited}
use api_observability_platfo.Collector.System.Preserved.{Leads, leads_to}

abbrev pub IsWorkerMove : Move → Type 0
IsWorkerMove (take_job i) = Unit
IsWorkerMove (handle t i) = Unit
IsWorkerMove _ = ⊥

abbrev pub weight : Worker → ℕ
weight idle = 1
weight (busy j) = 2
weight exited = 0

module _ {W : Type 0} where
  -- How many moves the workers have left at most.
  abbrev pub moves_left : System W → ℕ
  moves_left s = 3 * length s.service.ch.items + total weight s.workers

  record Shrinks (s t : System W) : Type 0 where
    fewer : moves_left t < moves_left s
    closed : t.service.ch.closed ≡ true

  receive-Shrinks :
      (i : ℕ) (items : List IngestJob) (s : System W)
      → get_elem? s.workers i ≡ some idle
      → s.service.ch.items ≡ items
      → s.service.ch.closed ≡ true
      → Leads (Shrinks s) (fire_receive i (receive items s.service.ch) s)
  unfolding fire_receive
  receive-Shrinks i [] s e empty closed = ground (arith, total-set weight s.workers i exited idle e)
  receive-Shrinks i (j ∷ rest) s e split closed =
      ground (arith, total-set weight s.workers i (busy j) idle e)

  take-Shrinks :
      (i : ℕ) (o : Option Worker) (s : System W)
      → get_elem? s.workers i ≡ o
      → s.service.ch.closed ≡ true
      → Leads (Shrinks s) (fire_take i o s)
  unfolding fire_take try_receive
  take-Shrinks i (some idle) s e closed = receive-Shrinks i s.service.ch.items s e refl closed
  take-Shrinks i _ s e closed = tt

  receive_fires :
      (i : ℕ) (items : List IngestJob) (s : System W)
      → s.service.ch.closed ≡ true
      → (t : System W) × (fire_receive i (receive items s.service.ch) s ≡ some t)
  unfolding fire_receive
  receive_fires i [] s closed = (record s { workers = set s.workers i exited }, ground arith)
  receive_fires i (j ∷ rest) s closed = (_, refl)

  take_fires :
      (i : ℕ) (o : Option Worker) (s : System W)
      → o ≡ some idle
      → s.service.ch.closed ≡ true
      → (t : System W) × (fire_take i o s ≡ some t)
  unfolding fire_take try_receive
  take_fires i (some idle) s e closed = receive_fires i s.service.ch.items s closed
  take_fires i none s e closed = cc
  take_fires i _ s e closed = cc

exited_le : (ws : List Worker) → total is_exited ws ≤ length ws
exited_le [] = omega arith
exited_le (idle ∷ ws) = omega (arith, exited_le ws)
exited_le (busy j ∷ ws) = omega (arith, exited_le ws)
exited_le (exited ∷ ws) = omega (arith, exited_le ws)

none≢some {ℓ} : {A : Type ℓ} {a : A} → none ≡ some a → ⊥
none≢some e = cc

-- A worker that has not left, where there is one.
find_active :
    (ws : List Worker)
    → total is_exited ws < length ws
    → (i : ℕ) × ((get_elem? ws i ≡ some idle)
        ⊎ ((j : IngestJob) × (get_elem? ws i ≡ some (busy j))))
find_active [] h = absurd (omega arith)
find_active (idle ∷ ws) h = (0, inl refl)
find_active (busy j ∷ ws) h = (0, inr (j, refl))
find_active (exited ∷ ws) h = let (i, found) = find_active ws (omega arith) in (suc i, found)

module _ {W : Type 0} (grow : ℕ → ℕ → ℕ) (parser : Parser) (publisher : Publisher W) where
  handle-Shrinks :
      (t : HandleTimes) (i : ℕ) (o : Option Worker) (s : System W)
      → get_elem? s.workers i ≡ o
      → s.service.ch.closed ≡ true
      → Leads (Shrinks s) (fire_handle grow parser publisher t i o s)
  unfolding fire_handle
  handle-Shrinks t i (some (busy j)) s e closed = record {
    fewer = omega (arith, total-set weight s.workers i idle (busy j) e);
    closed = closed;
  }
  handle-Shrinks t i _ s e closed = tt

  -- A run of the workers alone that ends with all of them out of their loops.
  abbrev Drains : System W → Type 0
  Drains s =
      (mvs : List Move) × All IsWorkerMove mvs
      × (t : System W) × (run grow parser publisher mvs s ≡ some t)
      × (total is_exited t.workers ≡ length t.workers)

  handle_fires :
      (t : HandleTimes) (i : ℕ) (o : Option Worker) (j : IngestJob) (s : System W)
      → o ≡ some (busy j)
      → (u : System W) × (fire_handle grow parser publisher t i o s ≡ some u)
  unfolding fire_handle
  handle_fires t i (some (busy k)) j s e = (_, refl)
  handle_fires t i none j s e = cc
  handle_fires t i _ j s e = cc

  fire-Shrinks :
      (mv : Move) (s : System W)
      → IsWorkerMove mv
      → s.service.ch.closed ≡ true
      → Leads (Shrinks s) (fire grow parser publisher mv s)
  unfolding fire
  fire-Shrinks (take_job i) s _ closed = take-Shrinks i (get_elem? s.workers i) s refl closed
  fire-Shrinks (handle t i) s _ closed = handle-Shrinks t i (get_elem? s.workers i) s refl closed
  fire-Shrinks (arrive r) s h closed = elim h [ ]
  fire-Shrinks (advance i) s h closed = elim h [ ]
  fire-Shrinks (conclude t i) s h closed = elim h [ ]
  fire-Shrinks (shut b) s h closed = elim h [ ]

  -- Once the channel is closed, no run of the workers is longer than three moves for each queued
  -- job, two for each busy worker and one for each idle one.
  pub worker_moves_bounded :
      (mvs : List Move) (s t : System W)
      → s.service.ch.closed ≡ true
      → All IsWorkerMove mvs
      → run grow parser publisher mvs s ≡ some t
      → length mvs ≤ moves_left s
  unfolding run
  worker_moves_bounded [] s t closed own ran = omega arith
  worker_moves_bounded (mv ∷ mvs) s t closed own ran =
      elim (Option-cases (fire grow parser publisher mv s)) [
        | inl e ↦ let over = rw (e, run) at ran in absurd (none≢some over)
        | inr (u, e) ↦
            let less = leads_to (Shrinks s) (fire-Shrinks mv s own.0 closed) e in
            let rest = rw (e, run) at ran in
            omega (arith, less.fewer, worker_moves_bounded mvs u t less.closed own.1 rest)
      ]

  -- And as long as a worker has not left, some worker can move: it takes a job, leaves its loop, or
  -- does its job.
  pub workers_never_stuck :
      (h : HandleTimes) (s : System W)
      → s.service.ch.closed ≡ true
      → total is_exited s.workers < length s.workers
      → (mv : Move) × IsWorkerMove mv × (t : System W) × (fire grow parser publisher mv s ≡ some t)
  unfolding fire
  workers_never_stuck h s closed some_left =
      let (i, found) = find_active s.workers some_left in
      elim found [
        | inl e ↦
            let (t, fired) = take_fires i (get_elem? s.workers i) s e closed in
            (take_job i, tt, t, fired)
        | inr (j, e) ↦
            let (t, fired) = handle_fires h i (get_elem? s.workers i) j s e in
            (handle h i, tt, t, fired)
      ]

  drain_within :
      (n : ℕ) (h : HandleTimes) (s : System W)
      → moves_left s ≤ n
      → s.service.ch.closed ≡ true
      → Drains s
  unfolding run
  drain_within zero h s bound closed =
      elim (dec_lt (total is_exited s.workers) (length s.workers)) [
        | yes some_left ↦
            let (mv, own, u, fired) = workers_never_stuck h s closed some_left in
            let less = leads_to (Shrinks s) (fire-Shrinks mv s own closed) fired in
            absurd (omega (arith, less.fewer, bound))
        | no all_left ↦ ([], tt, s, refl, omega (arith, exited_le s.workers))
      ]
  drain_within (suc n) h s bound closed =
      elim (dec_lt (total is_exited s.workers) (length s.workers)) [
        | yes some_left ↦
            let (mv, own, u, fired) = workers_never_stuck h s closed some_left in
            let less = leads_to (Shrinks s) (fire-Shrinks mv s own closed) fired in
            let (mvs, owns, t, ran, over) =
              drain_within n h u (omega (arith, less.fewer, bound)) less.closed in
            (mv ∷ mvs, (own, owns), t, rw (fired, run) ran, over)
        | no all_left ↦ ([], tt, s, refl, omega (arith, exited_le s.workers))
      ]

  -- So `wg.Wait` can return: from any state with a closed channel the workers alone have a run that
  -- ends with all of them out of their loops.
  pub shutdown_ends :
      (h : HandleTimes) (s : System W)
      → s.service.ch.closed ≡ true
      → (mvs : List Move) × All IsWorkerMove mvs
        × (t : System W) × (run grow parser publisher mvs s ≡ some t)
        × (total is_exited t.workers ≡ length t.workers)
  shutdown_ends h s closed = drain_within (moves_left s) h s (omega arith) closed
