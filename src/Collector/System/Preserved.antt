-- ===== src/Collector/System/Preserved.antt =====
-- Every move keeps the accounts.
use api_observability_platfo.Base.{
  ℤ, gt_zero, length-replicate, length-set, ℕ, ◌<◌, ◌≡◌, refl, sym, ap, ◌∙◌, Bool, true, Option,
  none, some, List, [], ◌∷◌, ◌++◌, arith, append_assoc, length-append, length-snoc, get_elem?,
  pos_part,
}
use mathlib.Core.Path.{subst}
use api_observability_platfo.Metrics.Total.{total-set, total-replicate_zero}
use api_observability_platfo.Collector.Chan.{try_receive, receive}
use api_observability_platfo.Collector.Config.{BackpressureConfig, normalize}
use api_observability_platfo.Collector.Config.Defaults.{normalize-IsUsable}
use api_observability_platfo.Collector.Service.{
  IngestJob, IngestTimes, new_service, record_accepted, observe_depth,
}
use api_observability_platfo.Collector.Enqueue.{
  EnqueuePc, Producer, sending, accepted, refused, done, enqueue_step, newly_entered, newly_left,
  after_enqueue_step,
}
use api_observability_platfo.Collector.System.{
  System, Worker, idle, busy, exited, start, fire_advance, fire_conclude, fire_take, fire_receive,
  fire_shut,
}
use api_observability_platfo.Collector.System.Invariant.{Inv, is_accepted, is_busy, is_exited}
use api_observability_platfo.Collector.System.Selects.{select_law}

-- Of what a move leads to, if it is possible.
abbrev pub Leads : {W : Type 0} → (System W → Type 0) → Option (System W) → Type 0
Leads P none = Unit
Leads P (some t) = P t

pub leads_to :
    {W : Type 0} (P : System W → Type 0) {o : Option (System W)} {t : System W}
    → Leads P o
    → o ≡ some t
    → P t
leads_to P h e = subst (Leads P) e h

gt_zero→lt : (z : ℤ) → gt_zero z ≡ true → 0 < pos_part z
gt_zero→lt z h = ground arith

module _ {W : Type 0} where
  pub start-Inv :
      (num_cpu : ℕ) (c : BackpressureConfig) (w : W) → 0 < num_cpu → Inv (start num_cpu c w)
  unfolding start new_service
  start-Inv n c w h =
      let workers = pos_part (normalize n c).worker_count in
      let usable = normalize-IsUsable n c h in
      record {
        room = gt_zero→lt (normalize n c).channel_capacity usable.room;
        staffed = omega (
          arith,
          gt_zero→lt (normalize n c).worker_count usable.workers,
          length-replicate workers idle,
        );
        bounded = omega arith;
        fifo = refl;
        counted = refl;
        accounted = omega (arith, total-replicate_zero is_busy workers idle refl);
        open_exact = λ o. refl;
        exited_drained =
            λ x. absurd (omega (arith, x, total-replicate_zero is_exited workers idle refl));
      }

  advance-Inv :
      (i : ℕ) (pc : EnqueuePc) (j : IngestJob) (s : System W)
      → get_elem? s.producers i ≡ some (sending pc j)
      → Inv s
      → Leads Inv (fire_advance i (some (sending pc j)) s)
  unfolding fire_advance
  advance-Inv i pc j s e inv =
      let law = select_law pc j s.service in
      let next = enqueue_step pc j s.service in
      record {
        bounded = law.within inv.bounded;
        room = omega (arith, law.same_capacity, inv.room);
        staffed = inv.staffed;
        fifo =
            ap (λ q. q ++ newly_entered next.0 j) inv.fifo
            ∙ append_assoc s.left s.service.ch.items (newly_entered next.0 j)
            ∙ ap (λ q. s.left ++ q) law.order
            ∙ sym (append_assoc s.left (newly_left pc s.service) next.1.ch.items);
        counted = omega (
          arith,
          inv.counted,
          law.same_accepted,
          law.accepted_once,
          total-set is_accepted s.producers i (after_enqueue_step next.0 j) (sending pc j) e,
          length-append s.entered (newly_entered next.0 j),
        );
        accounted = omega (
          arith,
          inv.accounted,
          law.same_finished,
          law.more_evicted,
          length-append s.left (newly_left pc s.service),
        );
        open_exact = λ o.
            let alive = sym law.same_closed ∙ o in
            omega (arith, inv.open_exact alive, law.no_phantom alive);
        exited_drained = λ x.
            let (closed, drained) = inv.exited_drained x in
            (law.same_closed ∙ closed, law.stays_drained closed drained);
      }

  -- Counters that count for nothing here leave the sums alone.
  conclude-Inv :
      (t : IngestTimes) (i : ℕ) (p : Producer) (s : System W)
      → get_elem? s.producers i ≡ some p
      → Inv s
      → Leads Inv (fire_conclude t i (some p) s)
  unfolding fire_conclude record_accepted observe_depth
  conclude-Inv t i accepted s e inv =
      ground (arith, inv, total-set is_accepted s.producers i done accepted e)
  conclude-Inv t i refused s e inv =
      ground (arith, inv, total-set is_accepted s.producers i done refused e)
  conclude-Inv t i _ s e inv = tt

  receive-Inv :
      (i : ℕ) (items : List IngestJob) (s : System W)
      → get_elem? s.workers i ≡ some idle
      → s.service.ch.items ≡ items
      → Inv s
      → Leads Inv (fire_receive i (receive items s.service.ch) s)
  unfolding fire_receive
  receive-Inv i [] s e empty inv = ground (
    arith,
    inv,
    total-set is_busy s.workers i exited idle e,
    total-set is_exited s.workers i exited idle e,
    length-set s.workers i exited,
  )
  receive-Inv i (j ∷ rest) s e split inv = ground (
    arith,
    inv,
    total-set is_busy s.workers i (busy j) idle e,
    total-set is_exited s.workers i (busy j) idle e,
    length-set s.workers i (busy j),
    append_assoc s.left (j ∷ []) rest,
    length-snoc s.left j,
  )

  take-Inv :
      (i : ℕ) (w : Worker) (s : System W)
      → get_elem? s.workers i ≡ some w
      → Inv s
      → Leads Inv (fire_take i (some w) s)
  unfolding fire_take try_receive
  take-Inv i idle s e inv = receive-Inv i s.service.ch.items s e refl inv
  take-Inv i _ s e inv = tt

  pub shut-Inv : (ctx_done : Bool) (s : System W) → Inv s → Leads Inv (fire_shut ctx_done s)
  unfolding fire_shut
  shut-Inv ctx_done s inv = ground (arith, inv)

  -- The same whatever stands at the index.
  pub advance_any :
      (i : ℕ) (o : Option Producer) (s : System W)
      → get_elem? s.producers i ≡ o
      → Inv s
      → Leads Inv (fire_advance i o s)
  unfolding fire_advance
  advance_any i (some (sending pc j)) s e inv = advance-Inv i pc j s e inv
  advance_any i _ s e inv = tt

  pub conclude_any :
      (t : IngestTimes) (i : ℕ) (o : Option Producer) (s : System W)
      → get_elem? s.producers i ≡ o
      → Inv s
      → Leads Inv (fire_conclude t i o s)
  unfolding fire_conclude
  conclude_any t i none s e inv = tt
  conclude_any t i (some p) s e inv = conclude-Inv t i p s e inv

  pub take_any :
      (i : ℕ) (o : Option Worker) (s : System W)
      → get_elem? s.workers i ≡ o
      → Inv s
      → Leads Inv (fire_take i o s)
  unfolding fire_take
  take_any i none s e inv = tt
  take_any i (some w) s e inv = take-Inv i w s e inv
