-- ===== src/Collector/System/Calls.antt =====
-- Which moves let a call of `Ingest` panic, and which leave the calls alone.
use api_observability_platfo.Base.{ℕ, ◌≡◌, sym, ◌∙◌, Bool, false, Option, some, arith, get_elem?}
use api_observability_platfo.Metrics.Total.{total, total-set}
use api_observability_platfo.Collector.Chan.{try_send, try_receive}
use api_observability_platfo.Collector.Service.{
  IngestJob, IngestTimes, Service, send_or_refuse, record_accepted, observe_depth,
}
use api_observability_platfo.Collector.Enqueue.{
  EnqueuePc, newest_send, oldest_send, oldest_evict, oldest_retry, Producer, sending, accepted,
  refused, done, crashed, enqueue_step, after_enqueue_step,
}
use api_observability_platfo.Collector.System.{
  System, Worker, Move, arrive, fire_advance, fire_conclude, fire_take, fire_receive, fire_shut,
}
use api_observability_platfo.Collector.System.Selects.{select_law}
use api_observability_platfo.Collector.System.Preserved.{Leads}

abbrev pub is_crashed : Producer → ℕ
is_crashed crashed = 1
is_crashed _ = 0

abbrev pub IsNoArrival : Move → Type 0
IsNoArrival (arrive r) = ⊥
IsNoArrival _ = Unit

select_survives :
    (pc : EnqueuePc) (j : IngestJob) (s : Service)
    → s.ch.closed ≡ false
    → is_crashed (after_enqueue_step (enqueue_step pc j s).0 j) ≡ 0
unfolding enqueue_step after_enqueue_step send_or_refuse try_send
select_survives newest_send j s h = ground arith
select_survives oldest_send j s h = ground arith
select_survives oldest_evict j s h = ground arith
select_survives oldest_retry j s h = ground arith

module _ {W : Type 0} where
  -- No call has panicked if the channel is open.
  pub record IsCalm (s : System W) : Type 0 where
    pub calm : s.service.ch.closed ≡ false → total is_crashed s.producers ≡ 0

  -- What a worker or `Shutdown` does to the calls: nothing, and it opens no channel.
  pub record Spares (s t : System W) : Type 0 where
    pub same : t.producers ≡ s.producers
    pub stays : t.service.ch.closed ≡ false → s.service.ch.closed ≡ false
    pub same_phantoms : t.phantoms ≡ s.phantoms

  pub spared-IsCalm : (s t : System W) → IsCalm s → Spares s t → IsCalm t
  spared-IsCalm s t h k = record { calm = λ o. rw k.same (h.calm (k.stays o)) }

  pub take-Spares : (i : ℕ) (o : Option Worker) (s : System W) → Leads (Spares s) (fire_take i o s)
  unfolding fire_take fire_receive try_receive
  take-Spares i o s = ground arith

  pub shut-Spares : (b : Bool) (s : System W) → Leads (Spares s) (fire_shut b s)
  unfolding fire_shut
  shut-Spares b s = ground arith

  advance-IsCalm :
      (i : ℕ) (pc : EnqueuePc) (j : IngestJob) (s : System W)
      → get_elem? s.producers i ≡ some (sending pc j)
      → IsCalm s
      → Leads IsCalm (fire_advance i (some (sending pc j)) s)
  unfolding fire_advance
  advance-IsCalm i pc j s e h = record {
    calm = λ o.
        let alive = sym (select_law pc j s.service).same_closed ∙ o in
        let next = after_enqueue_step (enqueue_step pc j s.service).0 j in
        omega (
          arith,
          h.calm alive,
          select_survives pc j s.service alive,
          total-set is_crashed s.producers i next (sending pc j) e,
        );
  }

  pub advance_any-IsCalm :
      (i : ℕ) (o : Option Producer) (s : System W)
      → get_elem? s.producers i ≡ o
      → IsCalm s
      → Leads IsCalm (fire_advance i o s)
  unfolding fire_advance
  advance_any-IsCalm i (some (sending pc j)) s e h = advance-IsCalm i pc j s e h
  advance_any-IsCalm i _ s e h = tt

  pub conclude-IsCalm :
      (t : IngestTimes) (i : ℕ) (o : Option Producer) (s : System W)
      → get_elem? s.producers i ≡ o
      → IsCalm s
      → Leads IsCalm (fire_conclude t i o s)
  unfolding fire_conclude record_accepted observe_depth
  conclude-IsCalm t i (some accepted) s e h =
      ground (arith, h, total-set is_crashed s.producers i done accepted e)
  conclude-IsCalm t i (some refused) s e h =
      ground (arith, h, total-set is_crashed s.producers i done refused e)
  conclude-IsCalm t i _ s e h = tt
