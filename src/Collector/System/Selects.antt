-- ===== src/Collector/System/Selects.antt =====
-- What one `select` of `enqueue` does to the channel, the counters and the history.
use api_observability_platfo.Base.{
  ◌+◌, ◌≤◌, ◌≡◌, true, false, [], ◌++◌, arith, append-nil, length, length-snoc,
}
use api_observability_platfo.Metrics.Total.{total}
use api_observability_platfo.Collector.Chan.{try_send, try_receive}
use api_observability_platfo.Collector.Service.{IngestJob, Service, send_or_refuse, evict_oldest}
use api_observability_platfo.Collector.Enqueue.{
  EnqueuePc, newest_send, oldest_send, oldest_evict, oldest_retry, enqueue_step, newly_entered,
  newly_left, newly_phantom, after_enqueue_step, taken_out, taken_phantom,
}
use api_observability_platfo.Collector.System.Invariant.{
  as_accepted, as_evicted, as_finished, is_accepted,
}

module _ (pc : EnqueuePc) (j : IngestJob) (s : Service) where
  pub record SelectLaw : Type 0 where
    pub order :
        s.ch.items ++ newly_entered (enqueue_step pc j s).0 j
        ≡ newly_left pc s ++ (enqueue_step pc j s).1.ch.items
    pub within :
        length s.ch.items ≤ s.ch.capacity
        → length (enqueue_step pc j s).1.ch.items ≤ (enqueue_step pc j s).1.ch.capacity
    pub same_capacity : (enqueue_step pc j s).1.ch.capacity ≡ s.ch.capacity
    pub same_closed : (enqueue_step pc j s).1.ch.closed ≡ s.ch.closed
    pub same_accepted : total as_accepted (enqueue_step pc j s).1.m ≡ total as_accepted s.m
    pub same_finished : total as_finished (enqueue_step pc j s).1.m ≡ total as_finished s.m
    pub more_evicted :
        total as_evicted (enqueue_step pc j s).1.m
        ≡ total as_evicted s.m + length (newly_left pc s) + newly_phantom pc s
    pub no_phantom : s.ch.closed ≡ false → newly_phantom pc s ≡ 0
    pub stays_drained : s.ch.closed ≡ true → s.ch.items ≡ [] → (enqueue_step pc j s).1.ch.items ≡ []
    pub accepted_once :
        is_accepted (after_enqueue_step (enqueue_step pc j s).0 j)
        ≡ length (newly_entered (enqueue_step pc j s).0 j)

pub select_law : (pc : EnqueuePc) (j : IngestJob) (s : Service) → SelectLaw pc j s
unfolding enqueue_step newly_entered newly_left newly_phantom after_enqueue_step taken_out
    taken_phantom send_or_refuse evict_oldest try_send try_receive
select_law newest_send j s = ground (arith, append-nil s.ch.items, length-snoc s.ch.items j)
select_law oldest_send j s = ground (arith, append-nil s.ch.items, length-snoc s.ch.items j)
select_law oldest_evict j s = ground (arith, append-nil s.ch.items, length-snoc s.ch.items j)
select_law oldest_retry j s = ground (arith, append-nil s.ch.items, length-snoc s.ch.items j)
