-- ===== src/Collector/Enqueue.antt =====
-- `enqueue` of internal/app/collector/service.go in steps: one for each of its `select`s, with the
-- counter of the branch that is taken, and what such a step adds to the history.
use api_observability_platfo.Base.{ℕ, none, some, List, [], ◌∷◌, if◌then◌else◌, str_eq}
use api_observability_platfo.Collector.Chan.{
  Sent, sent, would_block, send_panics, Received, received, drained, nothing_yet, try_send,
  try_receive,
}
use api_observability_platfo.Collector.Config.{DropPolicy, drop_oldest}
use api_observability_platfo.Collector.Service.{
  IngestJob, Service, Flow, returns, panics, send_or_refuse, evict_oldest,
}

-- Where a call of `enqueue` stands: before one of its `select`s.
pub data EnqueuePc : Type 0 where
  newest_send oldest_send oldest_evict oldest_retry : EnqueuePc

abbrev pub entry : DropPolicy → EnqueuePc
entry p = if str_eq p drop_oldest then oldest_send else newest_send

pub data Progress : Type 0 where
  goes_on : EnqueuePc → Progress
  leaves : Flow → Progress

abbrev leave : Flow × Service → Progress × Service
leave (f, s) = (leaves f, s)

first_send : Service → Sent IngestJob → Progress × Service
first_send s (sent c) = (leaves (returns none), record s { ch = c })
first_send s would_block = (goes_on oldest_evict, s)
first_send s send_panics = (leaves panics, s)

unfoldable pub enqueue_step : EnqueuePc → IngestJob → Service → Progress × Service
unfolding first_send
enqueue_step newest_send j s = leave (send_or_refuse j s)
enqueue_step oldest_send j s = first_send s (try_send j s.ch)
enqueue_step oldest_evict j s = (goes_on oldest_retry, evict_oldest s)
enqueue_step oldest_retry j s = leave (send_or_refuse j s)

-- A call of `Ingest`: in `enqueue`, or behind it with the counters still to write, or over.
pub data Producer : Type 0 where
  sending : EnqueuePc → IngestJob → Producer
  accepted : Producer
  refused : Producer
  done : Producer
  crashed : Producer

unfoldable pub after_enqueue_step : Progress → IngestJob → Producer
after_enqueue_step (goes_on pc) j = sending pc j
after_enqueue_step (leaves (returns none)) j = accepted
after_enqueue_step (leaves (returns (some e))) j = refused
after_enqueue_step (leaves panics) j = crashed

unfoldable pub newly_entered : Progress → IngestJob → List IngestJob
newly_entered (leaves (returns none)) j = j ∷ []
newly_entered _ j = []

unfoldable pub taken_out : Received IngestJob → List IngestJob
taken_out (received a c) = a ∷ []
taken_out drained = []
taken_out nothing_yet = []

unfoldable pub taken_phantom : Received IngestJob → ℕ
taken_phantom drained = 1
taken_phantom (received a c) = 0
taken_phantom nothing_yet = 0

unfoldable pub newly_left : EnqueuePc → Service → List IngestJob
newly_left oldest_evict s = taken_out (try_receive s.ch)
newly_left _ s = []

unfoldable pub newly_phantom : EnqueuePc → Service → ℕ
newly_phantom oldest_evict s = taken_phantom (try_receive s.ch)
newly_phantom _ s = 0
