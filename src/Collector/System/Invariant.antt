-- ===== src/Collector/System/Invariant.antt =====
-- What holds of the collector under every interleaving.
use api_observability_platfo.Base.{
  ℕ, ◌+◌, ◌≤◌, ◌<◌, ◌≡◌, Bool, true, false, ◌&&◌, [], ◌++◌, str_eq, length,
}
use api_observability_platfo.Metrics.Total.{total}
use api_observability_platfo.Metrics.Collector.{Metric, ingest_total, published_total, drop_total}
use api_observability_platfo.Collector.Enqueue.{Producer, accepted}
use api_observability_platfo.Collector.System.{System, Worker, busy, exited}

abbrev pub one_if : Bool → ℕ
one_if true = 1
one_if false = 0

-- What an entry of the log counts for: an event accepted, one evicted, one that a worker finished.
abbrev pub as_accepted : Metric → ℕ
as_accepted (ingest_total s t) = 1
as_accepted _ = 0

abbrev pub as_evicted : Metric → ℕ
as_evicted (drop_total reason stage tenant) =
    one_if (str_eq stage "ingest" && (str_eq reason "channel_full" && str_eq tenant "unknown"))
as_evicted _ = 0

abbrev pub as_finished : Metric → ℕ
as_finished (published_total s t) = 1
as_finished (drop_total reason stage tenant) = one_if (str_eq stage "worker")
as_finished _ = 0

abbrev pub is_accepted : Producer → ℕ
is_accepted accepted = 1
is_accepted _ = 0

abbrev pub is_busy : Worker → ℕ
is_busy (busy j) = 1
is_busy _ = 0

abbrev pub is_exited : Worker → ℕ
is_exited exited = 1
is_exited _ = 0

module _ {W : Type 0} where
  -- The accounts of the collector.
  pub record Inv (s : System W) : Type 0 where
    -- the channel never holds more than its capacity
    pub bounded : length s.service.ch.items ≤ s.service.ch.capacity
    -- there is room for a job, and a worker
    pub room : 0 < s.service.ch.capacity
    pub staffed : 0 < length s.workers
    -- it is first in, first out
    pub fifo : s.entered ≡ s.left ++ s.service.ch.items
    -- every job that entered is counted as accepted, or its producer is about to count it
    pub counted : total as_accepted s.service.m + total is_accepted s.producers ≡ length s.entered
    -- every job that left was evicted, is with a worker, or was finished by one
    pub accounted :
        length s.left + s.phantoms
        ≡ total as_evicted s.service.m + total is_busy s.workers + total as_finished s.service.m
    -- a zero job is taken only from a closed channel
    pub open_exact : s.service.ch.closed ≡ false → s.phantoms ≡ 0
    -- a worker leaves its loop only when the channel is closed and drained
    pub exited_drained :
        0 < total is_exited s.workers → (s.service.ch.closed ≡ true) × (s.service.ch.items ≡ [])
