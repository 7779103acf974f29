-- ===== src/Tests/Ingest.antt =====
-- The collector's configuration, pool and `Ingest` at small inputs.
use api_observability_platfo.Base.{
  ℕ, suc, ◌≡◌, refl, true, none, some, List, [], ◌∷◌, ◌++◌, pos, arith, map,
}
use api_observability_platfo.Domain.{utc, eight_tenths, foreign}
use api_observability_platfo.Collector.Chan.{try_send, try_receive}
use api_observability_platfo.Collector.Config.{
  BackpressureConfig, drop_oldest, drop_newest, normalize,
}
use api_observability_platfo.Collector.Config.Defaults.{
  IsUsable, normalize-IsUsable, normalize-keeps, normalize-discards,
}
use api_observability_platfo.Collector.Pool.{Pool, Reader, copy_payload, read_body_into_pool}
use api_observability_platfo.Collector.Pool.Isolation.{
  IsCleanPool, expected_read, copy_payload_lem, read_body_into_pool_lem,
}
use api_observability_platfo.Collector.Service.{
  Service, Request, IngestTimes, new_service, ingest, ingest_batch, enqueue, ingest_with_source,
  observe_depth, send_or_refuse, evict_oldest,
}
use api_observability_platfo.Collector.Service.Offer.{job_of, seen, expected_ingest, ingest-offer}
use api_observability_platfo.Collector.Service.Window.{
  IsReady, HasBody, kept, outcome, ingest_each, ingest_each-kept,
}
use api_observability_platfo.Collector.Service.Batch.{ingest_batch-kept}
use api_observability_platfo.Http.{handle_ingest}
use api_observability_platfo.Http.Status.{ingest_status}

abbrev two_slots : BackpressureConfig
two_slots = record {
  channel_capacity = pos 2;
  worker_count = pos 1;
  drop_policy = drop_oldest;
  high_watermark = eight_tenths;
}

-- CHANNEL_CAP=0 with DROP_POLICY=drop_oldest.
abbrev no_capacity : BackpressureConfig
no_capacity = record two_slots { channel_capacity = pos 0 }

normalized-IsUsable : IsUsable (normalize 4 no_capacity)
normalized-IsUsable = normalize-IsUsable 4 no_capacity (omega arith)

two_slots-IsUsable : IsUsable two_slots
two_slots-IsUsable = record { room = refl; workers = refl; policy = refl; watermark = refl }

usable_kept : normalize 4 two_slots ≡ two_slots
usable_kept = normalize-keeps 4 two_slots two_slots-IsUsable

capacity_discards : normalize 4 no_capacity ≡ record {
  channel_capacity = pos 10_000;
  worker_count = pos 8;
  drop_policy = drop_newest;
  high_watermark = eight_tenths;
}
capacity_discards = normalize-discards 4 no_capacity refl

exactly : ℕ → ℕ → ℕ
exactly old needed = needed

-- One clean buffer of 512 bytes.
abbrev one_buffer : Pool
one_buffer = record { content = []; capacity = 512 } ∷ []

one_buffer-IsCleanPool : IsCleanPool one_buffer
one_buffer-IsCleanPool = (record { no_content = refl; capped = omega arith }, tt)

abbrev body : List ℕ
body = 123 ∷ 125 ∷ []

copied_bytes :
    ((copy_payload exactly 0 body one_buffer).0 ≡ body)
    × IsCleanPool (copy_payload exactly 0 body one_buffer).1
copied_bytes = copy_payload_lem exactly 0 body one_buffer one_buffer-IsCleanPool

abbrev broken : Reader
broken = record { chunks = body ∷ []; failure = some (foreign "reset") }

read_body_into_pool_example :
    ((read_body_into_pool exactly 0 broken one_buffer).0 ≡ expected_read broken)
    × IsCleanPool (read_body_into_pool exactly 0 broken one_buffer).1
read_body_into_pool_example =
    read_body_into_pool_lem exactly 0 broken one_buffer one_buffer-IsCleanPool

abbrev at : ℕ → IngestTimes
at n = record {
  start = record { instant = pos n; zone = utc };
  now = record { instant = pos (suc n); zone = utc };
}

abbrev post : ℕ → Request
post n = record { pick = 0; times = at n; raw = n ∷ [] }

abbrev fresh : Service
fresh = new_service 4 two_slots

fresh-IsReady : IsReady true fresh
unfolding new_service normalize
fresh-IsReady = record { alive = refl; room = omega arith; bounded = omega arith; policy = refl }

three_posts : List Request
three_posts = post 1 ∷ post 2 ∷ post 3 ∷ []

has_body : (n : ℕ) → HasBody (post n)
has_body n e = cc

ingest-offer_example :
    (seen (ingest exactly (post 1) fresh) ≡ expected_ingest (post 1) fresh.drop_policy fresh.ch)
    × ((ingest exactly (post 1) fresh).1.drop_policy ≡ fresh.drop_policy)
ingest-offer_example = ingest-offer exactly (post 1) fresh fresh-IsReady.room fresh-IsReady.bounded

-- The oldest of three jobs has gone.
newest_two :
    (ingest_each exactly three_posts fresh).ch.items ≡ job_of (post 2) ∷ job_of (post 3) ∷ []
unfolding ingest_each ingest three_posts new_service normalize exactly ingest_with_source enqueue
    try_send observe_depth send_or_refuse evict_oldest try_receive copy_payload
newest_two = refl

ingest_each-kept_example : (ingest_each exactly three_posts fresh).ch ≡ record fresh.ch {
  items = kept true fresh.ch.capacity (fresh.ch.items ++ map job_of three_posts);
}
unfolding three_posts
ingest_each-kept_example =
    ingest_each-kept exactly true three_posts fresh fresh-IsReady
      (has_body 1, (has_body 2, (has_body 3, tt)))

ingest_batch-kept_example :
    ((ingest_batch exactly three_posts fresh).0 ≡ outcome true)
    × ((ingest_batch exactly three_posts fresh).1.ch ≡ record fresh.ch {
      items = kept true fresh.ch.capacity (fresh.ch.items ++ map job_of three_posts);
    })
unfolding three_posts
ingest_batch-kept_example =
    ingest_batch-kept exactly true three_posts fresh fresh-IsReady
      (has_body 1, (has_body 2, (has_body 3, tt)))

answered :
    ((handle_ingest exactly none (post 1) fresh).0 ≡ some 202)
    × ((handle_ingest exactly none (post 1) fresh).1.ch.items
        ≡ kept true fresh.ch.capacity (fresh.ch.items ++ job_of (post 1) ∷ []))
answered = ingest_status exactly true (post 1) fresh fresh-IsReady (has_body 1)
