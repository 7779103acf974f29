-- ===== src/Collector/Config/Defaults.antt =====
-- What `NewService` makes of a configuration.
use api_observability_platfo.Base.{
  ℕ, ◌*◌, ◌<◌, ◌≡◌, refl, inl, inr, true, false, pos, gt_zero, le_zero, str_eq, arith, Bool-cases,
  if◌then◌else◌,
}
use api_observability_platfo.Domain.{float_le_zero, eight_tenths}
use api_observability_platfo.Collector.Config.{
  BackpressureConfig, drop_newest, default_backpressure, fill_workers, fill_watermark, fill_policy,
  normalize,
}

-- The settings under which the service can run.
pub record IsUsable (c : BackpressureConfig) : Type 0 where
  pub room : gt_zero c.channel_capacity ≡ true
  pub workers : gt_zero c.worker_count ≡ true
  pub policy : str_eq c.drop_policy "" ≡ false
  pub watermark : float_le_zero c.high_watermark ≡ false

-- Each step mends one field and keeps the others.
fill_policy_lem :
    (c : BackpressureConfig)
    → (str_eq (fill_policy c).drop_policy "" ≡ false)
      × ((fill_policy c).channel_capacity ≡ c.channel_capacity)
      × ((fill_policy c).worker_count ≡ c.worker_count)
      × ((fill_policy c).high_watermark ≡ c.high_watermark)
unfolding fill_policy
fill_policy_lem c = elim (Bool-cases (str_eq c.drop_policy "")) [
  | inl e ↦ rw (e, fill_policy) (refl, refl, refl, refl)
  | inr e ↦ rw (e, fill_policy) (e, refl, refl, refl)
]

fill_watermark_lem :
    (c : BackpressureConfig)
    → (float_le_zero (fill_watermark c).high_watermark ≡ false)
      × ((fill_watermark c).channel_capacity ≡ c.channel_capacity)
      × ((fill_watermark c).worker_count ≡ c.worker_count)
unfolding fill_watermark
fill_watermark_lem c = elim (Bool-cases (float_le_zero c.high_watermark)) [
  | inl e ↦ rw (e, fill_watermark) (refl, refl, refl)
  | inr e ↦ rw (e, fill_watermark) (e, refl, refl)
]

fill_workers_lem :
    (n : ℕ) (c : BackpressureConfig)
    → 0 < n
    → (gt_zero (fill_workers n c).worker_count ≡ true)
      × ((fill_workers n c).channel_capacity ≡ c.channel_capacity)
unfolding fill_workers
fill_workers_lem n c h = ground arith

chosen_capacity :
    (c : BackpressureConfig)
    → gt_zero (if le_zero c.channel_capacity then default_backpressure else c).channel_capacity
      ≡ true
unfolding default_backpressure
chosen_capacity c = ground arith

-- Whatever the configuration is, on a machine with at least one processor the service runs with a
-- positive capacity, a positive number of workers, a named policy and a watermark that is not at
-- or below zero.
pub normalize-IsUsable :
    (num_cpu : ℕ) (c : BackpressureConfig) → 0 < num_cpu → IsUsable (normalize num_cpu c)
unfolding normalize
normalize-IsUsable n c h =
    let base : BackpressureConfig =
      if le_zero c.channel_capacity then default_backpressure else c in
    let w = fill_workers n base in
    let (positive, roomy) = fill_workers_lem n base h in
    let (warm, room₂, workers₂) = fill_watermark_lem w in
    let (named, room₃, workers₃, warm₃) = fill_policy_lem (fill_watermark w) in
    record {
      room = rw (room₃, room₂, roomy) (chosen_capacity c);
      workers = rw (workers₃, workers₂) positive;
      policy = named;
      watermark = rw warm₃ warm;
    }

-- A configuration that is usable already is kept as it is, every field of it.
pub normalize-keeps : (num_cpu : ℕ) (c : BackpressureConfig) → IsUsable c → normalize num_cpu c ≡ c
unfolding normalize
normalize-keeps n c h = ground arith

-- With a capacity at or below zero every other setting is discarded too, the drop policy, the
-- worker count and the watermark included: the service runs with the defaults.
pub normalize-discards :
    (num_cpu : ℕ) (c : BackpressureConfig)
    → le_zero c.channel_capacity ≡ true
    → normalize num_cpu c ≡ record {
      channel_capacity = pos 10_000;
      worker_count = pos (num_cpu * 2);
      drop_policy = drop_newest;
      high_watermark = eight_tenths;
    }
unfolding normalize
normalize-discards n c h = ground arith
