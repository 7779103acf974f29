-- ===== src/Collector/Config.antt =====
-- internal/app/collector/config.go, and the part of `NewService` that fills in the configuration.
pub mod Defaults
use api_observability_platfo.Base.{ℕ, ◌*◌, String, ℤ, pos, le_zero, gt_zero, if◌then◌else◌, str_eq}
use api_observability_platfo.Domain.{Float64, float_le_zero, eight_tenths}

-- A Go string with two named values; any other text is a value too.
abbrev pub DropPolicy : Type 0
DropPolicy = String

abbrev pub drop_newest : DropPolicy
drop_newest = "drop_newest"

abbrev pub drop_oldest : DropPolicy
drop_oldest = "drop_oldest"

pub record BackpressureConfig : Type 0 where
  pub channel_capacity : ℤ
  pub worker_count : ℤ
  pub drop_policy : DropPolicy
  pub high_watermark : Float64

unfoldable pub default_backpressure : BackpressureConfig
default_backpressure = record {
  channel_capacity = pos 10_000;
  worker_count = pos 0;
  drop_policy = drop_newest;
  high_watermark = eight_tenths;
}

unfoldable pub effective_workers : BackpressureConfig → ℤ
effective_workers c = if gt_zero c.worker_count then c.worker_count else pos 0

fill_workers : ℕ → BackpressureConfig → BackpressureConfig
fill_workers num_cpu c =
    let workers = effective_workers c in
    record c { worker_count = if le_zero workers then pos (num_cpu * 2) else workers }

fill_watermark : BackpressureConfig → BackpressureConfig
fill_watermark c =
    if float_le_zero c.high_watermark then record c { high_watermark = eight_tenths } else c

fill_policy : BackpressureConfig → BackpressureConfig
fill_policy c = if str_eq c.drop_policy "" then record c { drop_policy = drop_newest } else c

-- The configuration that the service runs with; `num_cpu` is `runtime.NumCPU()`.
unfoldable pub normalize : ℕ → BackpressureConfig → BackpressureConfig
unfolding default_backpressure effective_workers fill_workers fill_watermark fill_policy
normalize num_cpu c = fill_policy (
    fill_watermark
      (fill_workers num_cpu (if le_zero c.channel_capacity then default_backpressure else c)))
