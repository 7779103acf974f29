-- ===== src/Cmd/Startup.antt =====
-- The service that the collector starts with, in terms of the environment.
use api_observability_platfo.Base.{
  ℕ, ◌*◌, ◌≡◌, String, ℤ, pos, pos_part, le_zero, false, ◌||◌, str_eq, arith, if◌then◌else◌, [],
}
use api_observability_platfo.Domain.{eight_tenths}
use api_observability_platfo.Collector.Config.{drop_newest, normalize}
use api_observability_platfo.Collector.Service.{new_service}
use api_observability_platfo.Cmd.{getenv, backpressure_config, collector_service}

module _ (env : String → String) (atoi : String → ℤ) where
  -- The collector starts with an open, empty channel. If CHANNEL_CAP, or 10000 where it is not set,
  -- gives a positive number, that is the capacity, and the drop policy is DROP_POLICY, or drop_newest
  -- where that is not set; any other CHANNEL_CAP makes the capacity 10000 and the policy drop_newest
  -- whatever DROP_POLICY says. There are twice as many workers as processors in both cases.
  pub collector_service_lem :
      (num_cpu : ℕ)
      → let s = collector_service env atoi num_cpu in
        let n = atoi (if str_eq (env "CHANNEL_CAP") "" then "10000" else env "CHANNEL_CAP") in
        (s.ch ≡ record {
          items = [];
          capacity = if le_zero n then 10_000 else pos_part n;
          closed = false;
        })
        × (s.drop_policy ≡ (
            if le_zero n || str_eq (env "DROP_POLICY") "" then drop_newest else env "DROP_POLICY"))
        × (s.cfg.worker_count ≡ pos (num_cpu * 2))
        × (s.cfg.high_watermark ≡ eight_tenths)
  unfolding collector_service backpressure_config new_service normalize getenv
  collector_service_lem num_cpu = ground arith
