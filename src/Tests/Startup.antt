-- ===== src/Tests/Startup.antt =====
-- The collector with a CHANNEL_CAP that is not a number, beside DROP_POLICY=drop_oldest.
use api_observability_platfo.Base.{
  ◌*◌, ◌≡◌, refl, String, ℤ, pos, pos_part, le_zero, false, ◌||◌, if◌then◌else◌, str_eq, [],
}
use api_observability_platfo.Domain.{eight_tenths}
use api_observability_platfo.Collector.Config.{drop_newest, normalize}
use api_observability_platfo.Collector.Service.{new_service}
use api_observability_platfo.Cmd.{getenv, backpressure_config, collector_service}
use api_observability_platfo.Cmd.Startup.{collector_service_lem}

mistyped : String → String
mistyped k =
    if str_eq k "CHANNEL_CAP" then "10k" else if str_eq k "DROP_POLICY" then "drop_oldest" else ""

-- Atoi gives 0 with its syntax error.
toy_atoi : String → ℤ
toy_atoi t = if str_eq t "10000" then pos 10_000 else pos 0

collector_service_example :
    let s = collector_service mistyped toy_atoi 4 in
    let n =
      toy_atoi (if str_eq (mistyped "CHANNEL_CAP") "" then "10000" else mistyped "CHANNEL_CAP") in
    (s.ch
      ≡ record { items = []; capacity = if le_zero n then 10_000 else pos_part n; closed = false })
    × (s.drop_policy ≡ (
        if le_zero n || str_eq (mistyped "DROP_POLICY") ""
        then drop_newest
        else mistyped "DROP_POLICY"))
    × (s.cfg.worker_count ≡ pos (4 * 2))
    × (s.cfg.high_watermark ≡ eight_tenths)
collector_service_example = collector_service_lem mistyped toy_atoi 4

policy_lost : (collector_service mistyped toy_atoi 4).drop_policy ≡ drop_newest
unfolding collector_service backpressure_config new_service normalize getenv mistyped toy_atoi
policy_lost = refl
