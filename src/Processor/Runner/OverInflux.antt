-- ===== src/Processor/Runner/OverInflux.antt =====
-- What the runner's theorems ask of a storage, for the InfluxDB storage and its client.
use api_observability_platfo.Base.{◌≡◌, ◌≢◌, refl, ◌∙◌, Option, none, some, List, [], ◌∷◌}
use api_observability_platfo.Domain.{Error, MetricPoint, WriteResult}
use api_observability_platfo.Contract.{Context}
use api_observability_platfo.Storage.Influx
use api_observability_platfo.Storage.Influx.{Client, write_loop, count_write, write_points}
use api_observability_platfo.Storage.Promise.{influx-IsHonest}
use api_observability_platfo.Processor.Runner.{Runner}
use api_observability_platfo.Processor.Runner.Exit.{HeedsContext}
use api_observability_platfo.Processor.Runner.Faults.{IsDown}
use api_observability_platfo.Processor.Runner.Partial.{over_influx}

module _ {W : Type 0} (c : Client W) (ctx : Context) where
  -- No write of a point succeeds.
  abbrev pub Refuses : Type 0
  Refuses = (p : MetricPoint) (w : W) → (c.write_point ctx p w).0 ≢ none

  abbrev pub LeavesWorld : Type 0
  LeavesWorld = (p : MetricPoint) (w : W) → (c.write_point ctx p w).1 ≡ w

  none_counted :
      (e : Option Error) (res : WriteResult)
      → e ≢ none
      → (count_write c e res).written ≡ res.written
  unfolding count_write
  none_counted none res h = absurd (h refl)
  none_counted (some e) res h = refl

  none_written :
      (ps : List MetricPoint) (res : WriteResult) (w : W)
      → Refuses
      → (write_loop c ctx ps res w).0.written ≡ res.written
  unfolding write_loop
  none_written [] res w refuses = refl
  none_written (p ∷ ps) res w refuses =
      let (err, w') = c.write_point ctx p w in
      none_written ps (count_write c err res) w' refuses ∙ none_counted err res (refuses p w)

  same_world :
      (ps : List MetricPoint) (res : WriteResult) (w : W)
      → LeavesWorld
      → (write_loop c ctx ps res w).1 ≡ w
  unfolding write_loop
  same_world [] res w leaves = refl
  same_world (p ∷ ps) res w leaves =
      same_world ps (count_write c (c.write_point ctx p w).0 res) (c.write_point ctx p w).1 leaves
      ∙ leaves p w

  write_refused :
      (p : MetricPoint) (ps : List MetricPoint) (w : W)
      → Refuses
      → ((Influx.storage c).write_points ctx (p ∷ ps) w).0.1 ≢ none
  unfolding Influx.storage
  write_refused p ps w refuses =
      (influx-IsHonest c ctx (p ∷ ps) w).error_iff.1
        ((λ q. cc), none_written (p ∷ ps) (record { written = 0; errors = [] }) w refuses)

module _ {W : Type 0} (c : Client W) where
  -- The InfluxDB storage heeds its context if its client does.
  pub influx-HeedsContext :
      ((ctx : Context) → ctx.err ≢ none → Refuses c ctx × LeavesWorld c ctx)
      → HeedsContext (Influx.storage c)
  unfolding Influx.storage
  influx-HeedsContext heeds ctx p ps w over =
      let (refuses, leaves) = heeds ctx over in
      (write_refused c ctx p ps w refuses, same_world c ctx (p ∷ ps) _ w leaves)

  -- And it is down if every write of a point fails.
  pub influx-IsDown : ((ctx : Context) → Refuses c ctx) → (r : Runner W) → IsDown (over_influx c r)
  influx-IsDown refuses r ctx p ps w = write_refused c ctx p ps w (refuses ctx)
