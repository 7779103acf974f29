-- ===== src/Storage/Influx.antt =====
-- internal/infra/storage/influxdb/storage.go over the client library's calls. The conversion of a
-- point by `influx.NewPoint` belongs to the library and is part of `write_point`.
use api_observability_platfo.Base.{
  ℕ, suc, zero, Bool, true, false, Option, none, some, List, [], ◌∷◌, ◌++◌,
}
use api_observability_platfo.Domain.{Error, foreign, wrapped, MetricPoint, WriteResult}
use api_observability_platfo.Contract.{Context, Storage}

-- The calls of the client, with the organisation and the bucket of the storage.
pub record Client (W : Type 0) : Type 0 where
  pub write_point : Context → MetricPoint → W → Option Error × W
  pub ping : Context → W → (Bool × Option Error) × W
  pub close : W → W

module _ {W : Type 0} (c : Client W) where
  unfoldable pub count_write : Option Error → WriteResult → WriteResult
  count_write (some e) res = record res { errors = res.errors ++ e ∷ [] }
  count_write none res = record res { written = suc res.written }

  unfoldable pub write_loop : Context → List MetricPoint → WriteResult → W → WriteResult × W
  unfolding count_write
  write_loop ctx [] res w = (res, w)
  write_loop ctx (p ∷ ps) res w =
      let (err, w') = c.write_point ctx p w in write_loop ctx ps (count_write err res) w'

  -- `fmt.Errorf("influx write: %w", result.Errors[0])` if there are errors and nothing was written.
  unfoldable pub write_error : List Error → ℕ → Option Error
  write_error [] written = none
  write_error (e ∷ es) zero = some (wrapped "influx write: " e)
  write_error (e ∷ es) (suc n) = none

  unfoldable pub write_points : Context → List MetricPoint → W → (WriteResult × Option Error) × W
  unfolding write_loop write_error
  write_points ctx points w =
      let (res, w') = write_loop ctx points (record { written = 0; errors = [] }) w in
      ((res, write_error res.errors res.written), w')

  ping_error : Bool × Option Error → Option Error
  ping_error (ok, some e) = some e
  ping_error (true, none) = none
  ping_error (false, none) = some (foreign "influx ping failed")

  unfoldable pub health : Context → W → Option Error × W
  unfolding ping_error
  health ctx w = let (answer, w') = c.ping ctx w in (ping_error answer, w')

  unfoldable pub close : W → Option Error × W
  close w = (none, c.close w)

  unfoldable pub storage : Storage W
  unfolding write_points health close
  storage = record { write_points = write_points; health = health; close = close }
