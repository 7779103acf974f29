-- ===== src/Storage/Noop.antt =====
-- internal/infra/storage/noop/noop.go.
use api_observability_platfo.Base.{Option, none, List, [], length}
use api_observability_platfo.Domain.{Error, MetricPoint, WriteResult}
use api_observability_platfo.Contract.{Context, Storage}

module _ {W : Type 0} where
  unfoldable pub write_points : Context → List MetricPoint → W → (WriteResult × Option Error) × W
  write_points ctx points w = ((record { written = length points; errors = [] }, none), w)

  unfoldable pub health : Context → W → Option Error × W
  health ctx w = (none, w)

  unfoldable pub close : W → Option Error × W
  close w = (none, w)

  unfoldable pub storage : Storage W
  unfolding write_points health close
  storage = record { write_points = write_points; health = health; close = close }
