-- ===== src/Runtime.antt =====
-- internal/infra/runtime/shutdown.go: `WaitGroupClose`, `SleepInterruptible` and `MustHostname`.
pub mod Order
pub mod Server
use api_observability_platfo.Base.{
  ℕ, zero, suc, ◌*◌, String, Option, none, some, List, [], ◌∷◌, ◌++◌, length, get_elem?,
}
use api_observability_platfo.Domain.{Error, second}
use api_observability_platfo.Contract.{Context}

abbrev pub default_shutdown_timeout : ℕ
default_shutdown_timeout = 45 * second

abbrev pub Closer : Type 0 → Type 0
Closer W = W → Option Error × W

module _ {W : Type 0} where
  -- `WaitGroupClose.Add`. The mutex makes each of the two methods one step.
  unfoldable pub add : Closer W → List (Closer W) → List (Closer W)
  add fn closes = closes ++ fn ∷ []

  -- The world, and the errors that were logged, oldest first.
  note_close : Option Error × W → List Error → List Error × W
  note_close (none, w) log = (log, w)
  note_close (some e, w) log = (log ++ e ∷ [], w)

  pub call_close : Option (Closer W) → List Error → W → List Error × W
  unfolding note_close
  call_close none log w = (log, w)
  call_close (some fn) log w = note_close (fn w) log

  -- The loop of `CloseAll` from index `i - 1` down to 0.
  close_from : ℕ → List (Closer W) → List Error → W → List Error × W
  unfolding call_close
  close_from zero closes log w = (log, w)
  close_from (suc i) closes log w =
      let (log', w') = call_close (get_elem? closes i) log w in close_from i closes log' w'

  unfoldable pub close_all : List (Closer W) → W → List Error × W
  unfolding close_from
  close_all closes w = close_from (length closes) closes [] w
