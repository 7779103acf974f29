-- ===== src/Collector/Chan.antt =====
-- A buffered Go channel as the collector and the runner use it: non-blocking sends and receives in a
-- `select`, `range` over the channel, `close`, `len` and `cap`.
use api_observability_platfo.Base.{
  ℕ, ◌≤◌, Bool, true, false, List, [], ◌∷◌, ◌++◌, ltb, if◌then◌else◌, length,
}

-- The items in the order in which they were sent.
pub record Chan {ℓ} (A : Type ℓ) : Type ℓ where
  pub items : List A
  pub capacity : ℕ
  pub closed : Bool

-- A send on a closed channel panics; on a full one it would block.
pub data Sent {ℓ} (A : Type ℓ) : Type ℓ where
  sent : Chan A → Sent A
  would_block : Sent A
  send_panics : Sent A

-- A receive from a closed channel that is drained gives the zero value at once.
pub data Received {ℓ} (A : Type ℓ) : Type ℓ where
  received : A → Chan A → Received A
  drained : Received A
  nothing_yet : Received A

module _ {ℓ} {A : Type ℓ} where
  -- `make(chan A, n)`
  abbrev pub make : ℕ → Chan A
  make n = record { items = []; capacity = n; closed = false }

  unfoldable pub try_send : A → Chan A → Sent A
  try_send a c =
      if c.closed
      then send_panics
      else if ltb (length c.items) c.capacity
      then sent (record c { items = c.items ++ a ∷ [] })
      else would_block

  abbrev pub receive : List A → Chan A → Received A
  receive [] c = if c.closed then drained else nothing_yet
  receive (a ∷ rest) c = received a (record c { items = rest })

  unfoldable pub try_receive : Chan A → Received A
  try_receive c = receive c.items c

  abbrev pub close : Chan A → Chan A
  close c = record c { closed = true }

  abbrev pub IsBounded : Chan A → Type 0
  IsBounded c = length c.items ≤ c.capacity
