-- ===== src/Collector/Pool/Memory.antt =====
-- `copyPayload` (internal/app/collector/service.go) with `Get` and `Put` of its pool
-- (internal/app/collector/pool.go), one statement at a time, for any number of calls at once. A
-- `*bytes.Buffer` and a slice of `make` are addresses of a memory that the calls share, and the pool
-- holds addresses.
pub mod Owners
pub mod Frame
pub mod Statements
pub mod Isolated
pub mod Apart
pub mod Once
pub mod Alone
use api_observability_platfo.Base.{
  ℕ, zero, suc, Option, none, some, List, [], ◌∷◌, ◌++◌, ltb, ◌==◌, if◌then◌else◌, length,
  get_elem?, erase_idx, set, replicate, take, drop,
}
use api_observability_platfo.Collector.Pool.{
  Buffer, max_pooled_buffer_cap, new_buffer, reset, write,
}

-- What stands at each address, the first address that was never used, and the pooled buffers.
pub record Heap : Type 0 where
  pub cells : ℕ → Buffer
  pub next : ℕ
  pub pool : List ℕ

-- Behind which statement of `copyPayload` a call stands, with its `buf` and its `out`.
pub data Stage : Type 0 where
  -- `buf := s.bp.Get()`
  taken : (buf : ℕ) → Stage
  -- `buf.Reset()`
  cleared : (buf : ℕ) → Stage
  -- `buf.Write(raw)`
  filled : (buf : ℕ) → Stage
  -- `out := make([]byte, buf.Len())`
  made : (buf out : ℕ) → Stage
  -- `copy(out, buf.Bytes())`
  copied : (buf out : ℕ) → Stage
  -- in `Put`: `b.Reset()`
  rewound : (buf out : ℕ) → Stage
  returned : (out : ℕ) → Stage

pub record Copy : Type 0 where
  pub raw : List ℕ
  pub stage : Stage

pub record Copies : Type 0 where
  pub heap : Heap
  pub calls : List Copy

pub data CopyMove : Type 0 where
  -- a call comes and takes a buffer; `pick` is the choice of `sync.Pool`
  arrives : (raw : List ℕ) → (pick : ℕ) → CopyMove
  -- a call does its next statement
  resumes : ℕ → CopyMove
  -- the runtime removes a buffer from the pool, as `sync.Pool` allows it at any time
  forgets : ℕ → CopyMove

unfoldable pub assign {ℓ} : {A : Type ℓ} → (ℕ → A) → ℕ → A → ℕ → A
assign f p v a = if a == p then v else f a

abbrev pub store : ℕ → Buffer → Heap → Heap
store p b h = record h { cells = assign h.cells p b }

-- `new(bytes.Buffer)` and `make`: an address that nobody has.
abbrev pub allocate : Buffer → Heap → Heap
allocate b h = record h { cells = assign h.cells h.next b; next = suc h.next }

abbrev pub take_pooled : ℕ → Heap → Option ℕ → ℕ × Heap
take_pooled pick h none = (h.next, allocate new_buffer h)
take_pooled pick h (some a) = (a, record h { pool = erase_idx h.pool pick })

-- `Get`
unfoldable pub get_buffer : ℕ → Heap → ℕ × Heap
get_buffer pick h = take_pooled pick h (get_elem? h.pool pick)

-- The end of `Put`.
unfoldable pub give_back : ℕ → Heap → Heap
give_back a h =
    if ltb max_pooled_buffer_cap (h.cells a).capacity then h else record h { pool = a ∷ h.pool }

-- `make([]byte, n)`
abbrev pub zeros : ℕ → Buffer
zeros n = record { content = replicate n 0; capacity = n }

-- `copy(out, src)` fills `out` as far as both go.
abbrev pub copy_into : Buffer → List ℕ → Buffer
copy_into out src = record out {
  content = take (length out.content) src ++ drop (length src) out.content;
}

module _ (grow : ℕ → ℕ → ℕ) where
  -- The next statement of a call.
  unfoldable pub next_statement : List ℕ → Stage → Heap → Option (Stage × Heap)
  next_statement raw (taken a) h = some (cleared a, store a (reset (h.cells a)) h)
  next_statement raw (cleared a) h = some (filled a, store a (write grow raw (h.cells a)) h)
  next_statement raw (filled a) h =
      some (made a h.next, allocate (zeros (length (h.cells a).content)) h)
  next_statement raw (made a out) h =
      some (copied a out, store out (copy_into (h.cells out) (h.cells a).content) h)
  next_statement raw (copied a out) h = some (rewound a out, store a (reset (h.cells a)) h)
  next_statement raw (rewound a out) h = some (returned out, give_back a h)
  next_statement raw (returned out) h = none

  abbrev pub moved : ℕ → List ℕ → List Copy → Option (Stage × Heap) → Option Copies
  moved i raw cs none = none
  moved i raw cs (some (st, h)) =
      some (record { heap = h; calls = set cs i (record { raw = raw; stage = st }) })

  abbrev pub resume : ℕ → Copies → Option Copy → Option Copies
  resume i s none = none
  resume i s (some c) = moved i c.raw s.calls (next_statement c.raw c.stage s.heap)

  unfoldable pub fire_copy : CopyMove → Copies → Option Copies
  fire_copy (arrives raw pick) s =
      let (a, h) = get_buffer pick s.heap in
      some (record { heap = h; calls = s.calls ++ record { raw = raw; stage = taken a } ∷ [] })
  fire_copy (resumes i) s = resume i s (get_elem? s.calls i)
  fire_copy (forgets i) s =
      some (record s { heap = record (s.heap) { pool = erase_idx s.heap.pool i } })

  unfoldable pub run_copies : List CopyMove → Copies → Option Copies
  run_copies [] s = some s
  run_copies (mv ∷ mvs) s = elim (fire_copy mv s) [ none ↦ none | some t ↦ run_copies mvs t ]

-- At the start the pool is empty, and no address has been used.
unfoldable pub no_copies : Copies
no_copies = record { heap = record { cells = λ a. new_buffer; next = 0; pool = [] }; calls = [] }
