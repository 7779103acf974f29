-- ===== src/Collector/Pool.antt =====
-- internal/app/collector/pool.go, `copyPayload` and `ReadBodyIntoPool` of service.go.
-- `bytes.Buffer` is its unread bytes and its capacity; `sync.Pool` is the buffers that it holds.
-- Which of them `Get` takes is free (`pick`; past the end it takes none and calls `New`), and so is
-- the capacity that the allocator gives (`grow old_capacity needed`).
pub mod Isolation
pub mod Memory
use api_observability_platfo.Base.{
  ℕ, ◌+◌, ◌^◌, Option, none, some, List, [], ◌∷◌, ◌++◌, ltb, leb, if◌then◌else◌, length, get_elem?,
  erase_idx,
}
use api_observability_platfo.Domain.{Error}

pub record Buffer : Type 0 where
  pub content : List ℕ
  pub capacity : ℕ

abbrev pub Pool : Type 0
Pool = List Buffer

abbrev pub max_pooled_buffer_cap : ℕ
max_pooled_buffer_cap = 2 ^ 20

abbrev pub new_buffer_pool : Pool
new_buffer_pool = []

abbrev new_buffer : Buffer
new_buffer = record { content = []; capacity = 0 }

abbrev reset : Buffer → Buffer
reset b = record b { content = [] }

take_out : ℕ → Pool → Option Buffer → Buffer × Pool
take_out pick p none = (new_buffer, p)
take_out pick p (some b) = (b, erase_idx p pick)

unfoldable pub get : ℕ → Pool → Buffer × Pool
unfolding take_out
get pick p = take_out pick p (get_elem? p pick)

put_back : Buffer → Pool → Pool
put_back b p = if ltb max_pooled_buffer_cap b.capacity then p else b ∷ p

-- `none` is the nil pointer.
unfoldable pub put : Option Buffer → Pool → Pool
unfolding put_back
put none p = p
put (some b) p = put_back (reset b) p

-- What `io.Reader` answers to the calls of `Read`: some chunks, then end of file or an error.
pub record Reader : Type 0 where
  pub chunks : List (List ℕ)
  pub failure : Option Error

module _ (grow : ℕ → ℕ → ℕ) where
  reserve : ℕ → Buffer → Buffer
  reserve n b =
      let needed = length b.content + n in
      if leb needed b.capacity then b else record b { capacity = grow b.capacity needed }

  abbrev append : List ℕ → Buffer → Buffer
  append bytes b = record b { content = b.content ++ bytes }

  -- `Buffer.Write`
  unfoldable pub write : List ℕ → Buffer → Buffer
  unfolding reserve
  write bytes b = append bytes (reserve (length bytes) b)

  -- The loop of `Buffer.ReadFrom`: room for at least 512 bytes before each `Read`.
  read_chunks : List (List ℕ) → Buffer → Buffer
  read_chunks [] b = reserve 512 b
  read_chunks (c ∷ cs) b = read_chunks cs (append c (reserve 512 b))

  unfoldable pub copy_payload : ℕ → List ℕ → Pool → List ℕ × Pool
  unfolding get put write
  copy_payload pick raw p =
      let (b, rest) = get pick p in
      let filled = write raw (reset b) in (filled.content, put (some filled) rest)

  finish_read : Option Error → Buffer → Pool → (Option (List ℕ) × Option Error) × Pool
  finish_read none b p = ((some b.content, none), put (some b) p)
  finish_read (some e) b p = ((none, some e), put (some b) p)

  unfoldable pub read_body_into_pool : ℕ → Reader → Pool → (Option (List ℕ) × Option Error) × Pool
  unfolding get put reserve read_chunks finish_read
  read_body_into_pool pick r p =
      let (b, rest) = get pick p in finish_read r.failure (read_chunks r.chunks b) rest
