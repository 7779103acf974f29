-- ===== src/Collector/Pool/Isolation.antt =====
-- What `copyPayload` and `ReadBodyIntoPool` return does not depend on what the pool held, and the
-- pool stays clean and small.
use api_observability_platfo.Base.{
  ℕ, ◌≤◌, ◌≡◌, refl, inl, inr, Option, none, some, List, [], ◌∷◌, ◌++◌, arith, append_assoc,
  append-nil, get_elem?, All, All-get_elem?, All-erase_idx, Option-cases,
}
use api_observability_platfo.Domain.{Error}
use api_observability_platfo.Collector.Pool.{
  Buffer, Pool, Reader, max_pooled_buffer_cap, get, take_out, put, write, reserve, read_chunks,
  finish_read, copy_payload, read_body_into_pool,
}

-- A pooled buffer has nothing unread, and at most 1 MiB.
pub record IsClean (b : Buffer) : Type 0 where
  pub no_content : b.content ≡ []
  pub capped : b.capacity ≤ max_pooled_buffer_cap

abbrev pub IsCleanPool : Pool → Type 0
IsCleanPool = All IsClean

get-IsClean : (pick : ℕ) (p : Pool) → IsCleanPool p → (get pick p).0.content ≡ []
unfolding get
get-IsClean pick p h = elim (Option-cases (get_elem? p pick)) [
  | inl e ↦ rw (e, take_out)
  | inr (b, e) ↦ rw (e, take_out) (All-get_elem? IsClean p pick b h e).no_content
]

get-IsCleanPool : (pick : ℕ) (p : Pool) → IsCleanPool p → IsCleanPool (get pick p).1
unfolding get
get-IsCleanPool pick p h = elim (Option-cases (get_elem? p pick)) [
  | inl e ↦ rw (e, take_out) h
  | inr (b, e) ↦ rw (e, take_out) (All-erase_idx IsClean p pick h)
]

put-IsCleanPool : (o : Option Buffer) (p : Pool) → IsCleanPool p → IsCleanPool (put o p)
unfolding put
put-IsCleanPool none p h = h
put-IsCleanPool (some b) p h = ground arith

flatten : List (List ℕ) → List ℕ
flatten [] = []
flatten (c ∷ cs) = c ++ flatten cs

-- What a reader as a whole stands for.
answer : Option Error → List ℕ → Option (List ℕ) × Option Error
answer none bytes = (some bytes, none)
answer (some e) bytes = (none, some e)

pub expected_read : Reader → Option (List ℕ) × Option Error
unfolding answer flatten
expected_read r = answer r.failure (flatten r.chunks)

module _ (grow : ℕ → ℕ → ℕ) where
  content-reserve : (n : ℕ) (b : Buffer) → (reserve grow n b).content ≡ b.content
  unfolding reserve
  content-reserve n b = ground arith

  pub content-write :
      (bytes : List ℕ) (b : Buffer) → (write grow bytes (record b { content = [] })).content ≡ bytes
  unfolding write
  content-write bytes b = ground arith

  content-read_chunks :
      (cs : List (List ℕ)) (b : Buffer) → (read_chunks grow cs b).content ≡ b.content ++ flatten cs
  unfolding read_chunks flatten
  content-read_chunks [] b = rw append-nil (content-reserve 512 b)
  content-read_chunks (c ∷ cs) b =
      rw (content-read_chunks cs, content-reserve 512 b) (append_assoc b.content c (flatten cs))

  finish_read_lem :
      (o : Option Error) (b : Buffer) (p : Pool)
      → IsCleanPool p
      → ((finish_read grow o b p).0 ≡ answer o b.content) × IsCleanPool (finish_read grow o b p).1
  unfolding finish_read answer
  finish_read_lem none b p h = (refl, put-IsCleanPool (some b) p h)
  finish_read_lem (some e) b p h = (refl, put-IsCleanPool (some b) p h)

  pub copy_payload-eq :
      (pick : ℕ) (raw : List ℕ) (p : Pool) → (copy_payload grow pick raw p).0 ≡ raw
  unfolding copy_payload
  copy_payload-eq pick raw p = content-write raw (get pick p).0

  copy_payload-IsCleanPool :
      (pick : ℕ) (raw : List ℕ) (p : Pool)
      → IsCleanPool p
      → IsCleanPool (copy_payload grow pick raw p).1
  unfolding copy_payload
  copy_payload-IsCleanPool pick raw p h =
      put-IsCleanPool (some (write grow raw (record (get pick p).0 { content = [] })))
        (get pick p).1 (get-IsCleanPool pick p h)

  -- From a pool whose buffers are empty and at most 1 MiB large, and whichever of them is taken,
  -- `copyPayload` returns exactly the bytes that it was given and leaves such a pool.
  pub copy_payload_lem :
      (pick : ℕ) (raw : List ℕ) (p : Pool)
      → IsCleanPool p
      → ((copy_payload grow pick raw p).0 ≡ raw) × IsCleanPool (copy_payload grow pick raw p).1
  copy_payload_lem pick raw p h =
      (copy_payload-eq pick raw p, copy_payload-IsCleanPool pick raw p h)

  -- `ReadBodyIntoPool` does not reset the buffer that it takes. From a pool of clean buffers it
  -- returns all that the reader gave if the reader ends, and nil with the reader's error if it
  -- fails; either way it leaves a pool of clean buffers.
  pub read_body_into_pool_lem :
      (pick : ℕ) (r : Reader) (p : Pool)
      → IsCleanPool p
      → ((read_body_into_pool grow pick r p).0 ≡ expected_read r)
        × IsCleanPool (read_body_into_pool grow pick r p).1
  unfolding read_body_into_pool expected_read
  read_body_into_pool_lem pick r p h =
      let b = (get pick p).0 in
      let all : (read_chunks grow r.chunks b).content ≡ flatten r.chunks =
        rw (content-read_chunks r.chunks b, get-IsClean pick p h) in
      rw (← all) (
        finish_read_lem r.failure (read_chunks grow r.chunks b) (get pick p).1
          (get-IsCleanPool pick p h))
