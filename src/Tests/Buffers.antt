-- ===== src/Tests/Buffers.antt =====
-- Calls of `copyPayload` on a pooled and on a new buffer, interleaved.
use api_observability_platfo.Base.{
  ℕ, ◌≡◌, refl, none, some, List, [], ◌∷◌, ◌++◌, All, map, replicate,
}
use api_observability_platfo.Collector.Pool.{copy_payload, write}
use api_observability_platfo.Collector.Pool.Isolation.{IsClean}
use api_observability_platfo.Collector.Pool.Memory.{
  Heap, Copies, CopyMove, arrives, resumes, returned, assign, get_buffer, give_back, next_statement,
  fire_copy, run_copies, no_copies,
}
use api_observability_platfo.Collector.Pool.Memory.Owners.{IsApart}
use api_observability_platfo.Collector.Pool.Memory.Apart.{
  IsFaithful, buffers_in_use, payloads_isolated,
}
use api_observability_platfo.Collector.Pool.Memory.Once.{pool_of}
use api_observability_platfo.Collector.Pool.Memory.Alone.{copied_alone}
use api_observability_platfo.Tests.Fixtures.{exactly}

-- The second call takes the buffer of the first one, the third makes one; their statements alternate,
-- and the third has not returned.
abbrev alternating : List CopyMove
alternating =
    arrives (1 ∷ 2 ∷ []) 0 ∷ replicate 6 (resumes 0)
    ++ arrives (3 ∷ []) 0
      ∷ arrives (4 ∷ 5 ∷ 6 ∷ []) 0
      ∷ resumes 1
      ∷ resumes 2
      ∷ resumes 1
      ∷ resumes 2
      ∷ resumes 2
      ∷ replicate 4 (resumes 1)

abbrev copied_at : List CopyMove → Copies
copied_at mvs = elim (run_copies exactly mvs no_copies) [ none ↦ no_copies | some s ↦ s ]

alternating_runs : run_copies exactly alternating no_copies ≡ some (copied_at alternating)
unfolding run_copies fire_copy no_copies next_statement get_buffer give_back assign exactly write
alternating_runs = refl

-- The payloads of the two calls that have returned.
two_payloads :
    map (λ a. ((copied_at alternating).heap.cells a).content) (1 ∷ 4 ∷ [])
    ≡ (1 ∷ 2 ∷ []) ∷ (3 ∷ []) ∷ []
unfolding run_copies fire_copy no_copies next_statement get_buffer give_back assign exactly write
two_payloads = refl

payloads_isolated_example :
    let s = copied_at alternating in
    All (λ c. IsFaithful s.heap c.raw c.stage) s.calls
    × IsApart (buffers_in_use s.calls ++ s.heap.pool)
    × All (λ a. IsClean (s.heap.cells a)) s.heap.pool
payloads_isolated_example =
    payloads_isolated exactly alternating (copied_at alternating) alternating_runs

copied_alone_example :
    let s = copied_at alternating in
    let p = copy_payload exactly 0 (7 ∷ []) (pool_of s.heap) in
    (h : Heap) × (out : ℕ) × (run_copies exactly (arrives (7 ∷ []) 0 ∷ replicate 6 (resumes 3)) s
      ≡ some (record {
        heap = h;
        calls = s.calls ++ record { raw = 7 ∷ []; stage = returned out } ∷ [];
      }))
    × ((h.cells out).content ≡ p.0)
    × (pool_of h ≡ p.1)
unfolding run_copies fire_copy no_copies next_statement get_buffer give_back assign exactly write
copied_alone_example =
    copied_alone exactly alternating (copied_at alternating) alternating_runs (7 ∷ []) 0
