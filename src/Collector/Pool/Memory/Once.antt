-- ===== src/Collector/Pool/Memory/Once.antt =====
-- The statements of one call of `copyPayload` behind `Get`, with nothing between them.
use api_observability_platfo.Base.{
  ℕ, suc, ◌<◌, ◌≡◌, ◌≢◌, refl, sym, ap, ◌∙◌, some, List, [], ◌∷◌, ◌++◌, map, arith, length,
  length-replicate, replicate, ltb, Bool-cases, inl, inr, All, All-map, get_elem?-last, set-last,
  map_same,
}
use api_observability_platfo.Collector.Pool.{
  Buffer, Pool, reset, write, put, put_back, max_pooled_buffer_cap,
}
use api_observability_platfo.Collector.Pool.Memory.{
  Heap, Stage, taken, cleared, filled, made, copied, rewound, returned, Copy, Copies, resumes,
  allocate, store, zeros, copy_into, give_back, next_statement, fire_copy, run_copies,
}
use api_observability_platfo.Collector.Pool.Memory.Statements.{content-copy_into}
use api_observability_platfo.Collector.Pool.Memory.Owners.{assign_same, assign_other}

cells-give_back : (a : ℕ) (h : Heap) → (give_back a h).cells ≡ h.cells
unfolding give_back
cells-give_back a h = elim (Bool-cases (ltb max_pooled_buffer_cap (h.cells a).capacity)) [
  | inl e ↦ rw e
  | inr e ↦ rw e
]

-- The pool as Collector/Pool has it.
abbrev pub pool_of : Heap → Pool
pool_of h = map h.cells h.pool

module _ (grow : ℕ → ℕ → ℕ) where
  abbrev pub last_call : List Copy → List ℕ → Stage → Heap → Copies
  last_call cs raw st h = record { heap = h; calls = cs ++ record { raw = raw; stage = st } ∷ [] }

  resumes_last :
      (cs : List Copy) (raw : List ℕ) (st st' : Stage) (h h' : Heap)
      → next_statement grow raw st h ≡ some (st', h')
      → fire_copy grow (resumes (length cs)) (last_call cs raw st h)
        ≡ some (last_call cs raw st' h')
  unfolding fire_copy
  resumes_last cs raw st st' h h' e = rw (
    get_elem?-last cs (record { raw = raw; stage = st }),
    e,
    set-last cs (record { raw = raw; stage = st }) (record { raw = raw; stage = st' }),
  )

  onward :
      (cs : List Copy) (raw : List ℕ) (st st' : Stage) (h h' : Heap) (n : ℕ)
      → next_statement grow raw st h ≡ some (st', h')
      → run_copies grow (replicate (suc n) (resumes (length cs))) (last_call cs raw st h)
        ≡ run_copies grow (replicate n (resumes (length cs))) (last_call cs raw st' h')
  unfolding run_copies
  onward cs raw st st' h h' n e = rw (run_copies, resumes_last cs raw st st' h h' e)

  -- The heaps of a call behind `Get`, from statement to statement.
  module _ (raw : List ℕ) (a : ℕ) (h : Heap) (near : a < h.next) where
    abbrev pub once_reset : Heap
    once_reset = store a (reset (h.cells a)) h

    abbrev pub once_filled : Heap
    once_filled = store a (write grow raw (once_reset.cells a)) once_reset

    abbrev pub once_made : Heap
    once_made = allocate (zeros (length (once_filled.cells a).content)) once_filled

    abbrev pub once_copied : Heap
    once_copied =
        store (h.next) (copy_into (once_made.cells (h.next)) (once_made.cells a).content) once_made

    abbrev pub once_rewound : Heap
    once_rewound = store a (reset (once_copied.cells a)) once_copied

    abbrev pub at_end : Heap
    at_end = give_back a once_rewound

    pub resumed_to_end :
        (cs : List Copy)
        → run_copies grow (replicate 6 (resumes (length cs))) (last_call cs raw (taken a) h)
          ≡ some (last_call cs raw (returned (h.next)) at_end)
    unfolding run_copies next_statement
    resumed_to_end cs =
        onward cs raw (taken a) _ h once_reset 5 refl
        ∙ onward cs raw (cleared a) _ once_reset once_filled 4 refl
        ∙ onward cs raw (filled a) _ once_filled once_made 3 refl
        ∙ onward cs raw (made a (h.next)) _ once_made once_copied 2 refl
        ∙ onward cs raw (copied a (h.next)) _ once_copied once_rewound 1 refl
        ∙ onward cs raw (rewound a (h.next)) _ once_rewound at_end 0 refl

    abbrev pub written : Buffer
    written = write grow raw (reset (h.cells a))

    away : a ≢ h.next
    away e = absurd (omega (arith, e, near))

    cells_filled : once_filled.cells a ≡ written
    cells_filled = assign_same once_reset.cells a _ ∙ ap (write grow raw) (assign_same h.cells a _)

    cells_made : once_made.cells a ≡ written
    cells_made = assign_other once_filled.cells (h.next) _ a away ∙ cells_filled

    cells_rewound : once_rewound.cells a ≡ reset written
    cells_rewound =
        assign_same once_copied.cells a _
        ∙ ap reset (assign_other once_made.cells (h.next) _ a away ∙ cells_made)

    out_made :
        (once_made.cells (h.next)).content ≡ replicate (length (once_filled.cells a).content) 0
    out_made = ap (λ b. b.content) (assign_same once_filled.cells (h.next) _)

    out_rewound : (once_rewound.cells (h.next)).content ≡ written.content
    out_rewound =
        ap (λ b. b.content)
          (assign_other once_copied.cells a _ (h.next) (λ e. away (sym e))
            ∙ assign_same once_made.cells (h.next) _)
        ∙ content-copy_into (once_made.cells (h.next)) (once_made.cells a).content (
            ap length out_made
            ∙ length-replicate _ 0
            ∙ ap (λ b. length b.content) (sym (assign_other once_filled.cells (h.next) _ a away)))
        ∙ ap (λ b. b.content) cells_made

    pub out_at_end : (at_end.cells (h.next)).content ≡ written.content
    out_at_end = ap (λ m. (m (h.next)).content) (cells-give_back a once_rewound) ∙ out_rewound

    elsewhere : (b : ℕ) → b ≢ a → b ≢ h.next → once_rewound.cells b ≡ h.cells b
    elsewhere b e g =
        assign_other once_copied.cells a _ b e
        ∙ assign_other once_made.cells (h.next) _ b g
        ∙ assign_other once_filled.cells (h.next) _ b g
        ∙ assign_other once_reset.cells a _ b e
        ∙ assign_other h.cells a _ b e

    abbrev pub AreOther : List ℕ → Type 0
    AreOther pool = All (λ b. (b ≢ a) × (b ≢ h.next)) pool

    pool_rewound : AreOther h.pool → pool_of once_rewound ≡ pool_of h
    pool_rewound far =
        map_same once_rewound.cells h.cells h.pool
          (All-map (λ b (e, g). elsewhere b e g) h.pool far)

    pub pool_at_end : AreOther h.pool → pool_of at_end ≡ put (some written) (pool_of h)
    unfolding give_back put put_back
    pool_at_end far =
        let same : (once_rewound.cells a).capacity ≡ written.capacity =
          ap (λ b. b.capacity) cells_rewound in
        elim (Bool-cases (ltb max_pooled_buffer_cap written.capacity)) [
          | inl large ↦ rw (same, large) (pool_rewound far)
          | inr small ↦
              rw (same, small)
                (ap (λ b. b ∷ pool_of once_rewound) cells_rewound
                  ∙ ap (◌∷◌ (reset written)) (pool_rewound far))
        ]
