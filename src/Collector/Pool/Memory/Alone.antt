-- ===== src/Collector/Pool/Memory/Alone.antt =====
-- A call of `copyPayload` with nothing between its statements is the function that Collector/Service
-- uses.
use api_observability_platfo.Base.{
  ℕ, ◌<◌, ◌≡◌, ◌≢◌, sym, ap, ◌∙◌, none, some, List, [], ◌∷◌, ◌++◌, arith, length, get_elem?,
  erase_idx, replicate, Option-cases, inl, inr, All, All-erase_idx, All-map, All-get_elem?,
  get_elem?-map, erase_idx-map, map_same, All-both,
}
use api_observability_platfo.Collector.Pool.{
  reset, write, new_buffer, get, put, take_out, copy_payload,
}
use api_observability_platfo.Collector.Pool.Memory.{
  Heap, returned, Copies, CopyMove, arrives, resumes, assign, allocate, get_buffer, fire_copy,
  run_copies, no_copies,
}
use api_observability_platfo.Collector.Pool.Memory.Frame.{owned_below}
use api_observability_platfo.Collector.Pool.Memory.Isolated.{
  run_copies-IsIsolated, no_copies-IsIsolated,
}
use api_observability_platfo.Collector.Pool.Memory.Owners.{
  Owner, IsStocked, IsKept, assign_same, assign_other, erased_apart,
}
use api_observability_platfo.Collector.Pool.Memory.Once.{
  pool_of, at_end, resumed_to_end, out_at_end, pool_at_end,
}

-- What `Get` hands out, here and in Collector/Pool.
record IsGot (pick : ℕ) (h : Heap) (a : ℕ) (h' : Heap) : Type 0 where
  near : a < h'.next
  same_buffer : h'.cells a ≡ (get pick (pool_of h)).0
  same_pool : pool_of h' ≡ (get pick (pool_of h)).1
  far : All (λ b. (b ≢ a) × (b ≢ h'.next)) h'.pool

module _ (owner : ℕ → Owner) (h : Heap) (kept : IsKept owner h) where
  pooled_below : (b : ℕ) → IsStocked owner h.cells b → b < h.next
  pooled_below b x = owned_below owner h b kept (λ e. absurd (cc))

  new_IsGot :
      (pick : ℕ) → get_elem? h.pool pick ≡ none → IsGot pick h (h.next) (allocate new_buffer h)
  unfolding get take_out
  new_IsGot pick e =
      let none_there : get_elem? (pool_of h) pick ≡ none =
        rw (get_elem?-map h.cells h.pool pick, e) in
      let below = All-map pooled_below h.pool kept.stocked in
      record {
        near = omega arith;
        same_buffer = rw none_there (assign_same h.cells (h.next) new_buffer);
        same_pool = rw none_there (
            map_same (assign h.cells (h.next) new_buffer) h.cells h.pool (
              All-map
                (λ b x.
                  assign_other h.cells (h.next) new_buffer b (λ y. absurd (omega (arith, x, y))))
                h.pool below));
        far =
            All-map (λ b x. (λ y. absurd (omega (arith, x, y)), λ y. absurd (omega (arith, x, y))))
              h.pool below;
      }

  old_IsGot :
      (pick a : ℕ)
      → get_elem? h.pool pick ≡ some a
      → IsGot pick h a (record h { pool = erase_idx h.pool pick })
  unfolding get take_out
  old_IsGot pick a e =
      let there : get_elem? (pool_of h) pick ≡ some (h.cells a) =
        rw (get_elem?-map h.cells h.pool pick, e) in
      let stocked = All-get_elem? (IsStocked owner h.cells) h.pool pick a kept.stocked e in
      record {
        near = pooled_below a stocked;
        same_buffer = rw there;
        same_pool = rw there (sym (erase_idx-map h.cells h.pool pick));
        far = All-both _ _ (erase_idx h.pool pick) (erased_apart h.pool pick a kept.apart e) (
            All-map (λ b x y. absurd (omega (arith, x, y))) (erase_idx h.pool pick)
              (All-erase_idx _ h.pool pick (All-map pooled_below h.pool kept.stocked)));
      }

  get_buffer-IsGot : (pick : ℕ) → IsGot pick h (get_buffer pick h).0 (get_buffer pick h).1
  unfolding get_buffer
  get_buffer-IsGot pick = elim (Option-cases (get_elem? h.pool pick)) [
    | inl e ↦ rw e (new_IsGot pick e)
    | inr (a, e) ↦ rw e (old_IsGot pick a e)
  ]

-- A call with nothing between its statements, in any state that calls of `copyPayload` reach from an
-- empty pool on, returns behind seven moves with the bytes that `copy_payload` returns, and leaves the
-- pool that `copy_payload` leaves.
pub copied_alone :
    (grow : ℕ → ℕ → ℕ) (mvs : List CopyMove) (s : Copies)
    → run_copies grow mvs no_copies ≡ some s
    → (raw : List ℕ) (pick : ℕ)
    → (h : Heap) × (out : ℕ) × (run_copies grow
          (arrives raw pick ∷ replicate 6 (resumes (length s.calls)))
          s
        ≡ some (record {
          heap = h;
          calls = s.calls ++ record { raw = raw; stage = returned out } ∷ [];
        }))
      × ((h.cells out).content ≡ (copy_payload grow pick raw (pool_of s.heap)).0)
      × (pool_of h ≡ (copy_payload grow pick raw (pool_of s.heap)).1)
unfolding run_copies fire_copy copy_payload
copied_alone grow mvs s ran raw pick =
    let inv = run_copies-IsIsolated grow mvs no_copies s (no_copies-IsIsolated grow) ran in
    let got = get_buffer-IsGot inv.owner s.heap inv.kept pick in
    let (a, h) = get_buffer pick s.heap in
    (
      at_end grow raw a h got.near,
      h.next,
      resumed_to_end grow raw a h got.near s.calls,
      out_at_end grow raw a h got.near
          ∙ ap (λ b. (write grow raw (reset b)).content) got.same_buffer,
      pool_at_end grow raw a h got.near got.far
          ∙ ap (λ b. put (some (write grow raw (reset b))) (pool_of h)) got.same_buffer
          ∙ ap (put (some (write grow raw (reset (get pick (pool_of s.heap)).0)))) got.same_pool,
    )
