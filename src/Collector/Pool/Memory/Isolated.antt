-- ===== src/Collector/Pool/Memory/Isolated.antt =====
-- No call of `copyPayload` sees another one, whatever the pool hands out.
use api_observability_platfo.Base.{
  ℕ, suc, ◌≡◌, refl, ◌∙◌, Option, none, some, List, [], ◌∷◌, arith, length, get_elem?, erase_idx,
  set, Option-cases, inl, inr, All-erase_idx, All-get_elem?, get_elem?-set, get_elem?-snoc,
}
use mathlib.Core.Path.{subst}
use api_observability_platfo.Collector.Pool.{Buffer, new_buffer}
use api_observability_platfo.Collector.Pool.Memory.{
  Heap, Stage, Copy, Copies, CopyMove, arrives, resumes, forgets, assign, allocate, get_buffer,
  next_statement, moved, fire_copy, run_copies, no_copies,
}
use api_observability_platfo.Collector.Pool.Memory.Owners.{
  Role, buffer, Owner, unused, owned, Holds, IsStocked, IsKept, assign_same, assign_other,
  IsApart-erase_idx, erased_apart,
}
use api_observability_platfo.Collector.Pool.Memory.Frame.{
  Holds-frame, unseen, IsKept-off, IsStocked-off,
}
use api_observability_platfo.Collector.Pool.Memory.Statements.{After, Onward, next_statement_lem}

abbrev pub Held : (ℕ → Owner) → (ℕ → Buffer) → List Copy → Type 0
Held owner cells cs =
    (j : ℕ) (c : Copy) → get_elem? cs j ≡ some c → Holds owner cells j c.raw c.stage

-- Some assignment of owners fits the memory and all calls.
pub record IsIsolated (s : Copies) : Type 0 where
  pub owner : ℕ → Owner
  pub kept : IsKept owner s.heap
  pub held : Held owner s.heap.cells s.calls

abbrev pub LeadsTo : Option Copies → Type 0
LeadsTo none = Unit
LeadsTo (some t) = IsIsolated t

-- A buffer that `Get` has taken or made is the new call's.
pub record IsTaken (owner : ℕ → Owner) (h : Heap) (k : ℕ) (a : ℕ) (h' : Heap) : Type 0 where
  pub owner' : ℕ → Owner
  pub kept : IsKept owner' h'
  pub mine : owner' a ≡ owned k buffer
  pub others :
      (j : ℕ) (r : Role) (b : ℕ)
      → owner b ≡ owned j r
      → (owner' b ≡ owned j r) × (h'.cells b ≡ h.cells b)

module _ (owner : ℕ → Owner) (h : Heap) (kept : IsKept owner h) (k : ℕ) where
  new-IsTaken : IsTaken owner h k h.next (allocate new_buffer h)
  new-IsTaken =
      let p = h.next in
      let free : owner p ≡ unused = kept.fresh p (omega arith) in
      let off = assign_other h.cells p new_buffer in
      record {
        owner' = assign owner p (owned k buffer);
        kept =
            IsKept-off owner p (owned k buffer) h.cells (assign h.cells p new_buffer) off h.next
              (suc h.next) h.pool (λ g. absurd (cc)) (omega arith) (omega arith) kept;
        mine = assign_same owner p (owned k buffer);
        others = λ j.
            unseen owner p (owned k buffer) h.cells (assign h.cells p new_buffer) off j
              (λ r g. absurd (cc));
      }

  pooled-IsTaken :
      (pick a : ℕ)
      → get_elem? h.pool pick ≡ some a
      → IsTaken owner h k a (record h { pool = erase_idx h.pool pick })
  pooled-IsTaken pick a e =
      let (was, clean) = All-get_elem? (IsStocked owner h.cells) h.pool pick a kept.stocked e in
      let o' = owned k buffer in
      record {
        owner' = assign owner a o';
        kept = record {
          fresh = λ b far.
              let gone = kept.fresh b far in assign_other owner a o' b (λ x. absurd (cc)) ∙ gone;
          stocked =
              IsStocked-off owner a o' h.cells h.cells (λ b x. refl) (erase_idx h.pool pick)
                (erased_apart h.pool pick a kept.apart e)
                (All-erase_idx (IsStocked owner h.cells) h.pool pick kept.stocked);
          apart = IsApart-erase_idx h.pool pick kept.apart;
        };
        mine = assign_same owner a o';
        others = λ j. unseen owner a o' h.cells h.cells (λ b x. refl) j (λ r g. absurd (cc));
      }

  get_buffer_lem : (pick : ℕ) → IsTaken owner h k (get_buffer pick h).0 (get_buffer pick h).1
  unfolding get_buffer
  get_buffer_lem pick = elim (Option-cases (get_elem? h.pool pick)) [
    | inl e ↦ rw e new-IsTaken
    | inr (a, e) ↦ rw e (pooled-IsTaken pick a e)
  ]

module _ (grow : ℕ → ℕ → ℕ) (s : Copies) (inv : IsIsolated s) where
  arrives-IsIsolated : (raw : List ℕ) (pick : ℕ) → LeadsTo (fire_copy grow (arrives raw pick) s)
  unfolding fire_copy
  arrives-IsIsolated raw pick =
      let got = get_buffer_lem inv.owner s.heap inv.kept (length s.calls) pick in
      record {
        owner = got.owner';
        kept = got.kept;
        held = λ j c e. elim (get_elem?-snoc s.calls _ j c e) [
          | inl old ↦ Holds-frame j (got.others j) c.raw c.stage (inv.held j c old)
          | inr (last, new) ↦ rw (last, new) got.mine
        ];
      }

  Onward-held :
      (i : ℕ) (raw : List ℕ) (st' : Stage) (h' : Heap)
      → Onward i raw inv.owner s.heap st' h'
      → IsIsolated (record { heap = h'; calls = set s.calls i (record { raw = raw; stage = st' }) })
  Onward-held i raw st' h' on = record {
    owner = on.owner';
    kept = on.kept;
    held = λ j c e. elim (get_elem?-set s.calls i _ j c e) [
      | inl (here, new) ↦ rw (here, new) on.mine
      | inr (other, old) ↦ Holds-frame j (on.others j other) c.raw c.stage (inv.held j c old)
    ];
  }

  moved-IsIsolated :
      (i : ℕ) (raw : List ℕ) (o : Option (Stage × Heap))
      → After i raw inv.owner s.heap o
      → LeadsTo (moved grow i raw s.calls o)
  moved-IsIsolated i raw none h = tt
  moved-IsIsolated i raw (some (st', h')) h = Onward-held i raw st' h' h

  resumes-IsIsolated : (i : ℕ) → LeadsTo (fire_copy grow (resumes i) s)
  unfolding fire_copy
  resumes-IsIsolated i = elim (Option-cases (get_elem? s.calls i)) [
    | inl e ↦ rw e tt
    | inr (c, e) ↦ rw e (
        moved-IsIsolated i c.raw (next_statement grow c.raw c.stage s.heap)
          (next_statement_lem i c.raw inv.owner s.heap inv.kept grow c.stage (inv.held i c e)))
  ]

  forgets-IsIsolated : (i : ℕ) → LeadsTo (fire_copy grow (forgets i) s)
  unfolding fire_copy
  forgets-IsIsolated i = record {
    owner = inv.owner;
    kept = record {
      fresh = inv.kept.fresh;
      stocked = All-erase_idx (IsStocked inv.owner s.heap.cells) s.heap.pool i inv.kept.stocked;
      apart = IsApart-erase_idx s.heap.pool i inv.kept.apart;
    };
    held = inv.held;
  }

  pub fire_copy-IsIsolated : (mv : CopyMove) → LeadsTo (fire_copy grow mv s)
  fire_copy-IsIsolated (arrives raw pick) = arrives-IsIsolated raw pick
  fire_copy-IsIsolated (resumes i) = resumes-IsIsolated i
  fire_copy-IsIsolated (forgets i) = forgets-IsIsolated i

module _ (grow : ℕ → ℕ → ℕ) where
  pub run_copies-IsIsolated :
      (mvs : List CopyMove) (s t : Copies)
      → IsIsolated s
      → run_copies grow mvs s ≡ some t
      → IsIsolated t
  unfolding run_copies
  run_copies-IsIsolated [] s t inv ran = subst LeadsTo ran inv
  run_copies-IsIsolated (mv ∷ mvs) s t inv ran =
      let one = fire_copy-IsIsolated grow s inv mv in
      elim (Option-cases (fire_copy grow mv s)) [
        | inl e ↦ absurd (cc)
        | inr (u, e) ↦
            run_copies-IsIsolated mvs u t (subst LeadsTo e one) (rw (run_copies, e) at ran)
      ]

  pub no_copies-IsIsolated : IsIsolated no_copies
  unfolding no_copies
  no_copies-IsIsolated = record {
    owner = λ a. unused;
    kept = record { fresh = λ a far. refl; stocked = tt; apart = tt };
    held = λ j c e. absurd (cc);
  }
