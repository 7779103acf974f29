-- ===== src/Collector/Pool/Memory/Owners.antt =====
-- Who owns an address, and what each call may rely on.
use api_observability_platfo.Base.{
  ℕ, zero, suc, ◌≤◌, ◌≡◌, ◌≢◌, sym, some, List, [], ◌∷◌, arith, length, get_elem?, erase_idx, All,
  All-erase_idx, All-get_elem?,
}
use mathlib.Core.Path.{subst}
use api_observability_platfo.Collector.Pool.{Buffer}
use api_observability_platfo.Collector.Pool.Isolation.{IsClean}
use api_observability_platfo.Collector.Pool.Memory.{
  Heap, Stage, taken, cleared, filled, made, copied, rewound, returned, assign,
}

pub data Role : Type 0 where
  buffer : Role
  output : Role

pub data Owner : Type 0 where
  unused : Owner
  pooled : Owner
  owned : ℕ → Role → Owner

-- What a call may rely on at each statement.
abbrev pub Holds : (ℕ → Owner) → (ℕ → Buffer) → ℕ → List ℕ → Stage → Type 0
Holds owner cells i raw (taken a) = owner a ≡ owned i buffer
Holds owner cells i raw (cleared a) = (owner a ≡ owned i buffer) × ((cells a).content ≡ [])
Holds owner cells i raw (filled a) = (owner a ≡ owned i buffer) × ((cells a).content ≡ raw)
Holds owner cells i raw (made a out) =
    (owner a ≡ owned i buffer)
    × ((cells a).content ≡ raw)
    × (owner out ≡ owned i output)
    × (length (cells out).content ≡ length raw)
Holds owner cells i raw (copied a out) =
    (owner a ≡ owned i buffer) × (owner out ≡ owned i output) × ((cells out).content ≡ raw)
Holds owner cells i raw (rewound a out) =
    (owner a ≡ owned i buffer)
    × ((cells a).content ≡ [])
    × (owner out ≡ owned i output)
    × ((cells out).content ≡ raw)
Holds owner cells i raw (returned out) = (owner out ≡ owned i output) × ((cells out).content ≡ raw)

abbrev pub IsApart : List ℕ → Type 0
IsApart [] = Unit
IsApart (a ∷ ps) = All (λ b. b ≢ a) ps × IsApart ps

abbrev pub IsStocked : (ℕ → Owner) → (ℕ → Buffer) → ℕ → Type 0
IsStocked owner cells a = (owner a ≡ pooled) × IsClean (cells a)

-- The owners fit the memory: the heap's own part.
pub record IsKept (owner : ℕ → Owner) (h : Heap) : Type 0 where
  pub fresh : (a : ℕ) → h.next ≤ a → owner a ≡ unused
  pub stocked : All (IsStocked owner h.cells) h.pool
  pub apart : IsApart h.pool

module _ {ℓ} {A : Type ℓ} where
  pub assign_same : (f : ℕ → A) (p : ℕ) (v : A) → assign f p v p ≡ v
  unfolding assign
  assign_same f p v = ground arith

  pub assign_other : (f : ℕ → A) (p : ℕ) (v : A) (a : ℕ) → a ≢ p → assign f p v a ≡ f a
  unfolding assign
  assign_other f p v a h = ground arith

pub IsApart-erase_idx : (ps : List ℕ) (i : ℕ) → IsApart ps → IsApart (erase_idx ps i)
IsApart-erase_idx [] i h = h
IsApart-erase_idx (a ∷ ps) zero h = h.1
IsApart-erase_idx (a ∷ ps) (suc i) h = (All-erase_idx _ ps i h.0, IsApart-erase_idx ps i h.1)

-- What was taken out of the pool is not in it any more.
pub erased_apart :
    (ps : List ℕ) (i a : ℕ)
    → IsApart ps
    → get_elem? ps i ≡ some a
    → All (λ b. b ≢ a) (erase_idx ps i)
erased_apart [] i a h e = tt
erased_apart (b ∷ ps) zero a h e = subst (λ c. All (λ d. d ≢ c) ps) (cc) h.0
erased_apart (b ∷ ps) (suc i) a h e =
    (λ same. All-get_elem? (λ c. c ≢ b) ps i a h.0 e (sym same), erased_apart ps i a h.1 e)
