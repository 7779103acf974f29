-- ===== src/Metrics/Total.antt =====
-- Sums over a log.
use api_observability_platfo.Base.{
  ℕ, zero, suc, ◌+◌, ◌≡◌, some, List, [], ◌∷◌, ◌++◌, arith, get_elem?, set, erase_idx, replicate,
}

module _ {ℓ} {A : Type ℓ} where
  abbrev pub total : (A → ℕ) → List A → ℕ
  total f [] = 0
  total f (x ∷ xs) = f x + total f xs

  pub total-append : (f : A → ℕ) (xs ys : List A) → total f (xs ++ ys) ≡ total f xs + total f ys
  total-append f [] ys = omega arith
  total-append f (x ∷ xs) ys = omega (arith, total-append f xs ys)

  -- The effect on a sum of a write or of a removal at an index that is in range.
  pub total-set :
      (f : A → ℕ) (xs : List A) (i : ℕ) (v x : A)
      → get_elem? xs i ≡ some x
      → total f (set xs i v) + f x ≡ total f xs + f v
  total-set f [] i v x h = ground arith
  total-set f (y ∷ xs) zero v x h = ground arith
  total-set f (y ∷ xs) (suc i) v x h = omega (arith, total-set f xs i v x h)

  pub total-erase_idx :
      (f : A → ℕ) (xs : List A) (i : ℕ) (x : A)
      → get_elem? xs i ≡ some x
      → total f (erase_idx xs i) + f x ≡ total f xs
  total-erase_idx f [] i x h = ground arith
  total-erase_idx f (y ∷ xs) zero x h = ground arith
  total-erase_idx f (y ∷ xs) (suc i) x h = omega (arith, total-erase_idx f xs i x h)

  pub total-replicate_zero : (f : A → ℕ) (n : ℕ) (a : A) → f a ≡ 0 → total f (replicate n a) ≡ 0
  total-replicate_zero f zero a h = omega arith
  total-replicate_zero f (suc n) a h = omega (arith, total-replicate_zero f n a h)
