-- ===== src/Processor/Runner/Restarts/Logs.antt =====
-- Partitions and their parts.
use api_observability_platfo.Base.{
  ℕ, zero, suc, ◌+◌, ◌≡◌, refl, ap, ◌==◌, Bool-cases, inl, inr, List, [], ◌∷◌, ◌++◌, arith, All,
  length, take, take_all, take-append_le, drop, ◌∙◌,
}
use Prim.Native.Nat.{max}
use mathlib.Core.Path.{subst}
use native.Mathlib.Nat.{zero-add, suc-add}
use api_observability_platfo.Processor.Runner.{Message}
use api_observability_platfo.Processor.Runner.Faults.{behind}
use api_observability_platfo.Processor.Runner.Restarts.{IsLog, of_partition}

module _ {ℓ κ} {A : Type ℓ} (P : A → Type κ) where
  pub All-drop : (n : ℕ) (xs : List A) → All P xs → All P (drop n xs)
  All-drop zero xs h = h
  All-drop (suc n) [] h = tt
  All-drop (suc n) (x ∷ xs) h = All-drop n xs h.1

  pub All-front : (xs ys : List A) → All P (xs ++ ys) → All P xs
  All-front [] ys h = tt
  All-front (x ∷ xs) ys h = (h.0, All-front xs ys h.1)

-- What follows the first elements of a list lengthens them.
pub take-front {ℓ} :
    {A : Type ℓ} (n : ℕ) (xs ys all : List A)
    → xs ++ ys ≡ drop n all
    → take (n + length xs) all ≡ take n all ++ xs
take-front zero xs ys all h =
    rw (zero-add, ← h)
      (take-append_le (length xs) xs ys (omega arith) ∙ take_all (length xs) xs (omega arith))
take-front (suc n) [] ys [] h = ground arith
take-front (suc n) (x ∷ xs) ys [] h = cc
take-front (suc n) xs ys (a ∷ all) h = rw suc-add (ap (◌∷◌ a) (take-front n xs ys all h))

pub IsLog-drop : (p n k : ℕ) (log : List Message) → IsLog p n log → IsLog p (n + k) (drop k log)
IsLog-drop p n zero log h = subst (λ k. IsLog p k log) (omega arith) h
IsLog-drop p n (suc k) [] h = tt
IsLog-drop p n (suc k) (m ∷ ms) h =
    subst (λ q. IsLog p q (drop k ms)) (omega arith) (IsLog-drop p (suc n) k ms h.2)

pub IsLog-front : (p n : ℕ) (xs ys : List Message) → IsLog p n (xs ++ ys) → IsLog p n xs
IsLog-front p n [] ys h = tt
IsLog-front p n (x ∷ xs) ys h = (h.0, h.1, IsLog-front p (suc n) xs ys h.2)

-- The position behind a part of a partition.
pub behind-IsLog :
    (p n : ℕ) (ms : List Message) → IsLog p n ms → max n (behind p ms) ≡ n + length ms
behind-IsLog p n [] h = omega arith
behind-IsLog p n (m ∷ ms) h = ground (arith, behind-IsLog p (suc n) ms h.2)

pub behind-append :
    (p : ℕ) (xs ys : List Message) → behind p (xs ++ ys) ≡ max (behind p xs) (behind p ys)
behind-append p [] ys = omega arith
behind-append p (x ∷ xs) ys = ground (arith, behind-append p xs ys)

pub All-behind {ℓ κ} : {A : Type ℓ} (P : A → Type κ) (xs ys : List A) → All P (xs ++ ys) → All P ys
All-behind P [] ys h = h
All-behind P (x ∷ xs) ys h = All-behind P xs ys h.1

pub of_partition-append :
    (p : ℕ) (xs ys : List Message)
    → of_partition p (xs ++ ys) ≡ of_partition p xs ++ of_partition p ys
of_partition-append p [] ys = refl
of_partition-append p (x ∷ xs) ys = elim (Bool-cases (x.partition == p)) [
  | inl own ↦ rw own (ap (◌∷◌ x) (of_partition-append p xs ys))
  | inr other ↦ rw other (of_partition-append p xs ys)
]

pub behind-of_partition : (p : ℕ) (ms : List Message) → behind p (of_partition p ms) ≡ behind p ms
behind-of_partition p [] = refl
behind-of_partition p (m ∷ ms) = ground (arith, behind-of_partition p ms)

-- A list of messages of one partition.
pub of_partition-All :
    (p : ℕ) (ms : List Message) → All (λ m. m.partition ≡ p) ms → of_partition p ms ≡ ms
of_partition-All p [] h = refl
of_partition-All p (m ∷ ms) h = ground (arith, h.0, of_partition-All p ms h.1)

pub All-of_partition {κ} :
    (P : Message → Type κ) (p : ℕ) (ms : List Message)
    → All P (of_partition p ms)
    → All (λ m. m.partition ≡ p → P m) ms
All-of_partition P p [] h = tt
All-of_partition P p (m ∷ ms) h = elim (Bool-cases (m.partition == p)) [
  | inl own ↦
      let both : All P (m ∷ of_partition p ms) = rw own at h in
      (λ e. both.0, All-of_partition P p ms both.1)
  | inr other ↦ (λ e. absurd (ground (arith, other, e)), All-of_partition P p ms (rw other at h))
]
