-- ===== src/Base/Reads.antt =====
-- Reads and writes of a list at an index, and predicates on its elements.
use Prim.Native.Nat.{ℕ, zero, suc, ◌≤◌}
use mathlib.Core.Path.{◌≡◌, refl, ap, subst}
use mathlib.Core.Logic.{◌≢◌, ◌⊎◌, inl, inr}
use mathlib.Core.List.{List, [], ◌∷◌, ◌++◌, map}
use mathlib.Core.Option.{some, map as map_option}
use native.Mathlib.Omega.{arith}
use api_observability_platfo.Base.Lists.{length, get_elem?, erase_idx, set, drop, All}

module _ {ℓ} {A : Type ℓ} where
  pub All-map {κ μ} :
      {P : A → Type κ} {Q : A → Type μ}
      → ((a : A) → P a → Q a)
      → (xs : List A) → All P xs
      → All Q xs
  All-map f [] h = tt
  All-map f (x ∷ xs) h = (f x h.0, All-map f xs h.1)

  pub All-get_elem? {κ} :
      (P : A → Type κ) (xs : List A) (i : ℕ) (a : A) → All P xs → get_elem? xs i ≡ some a → P a
  All-get_elem? P [] i a h e = absurd (cc)
  All-get_elem? P (x ∷ xs) zero a h e = subst P (cc) h.0
  All-get_elem? P (x ∷ xs) (suc i) a h e = All-get_elem? P xs i a h.1 e

  pub get_elem?-set :
      (cs : List A) (i : ℕ) (v : A) (j : ℕ) (c : A)
      → get_elem? (set cs i v) j ≡ some c
      → ((j ≡ i) × (c ≡ v)) ⊎ ((j ≢ i) × (get_elem? cs j ≡ some c))
  get_elem?-set [] i v j c e = absurd (cc)
  get_elem?-set (x ∷ cs) zero v zero c e = inl (refl, cc)
  get_elem?-set (x ∷ cs) zero v (suc j) c e = inr (λ q. absurd (omega (arith, q)), e)
  get_elem?-set (x ∷ cs) (suc i) v zero c e = inr (λ q. absurd (omega (arith, q)), e)
  get_elem?-set (x ∷ cs) (suc i) v (suc j) c e = elim (get_elem?-set cs i v j c e) [
    | inl (q, h) ↦ inl (ap suc q, h)
    | inr (q, h) ↦ inr (λ g. q (omega (arith, g)), h)
  ]

  pub get_elem?-snoc :
      (cs : List A) (v : A) (j : ℕ) (c : A)
      → get_elem? (cs ++ v ∷ []) j ≡ some c
      → (get_elem? cs j ≡ some c) ⊎ ((j ≡ length cs) × (c ≡ v))
  get_elem?-snoc [] v zero c e = inr (refl, cc)
  get_elem?-snoc [] v (suc j) c e = absurd (cc)
  get_elem?-snoc (x ∷ cs) v zero c e = inl e
  get_elem?-snoc (x ∷ cs) v (suc j) c e = elim (get_elem?-snoc cs v j c e) [
    | inl h ↦ inl h
    | inr (q, h) ↦ inr (ap suc q, h)
  ]

pub get_elem?-last {ℓ} :
    {A : Type ℓ} (cs : List A) (c : A) → get_elem? (cs ++ c ∷ []) (length cs) ≡ some c
get_elem?-last [] c = refl
get_elem?-last (x ∷ cs) c = get_elem?-last cs c

pub set-last {ℓ} :
    {A : Type ℓ} (cs : List A) (c d : A) → set (cs ++ c ∷ []) (length cs) d ≡ cs ++ d ∷ []
set-last [] c d = refl
set-last (x ∷ cs) c d = ap (◌∷◌ x) (set-last cs c d)

pub get_elem?-map {ℓ κ} :
    {A : Type ℓ} {B : Type κ} (f : A → B) (xs : List A) (i : ℕ)
    → get_elem? (map f xs) i ≡ map_option f (get_elem? xs i)
get_elem?-map f [] i = refl
get_elem?-map f (x ∷ xs) zero = refl
get_elem?-map f (x ∷ xs) (suc i) = get_elem?-map f xs i

pub erase_idx-map {ℓ κ} :
    {A : Type ℓ} {B : Type κ} (f : A → B) (xs : List A) (i : ℕ)
    → erase_idx (map f xs) i ≡ map f (erase_idx xs i)
erase_idx-map f [] i = refl
erase_idx-map f (x ∷ xs) zero = refl
erase_idx-map f (x ∷ xs) (suc i) = ap (◌∷◌ (f x)) (erase_idx-map f xs i)

pub map_same {ℓ κ} :
    {A : Type ℓ} {B : Type κ} (f g : A → B) (xs : List A)
    → All (λ x. f x ≡ g x) xs
    → map f xs ≡ map g xs
map_same f g [] h = refl
map_same f g (x ∷ xs) h = rw (h.0, map_same f g xs h.1)

pub All-both {ℓ κ μ} :
    {A : Type ℓ} (P : A → Type κ) (Q : A → Type μ) (xs : List A)
    → All P xs
    → All Q xs
    → All (λ x. P x × Q x) xs
All-both P Q [] hp hq = tt
All-both P Q (x ∷ xs) hp hq = ((hp.0, hq.0), All-both P Q xs hp.1 hq.1)

pub drop_over {ℓ} : {A : Type ℓ} (n : ℕ) (xs : List A) → length xs ≤ n → drop n xs ≡ []
drop_over zero [] h = refl
drop_over zero (x ∷ xs) h = absurd (omega arith)
drop_over (suc n) [] h = refl
drop_over (suc n) (x ∷ xs) h = drop_over n xs (omega arith)
