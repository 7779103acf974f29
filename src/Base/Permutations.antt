-- ===== src/Base/Permutations.antt =====
-- Rearrangements of lists that stand behind each other.
use mathlib.Core.Path.{◌≡◌, sym, subst}
use mathlib.Core.List.{
  List, [], ◌∷◌, ◌++◌, Perm, append_assoc, perm_append_comm, perm_append_singleton,
}
use mathlib.Core.List.Perm

module _ {ℓ} {A : Type ℓ} where
  pub alike : {xs ys : List A} → xs ≡ ys → Perm xs ys
  alike {xs} e = subst (Perm xs) e Perm.rfl

  -- Two neighbours change places.
  pub swap_front : (xs ys zs : List A) → Perm (xs ++ (ys ++ zs)) (ys ++ (xs ++ zs))
  swap_front xs ys zs =
      Perm.trans (alike (sym (append_assoc xs ys zs)))
        (Perm.trans (Perm.append_right zs (perm_append_comm xs ys)) (alike (append_assoc ys xs zs)))

  -- What is put behind the whole may be put behind its first part.
  pub grow_first :
      {xs : List A} (ys zs new : List A) → Perm xs (ys ++ zs) → Perm (xs ++ new) ((ys ++ new) ++ zs)
  grow_first ys zs new p = Perm.trans (Perm.append_right new p) (
      Perm.trans (alike (append_assoc ys zs new)) (
        Perm.trans (Perm.append_left ys (perm_append_comm zs new))
          (alike (sym (append_assoc ys new zs)))))

  -- A job that arrives with a group in the middle, and one that moves from there to the last.
  pub hand_on :
      {a : A} {all ys' : List A} (xs ys zs : List A)
      → Perm all (xs ++ (ys ++ zs))
      → Perm ys' (a ∷ ys)
      → Perm (all ++ a ∷ []) (xs ++ (ys' ++ zs))
  hand_on {a} {all} xs ys zs p q = Perm.trans (perm_append_singleton a all) (
      Perm.trans (Perm.cons a p) (
        Perm.trans (swap_front (a ∷ []) xs (ys ++ zs))
          (Perm.append_left xs (Perm.append_right zs (Perm.symm q)))))

  pub put_away :
      {a : A} {all ys : List A} (xs ys' zs : List A)
      → Perm all (xs ++ (ys ++ zs))
      → Perm (a ∷ ys') ys
      → Perm all (xs ++ (ys' ++ (zs ++ a ∷ [])))
  put_away {a} xs ys' zs p q = Perm.trans p (
      Perm.append_left xs (
        Perm.trans (Perm.append_right zs (Perm.symm q)) (
          Perm.trans (Perm.symm (perm_append_singleton a (ys' ++ zs)))
            (alike (append_assoc ys' zs (a ∷ []))))))
