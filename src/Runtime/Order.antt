-- ===== src/Runtime/Order.antt =====
-- The order in which `CloseAll` calls the closers.
use api_observability_platfo.Base.{
  ℕ, zero, suc, ◌≡◌, refl, sym, ap, ◌∙◌, Option, none, some, append_assoc, append-nil, List, [],
  ◌∷◌, ◌++◌, length, take, take_all, get_elem?, arith, reverse, ◌≤◌, ◌<◌,
}
use mathlib.Core.List.{reverse-append}
use api_observability_platfo.Domain.{Error}
use api_observability_platfo.Runtime.{Closer, add, call_close, close_from, close_all}

take-suc {ℓ} :
    {A : Type ℓ} (n : ℕ) (xs : List A)
    → n < length xs
    → (x : A) × (get_elem? xs n ≡ some x) × (take (suc n) xs ≡ take n xs ++ x ∷ [])
take-suc n [] h = absurd (omega arith)
take-suc zero (x ∷ xs) h = (x, refl, refl)
take-suc (suc n) (x ∷ xs) h =
    let (y, found, cut) = take-suc n xs (omega arith) in (y, found, ap (◌∷◌ x) cut)

abbrev pub error_of : Option Error → List Error
error_of none = []
error_of (some e) = e ∷ []

module _ {W : Type 0} where
  -- One closer after the other, from the head on, whatever they return: their errors in this order, and
  -- the world.
  pub call_each : List (Closer W) → W → List Error × W
  call_each [] w = ([], w)
  call_each (fn ∷ fns) w =
      let (err, w') = fn w in let (errs, w'') = call_each fns w' in (error_of err ++ errs, w'')

  behind : List Error → List Error × W → List Error × W
  behind log (errs, w) = (log ++ errs, w)

  call_close_lem :
      (fn : Closer W) (log : List Error) (w : W)
      → call_close (some fn) log w ≡ (log ++ error_of (fn w).0, (fn w).1)
  unfolding call_close
  call_close_lem fn log w = ground (arith, append-nil log)

  close_from-reverse :
      (n : ℕ) (fns : List (Closer W)) (log : List Error) (w : W)
      → n ≤ length fns
      → close_from n fns log w ≡ behind log (call_each (reverse (take n fns)) w)
  unfolding close_from call_each behind
  close_from-reverse zero fns log w h = ap (λ q. (q, w)) (sym (append-nil log))
  close_from-reverse (suc n) fns log w h =
      let (fn, found, cut) = take-suc n fns (omega arith) in
      let last_first : reverse (take (suc n) fns) ≡ fn ∷ reverse (take n fns) =
        ap reverse cut ∙ reverse-append (take n fns) (fn ∷ []) in
      let (errs, w') = call_each (reverse (take n fns)) (fn w).1 in
      rw (last_first, found, call_close_lem fn log w)
        (close_from-reverse n fns (log ++ error_of (fn w).0) (fn w).1 (omega arith)
          ∙ ap (λ q. (q, w')) (append_assoc log (error_of (fn w).0) errs))

  -- `CloseAll` calls every closer that was added, once, the last added first, also behind closers
  -- that fail, and logs the errors in the order of the calls.
  pub close_all-reverse :
      (fns : List (Closer W)) (w : W) → close_all fns w ≡ call_each (reverse fns) w
  unfolding close_all behind
  close_all-reverse fns w =
      close_from-reverse (length fns) fns [] w (omega arith)
      ∙ ap (λ q. call_each (reverse q) w) (take_all (length fns) fns (omega arith))

  -- So a closer that is added later is called before all that were there.
  pub close_all-add :
      (fn : Closer W) (fns : List (Closer W)) (w : W)
      → close_all (add fn fns) w ≡ call_each (fn ∷ reverse fns) w
  unfolding add
  close_all-add fn fns w =
      close_all-reverse (fns ++ fn ∷ []) w ∙ ap (λ q. call_each q w) (reverse-append fns (fn ∷ []))
