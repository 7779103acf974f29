-- ===== src/Collector/Pool/Memory/Frame.antt =====
-- What a change at one address leaves as it is.
use api_observability_platfo.Base.{
  ℕ, ◌≤◌, ◌<◌, ◌≡◌, ◌≢◌, sym, ap, ◌∙◌, List, [], ◌∷◌, arith, length, All, All-map,
}
use native.Mathlib.Decide.{dec_le}
use mathlib.Core.Path.{subst}
use api_observability_platfo.Collector.Pool.{Buffer}
use api_observability_platfo.Collector.Pool.Isolation.{IsClean}
use api_observability_platfo.Collector.Pool.Memory.{
  Heap, Stage, taken, cleared, filled, made, copied, rewound, returned, assign,
}
use api_observability_platfo.Collector.Pool.Memory.Owners.{
  Role, Owner, unused, pooled, owned, Holds, IsStocked, IsKept, assign_other,
}

module _ {owner owner' : ℕ → Owner} {cells cells' : ℕ → Buffer} (j : ℕ)
    (same : (r : Role) (a : ℕ)
      → owner a ≡ owned j r
      → (owner' a ≡ owned j r) × (cells' a ≡ cells a)) where
  abbrev like :
      {r : Role} (a : ℕ) → owner a ≡ owned j r → (P : Buffer → Type 0) → P (cells a) → P (cells' a)
  like {r} a h P x = subst P (sym (same r a h).1) x

  -- A call keeps what it may rely on when its own addresses stay as they are.
  pub Holds-frame :
      (raw : List ℕ) (st : Stage) → Holds owner cells j raw st → Holds owner' cells' j raw st
  Holds-frame raw (taken a) h = (same _ a h).0
  Holds-frame raw (cleared a) (h, e) = ((same _ a h).0, like a h (λ b. b.content ≡ []) e)
  Holds-frame raw (filled a) (h, e) = ((same _ a h).0, like a h (λ b. b.content ≡ raw) e)
  Holds-frame raw (made a out) (h, e, g, d) = (
    (same _ a h).0,
    like a h (λ b. b.content ≡ raw) e,
    (same _ out g).0,
    like out g (λ b. length b.content ≡ length raw) d,
  )
  Holds-frame raw (copied a out) (h, g, d) =
      ((same _ a h).0, (same _ out g).0, like out g (λ b. b.content ≡ raw) d)
  Holds-frame raw (rewound a out) (h, e, g, d) = (
    (same _ a h).0,
    like a h (λ b. b.content ≡ []) e,
    (same _ out g).0,
    like out g (λ b. b.content ≡ raw) d,
  )
  Holds-frame raw (returned out) (g, d) = ((same _ out g).0, like out g (λ b. b.content ≡ raw) d)

-- An address with an owner is below the first unused one.
pub owned_below :
    (owner : ℕ → Owner) (h : Heap) (a : ℕ) → IsKept owner h → owner a ≢ unused → a < h.next
owned_below owner h a kept used = elim (dec_le h.next a) [
  | yes far ↦ absurd (used (kept.fresh a far))
  | no near ↦ omega arith
]

module _ (owner : ℕ → Owner) (p : ℕ) (o' : Owner) (cells cells' : ℕ → Buffer)
    (off : (a : ℕ) → a ≢ p → cells' a ≡ cells a) where
  -- A call that does not own the address sees no change.
  pub unseen :
      (j : ℕ)
      → ((r : Role) → owner p ≢ owned j r)
      → (r : Role) (a : ℕ) → owner a ≡ owned j r
      → (assign owner p o' a ≡ owned j r) × (cells' a ≡ cells a)
  unseen j foreign r a h =
      let away : a ≢ p = λ e. foreign r (ap owner (sym e) ∙ h) in
      (assign_other owner p o' a away ∙ h, off a away)

  pub IsStocked-off :
      (pool : List ℕ)
      → All (λ b. b ≢ p) pool
      → All (IsStocked owner cells) pool
      → All (IsStocked (assign owner p o') cells') pool
  IsStocked-off [] away h = tt
  IsStocked-off (b ∷ pool) away h = (
    (assign_other owner p o' b away.0 ∙ h.0.0, subst IsClean (sym (off b away.0)) h.0.1),
    IsStocked-off pool away.1 h.1,
  )

  -- The heap stays kept if the address was not pooled.
  pub IsKept-off :
      (next next' : ℕ) (pool : List ℕ)
      → owner p ≢ pooled
      → next ≤ next'
      → p < next'
      → IsKept owner (record { cells = cells; next = next; pool = pool })
      → IsKept (assign owner p o') (record { cells = cells'; next = next'; pool = pool })
  IsKept-off next next' pool other more below kept = record {
    fresh = λ a far.
        assign_other owner p o' a (λ e. absurd (omega (arith, e, far, below)))
        ∙ kept.fresh a (omega arith);
    stocked =
        IsStocked-off pool (All-map (λ b h e. other (ap owner (sym e) ∙ h.0)) pool kept.stocked)
          kept.stocked;
    apart = kept.apart;
  }
