-- ===== src/Collector/Pool/Memory/Statements.antt =====
-- Every statement of a call keeps the memory in order and leaves the other calls alone.
use api_observability_platfo.Base.{
  ℕ, suc, ◌≡◌, ◌≢◌, refl, sym, ap, ◌∙◌, Option, none, some, List, [], arith, length,
  length-replicate, take_all, append-nil, ltb, Bool-cases, inl, inr, All-map, drop_over,
}
use mathlib.Core.Path.{subst}
use api_observability_platfo.Collector.Pool.{Buffer, reset, write, max_pooled_buffer_cap}
use api_observability_platfo.Collector.Pool.Isolation.{content-write}
use api_observability_platfo.Collector.Pool.Memory.{
  Heap, Stage, taken, cleared, filled, made, copied, rewound, returned, assign, store, allocate,
  zeros, copy_into, give_back, next_statement,
}
use api_observability_platfo.Collector.Pool.Memory.Owners.{
  Role, buffer, output, Owner, unused, pooled, owned, Holds, IsKept, assign_same, assign_other,
}
use api_observability_platfo.Collector.Pool.Memory.Frame.{owned_below, unseen, IsKept-off}

-- What a statement of call `i` leads to.
pub record Onward (i : ℕ) (raw : List ℕ) (owner : ℕ → Owner) (h : Heap) (st' : Stage) (h' : Heap)
    : Type 0 where
  pub owner' : ℕ → Owner
  pub kept : IsKept owner' h'
  pub mine : Holds owner' h'.cells i raw st'
  pub others :
      (j : ℕ)
      → j ≢ i
      → (r : Role) (a : ℕ) → owner a ≡ owned j r
      → (owner' a ≡ owned j r) × (h'.cells a ≡ h.cells a)

abbrev pub After : ℕ → List ℕ → (ℕ → Owner) → Heap → Option (Stage × Heap) → Type 0
After i raw owner h none = Unit
After i raw owner h (some (st', h')) = Onward i raw owner h st' h'

pub content-copy_into :
    (out : Buffer) (src : List ℕ)
    → length out.content ≡ length src
    → (copy_into out src).content ≡ src
content-copy_into out src e = rw (
  take_all (length out.content) src (omega (arith, e)),
  drop_over (length src) out.content (omega (arith, e)),
  append-nil,
)

module _ (i : ℕ) (raw : List ℕ) (owner : ℕ → Owner) (h : Heap) (kept : IsKept owner h) where
  foreign :
      {p : ℕ} {q : Role} → owner p ≡ owned i q → (j : ℕ) → j ≢ i → (r : Role) → owner p ≢ owned j r
  foreign e j other r g = other (cc)

  apart_roles : {a out : ℕ} → owner a ≡ owned i buffer → owner out ≡ owned i output → a ≢ out
  apart_roles e g same = absurd (cc)

  -- A write to an address of the call's own.
  own_write :
      (p : ℕ) (q : Role) (b : Buffer) (st' : Stage)
      → owner p ≡ owned i q
      → Holds (assign owner p (owned i q)) (assign h.cells p b) i raw st'
      → Onward i raw owner h st' (store p b h)
  own_write p q b st' e mine =
      let off = assign_other h.cells p b in
      record {
        owner' = assign owner p (owned i q);
        kept =
            IsKept-off owner p (owned i q) h.cells (assign h.cells p b) off h.next h.next h.pool
              (λ g. absurd (cc)) (omega arith) (owned_below owner h p kept (λ g. absurd (cc))) kept;
        mine = mine;
        others = λ j other.
            unseen owner p (owned i q) h.cells (assign h.cells p b) off j (foreign e j other);
      }

  made_lem :
      (a : ℕ)
      → owner a ≡ owned i buffer
      → (h.cells a).content ≡ raw
      → Onward i raw owner h (made a h.next) (allocate (zeros (length (h.cells a).content)) h)
  made_lem a e full =
      let b = zeros (length (h.cells a).content) in
      let p = h.next in
      let free : owner p ≡ unused = kept.fresh p (omega arith) in
      let away : a ≢ p = λ g. absurd (cc) in
      let off = assign_other h.cells p b in
      record {
        owner' = assign owner p (owned i output);
        kept =
            IsKept-off owner p (owned i output) h.cells (assign h.cells p b) off h.next (suc h.next)
              h.pool (λ g. absurd (cc)) (omega arith) (omega arith) kept;
        mine = (
          assign_other owner p (owned i output) a away ∙ e,
          ap (λ c. c.content) (off a away) ∙ full,
          assign_same owner p (owned i output),
          ap (λ c. length c.content) (assign_same h.cells p b)
              ∙ length-replicate (length (h.cells a).content) 0
              ∙ ap length full,
        );
        others = λ j other.
            unseen owner p (owned i output) h.cells (assign h.cells p b) off j (λ r g. absurd (cc));
      }

  give_back_lem :
      (a out : ℕ)
      → owner a ≡ owned i buffer
      → (h.cells a).content ≡ []
      → owner out ≡ owned i output
      → (h.cells out).content ≡ raw
      → Onward i raw owner h (returned out) (give_back a h)
  unfolding give_back
  give_back_lem a out e empty g full =
      elim (Bool-cases (ltb max_pooled_buffer_cap (h.cells a).capacity)) [
        | inl large ↦ rw large (record {
          owner' = owner;
          kept = kept;
          mine = (g, full);
          others = λ j other r b x. (x, refl);
        })
        | inr small ↦ rw small (
            let rest =
              IsKept-off owner a pooled h.cells h.cells (λ b x. refl) h.next h.next h.pool
                (λ x. absurd (cc)) (omega arith) (owned_below owner h a kept (λ x. absurd (cc)))
                kept in
            record {
              owner' = assign owner a pooled;
              kept = record {
                fresh = rest.fresh;
                stocked = (
                  (
                    assign_same owner a pooled,
                    record { no_content = empty; capped = ground (arith, small) },
                  ),
                  rest.stocked,
                );
                apart = (All-map (λ b x y. absurd (cc)) h.pool kept.stocked, kept.apart);
              };
              mine = (assign_other owner a pooled out (λ x. absurd (cc)) ∙ g, full);
              others = λ j other.
                  unseen owner a pooled h.cells h.cells (λ b x. refl) j (foreign e j other);
            })
      ]

  module _ (grow : ℕ → ℕ → ℕ) where
    -- The next statement of a call that may rely on what it should leads to a memory in order.
    pub next_statement_lem :
        (st : Stage)
        → Holds owner h.cells i raw st
        → After i raw owner h (next_statement grow raw st h)
    unfolding next_statement
    next_statement_lem (taken a) e =
        own_write a buffer (reset (h.cells a)) (cleared a) e
          (assign_same owner a _, ap (λ c. c.content) (assign_same h.cells a _))
    next_statement_lem (cleared a) (e, empty) =
        own_write a buffer (write grow raw (h.cells a)) (filled a) e (
          assign_same owner a _,
          ap (λ c. c.content) (assign_same h.cells a _)
              ∙ subst (λ c. (write grow raw (record (h.cells a) { content = c })).content ≡ raw)
                  (sym empty) (content-write grow raw (h.cells a)),
        )
    next_statement_lem (filled a) (e, full) = made_lem a e full
    next_statement_lem (made a out) (e, full, g, room) =
        let away = apart_roles e g in
        own_write out output (copy_into (h.cells out) (h.cells a).content) (copied a out) g (
          assign_other owner out _ a away ∙ e,
          assign_same owner out _,
          ap (λ c. c.content) (assign_same h.cells out _)
              ∙ content-copy_into (h.cells out) (h.cells a).content (room ∙ ap length (sym full))
              ∙ full,
        )
    next_statement_lem (copied a out) (e, g, full) =
        let away : out ≢ a = λ x. apart_roles e g (sym x) in
        own_write a buffer (reset (h.cells a)) (rewound a out) e (
          assign_same owner a _,
          ap (λ c. c.content) (assign_same h.cells a _),
          assign_other owner a _ out away ∙ g,
          ap (λ c. c.content) (assign_other h.cells a _ out away) ∙ full,
        )
    next_statement_lem (rewound a out) (e, empty, g, full) = give_back_lem a out e empty g full
    next_statement_lem (returned out) h = tt
