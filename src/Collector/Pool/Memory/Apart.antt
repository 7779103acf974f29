-- ===== src/Collector/Pool/Memory/Apart.antt =====
-- What the calls of `copyPayload` return, and that no two of them work on the same buffer.
use api_observability_platfo.Base.{
  ℕ, zero, suc, ◌+◌, ◌≤◌, ◌≡◌, ◌≢◌, refl, some, List, [], ◌∷◌, ◌++◌, arith, get_elem?, All,
  All-append, All-map,
}
use mathlib.Core.Path.{subst}
use api_observability_platfo.Collector.Pool.Isolation.{IsClean}
use api_observability_platfo.Collector.Pool.Memory.{
  Heap, Stage, taken, cleared, filled, made, copied, rewound, returned, Copy, Copies, CopyMove,
  run_copies, no_copies,
}
use api_observability_platfo.Collector.Pool.Memory.Owners.{
  buffer, Owner, owned, Holds, IsKept, IsApart,
}
use api_observability_platfo.Collector.Pool.Memory.Isolated.{
  Held, run_copies-IsIsolated, no_copies-IsIsolated,
}

-- The buffer of a call that has not returned.
abbrev pub in_use : Stage → List ℕ
in_use (taken a) = a ∷ []
in_use (cleared a) = a ∷ []
in_use (filled a) = a ∷ []
in_use (made a out) = a ∷ []
in_use (copied a out) = a ∷ []
in_use (rewound a out) = a ∷ []
in_use (returned out) = []

abbrev pub buffers_in_use : List Copy → List ℕ
buffers_in_use [] = []
buffers_in_use (c ∷ cs) = in_use c.stage ++ buffers_in_use cs

-- What a call has returned is the bytes that it was given.
abbrev pub IsFaithful : Heap → List ℕ → Stage → Type 0
IsFaithful h raw (returned out) = (h.cells out).content ≡ raw
IsFaithful h raw _ = Unit

module _ (owner : ℕ → Owner) (h : Heap) where
  faithful :
      (i : ℕ) (raw : List ℕ) (st : Stage) → Holds owner h.cells i raw st → IsFaithful h raw st
  faithful i raw (returned out) x = x.1
  faithful i raw _ x = tt

  buffer_owned :
      (i : ℕ) (raw : List ℕ) (st : Stage)
      → Holds owner h.cells i raw st
      → All (λ a. owner a ≡ owned i buffer) (in_use st) × IsApart (in_use st)
  buffer_owned i raw (taken a) x = ((x, tt), (tt, tt))
  buffer_owned i raw (cleared a) x = ((x.0, tt), (tt, tt))
  buffer_owned i raw (filled a) x = ((x.0, tt), (tt, tt))
  buffer_owned i raw (made a out) x = ((x.0, tt), (tt, tt))
  buffer_owned i raw (copied a out) x = ((x.0, tt), (tt, tt))
  buffer_owned i raw (rewound a out) x = ((x.0, tt), (tt, tt))
  buffer_owned i raw (returned out) x = (tt, tt)

IsApart-append :
    (ps qs : List ℕ)
    → IsApart ps
    → IsApart qs
    → All (λ p. All (λ b. b ≢ p) qs) ps
    → IsApart (ps ++ qs)
IsApart-append [] qs hp hq h = hq
IsApart-append (p ∷ ps) qs hp hq h =
    (All-append (λ b. b ≢ p) ps qs hp.0 h.0, IsApart-append ps qs hp.1 hq h.1)

module _ (owner : ℕ → Owner) (h : Heap) where
  -- Of the calls from the k-th on.
  abbrev HeldFrom : ℕ → List Copy → Type 0
  HeldFrom k cs =
      (j : ℕ) (c : Copy) → get_elem? cs j ≡ some c → Holds owner h.cells (k + j) c.raw c.stage

  held_later : (k : ℕ) (c : Copy) (cs : List Copy) → HeldFrom k (c ∷ cs) → HeldFrom (suc k) cs
  held_later k c cs x j d e =
      subst (λ n. Holds owner h.cells n d.raw d.stage) (omega arith) (x (suc j) d e)

  held_first :
      (k : ℕ) (c : Copy) (cs : List Copy)
      → HeldFrom k (c ∷ cs)
      → Holds owner h.cells k c.raw c.stage
  held_first k c cs x =
      subst (λ n. Holds owner h.cells n c.raw c.stage) (omega arith) (x zero c refl)

  All-IsFaithful :
      (k : ℕ) (cs : List Copy) → HeldFrom k cs → All (λ c. IsFaithful h c.raw c.stage) cs
  All-IsFaithful k [] x = tt
  All-IsFaithful k (c ∷ cs) x = (
    faithful owner h k c.raw c.stage (held_first k c cs x),
    All-IsFaithful (suc k) cs (held_later k c cs x),
  )

  -- An owner that is a call from the k-th on.
  abbrev IsLater : ℕ → ℕ → Type 0
  IsLater k a = (j : ℕ) × (k ≤ j) × (owner a ≡ owned j buffer)

  IsLater-owned : (k : ℕ) (cs : List Copy) → HeldFrom k cs → All (IsLater k) (buffers_in_use cs)
  IsLater-owned k [] x = tt
  IsLater-owned k (c ∷ cs) x =
      let mine = (buffer_owned owner h k c.raw c.stage (held_first k c cs x)).0 in
      All-append (IsLater k) (in_use c.stage) (buffers_in_use cs)
        (All-map (λ a e. (k, omega arith, e)) (in_use c.stage) mine)
        (All-map (λ a (j, far, e). (j, omega (arith, far), e)) (buffers_in_use cs)
          (IsLater-owned (suc k) cs (held_later k c cs x)))

  different :
      {p b k j : ℕ} → owner p ≡ owned k buffer → owner b ≡ owned j buffer → suc k ≤ j → b ≢ p
  different {k} {j} e g far same = let eq : k ≡ j = cc in absurd (omega (arith, eq, far))

  buffers-IsApart : (k : ℕ) (cs : List Copy) → HeldFrom k cs → IsApart (buffers_in_use cs)
  buffers-IsApart k [] x = tt
  buffers-IsApart k (c ∷ cs) x =
      let (mine, single) = buffer_owned owner h k c.raw c.stage (held_first k c cs x) in
      let later = held_later k c cs x in
      IsApart-append (in_use c.stage) (buffers_in_use cs) single (buffers-IsApart (suc k) cs later)
        (All-map
          (λ p e.
            All-map (λ b (j, far, g) same. different e g far same) (buffers_in_use cs)
              (IsLater-owned (suc k) cs later))
          (in_use c.stage) mine)

  from_zero : (cs : List Copy) → Held owner h.cells cs → HeldFrom 0 cs
  from_zero cs x j c e = subst (λ n. Holds owner h.cells n c.raw c.stage) (omega arith) (x j c e)

  pool-IsApart :
      (cs : List Copy) → IsKept owner h → HeldFrom 0 cs → IsApart (buffers_in_use cs ++ h.pool)
  pool-IsApart cs kept x =
      IsApart-append (buffers_in_use cs) h.pool (buffers-IsApart 0 cs x) kept.apart (
        All-map (λ p (j, far, e). All-map (λ b g same. absurd (cc)) h.pool kept.stocked)
          (buffers_in_use cs) (IsLater-owned 0 cs x))

-- No call of `copyPayload` disturbs another one. Any number of calls run at once from an empty pool
-- on, interleaved statement by statement in any order, whichever pooled buffer each `Get` takes and
-- whichever the runtime removes. Then whatever a call has returned is and stays exactly the bytes that
-- it was given; the buffers of the unfinished calls and those in the pool are all different; and those
-- in the pool are empty and at most 1 MiB large.
pub payloads_isolated :
    (grow : ℕ → ℕ → ℕ) (mvs : List CopyMove) (s : Copies)
    → run_copies grow mvs no_copies ≡ some s
    → All (λ c. IsFaithful s.heap c.raw c.stage) s.calls
      × IsApart (buffers_in_use s.calls ++ s.heap.pool)
      × All (λ a. IsClean (s.heap.cells a)) s.heap.pool
payloads_isolated grow mvs s ran =
    let inv = run_copies-IsIsolated grow mvs no_copies s (no_copies-IsIsolated grow) ran in
    let x = from_zero inv.owner s.heap s.calls inv.held in
    (
      All-IsFaithful inv.owner s.heap 0 s.calls x,
      pool-IsApart inv.owner s.heap s.calls inv.kept x,
      All-map (λ a h. h.1) s.heap.pool inv.kept.stocked,
    )
