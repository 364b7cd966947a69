-- ===== src/ThreadDiag/Spared.antt =====
-- The healing ends, and unmaps nothing but mirrors of holes.
use flutter_libnx.Prelude.{
  Option, none, some, ℕ, zero, suc, ◌+◌, ◌-◌, ◌^◌, ◌<◌, ◌≤◌, ◌≡◌, ◌≢◌, inl, inr, Bool, true, false,
  not, List, [], ◌∷◌, arith, if◌then◌else◌, Bool-cases, Option-cases, ltb, leb, ◌==◌, length, All,
  All-append,
}
use flutter_libnx.ThreadDiag.Pages.{
  MemoryInfo, Kernel, is_mapped, end_of, Walk, finished, gave_up, stuck, Region, Unmap, is_mirror,
  Healed, try_mirror, mirror_from, Healing, add_healed, heal_holes, no_calls, heal_found, heal_heap,
  holes_from,
}
use flutter_libnx.ThreadDiag.Walks.{Ends, both_true, nearer, IsHole, AreHoles, heap-AreHoles}

mirror-parts :
    (own info : MemoryInfo) (hole : Region)
    → is_mirror own hole info ≡ true
    → (is_mapped info.kind ≡ true) × (info.size ≡ hole.size) × (info.addr ≢ own.addr)
mirror-parts own info hole h =
    let (kind, size, other) =
      both_true (is_mapped info.kind) (info.size == hole.size) (not (info.addr == own.addr)) h in
    (kind, ground arith, λ e. ground arith)

module _ (K : Kernel) (w : K.World) (own : MemoryInfo) where
  -- The mirror is mapped, has the size of the hole, and is not the stack that runs; the hole is
  -- borrowed pages of the heap.
  abbrev pub IsAllowed : Unmap → Type 0
  IsAllowed c =
      (is_mapped c.mirror.kind ≡ true)
      × (c.mirror.size ≡ c.hole.size)
      × (c.mirror.addr ≢ own.addr)
      × IsHole K w c.hole

  abbrev AllAllowed : Healed K → Type 0
  AllAllowed r = All IsAllowed r.calls

  try_mirror-AllAllowed :
      (hole : Region) (info : MemoryInfo) (calls : List Unmap) (v : K.World)
      → IsHole K w hole
      → All IsAllowed calls
      → AllAllowed (try_mirror K own hole info calls v)
  unfolding try_mirror
  try_mirror-AllAllowed hole info calls v at h = elim (Bool-cases (is_mirror own hole info)) [
    | inl mirror ↦
        let (kind, size, other) = mirror-parts own info hole mirror in
        rw (mirror, try_mirror)
          (All-append IsAllowed calls (record { mirror = info; hole = hole } ∷ []) h
            ((kind, size, other, at), tt))
    | inr other ↦ rw (other, try_mirror) h
  ]

  mirror_from-Ends :
      (fuel addr : ℕ) (hole : Region) (calls : List Unmap) (v : K.World)
      → 2 ^ 39 - addr < fuel
      → IsHole K w hole
      → All IsAllowed calls
      → Ends AllAllowed (mirror_from K fuel addr own hole calls v)
  unfolding mirror_from
  mirror_from-Ends zero addr hole calls v enough at h = omega arith
  mirror_from-Ends (suc fuel) addr hole calls v enough at h =
      elim (Bool-cases (ltb addr (2 ^ 39))) [
        | inr over ↦ rw (over, mirror_from) h
        | inl inside ↦ elim (Option-cases (K.query addr v)) [
          | inl e ↦ rw (inside, mirror_from, e) h
          | inr (info, e) ↦
              let r = try_mirror K own hole info calls v in
              let tried = try_mirror-AllAllowed hole info calls v at h in
              elim (Bool-cases r.healed) [
                | inl done ↦ rw (inside, mirror_from, e, done) tried
                | inr failed ↦ elim (Bool-cases (leb (end_of info) addr)) [
                  | inl back ↦ rw (inside, mirror_from, e, failed, back) tried
                  | inr on ↦
                      rw (inside, mirror_from, e, failed, on)
                        (mirror_from-Ends fuel (end_of info) hole r.calls r.world
                          (nearer (2 ^ 39) addr (end_of info) fuel inside on enough) at tried)
                ]
              ]
        ]
      ]

  -- What is true of the whole: at most sixteen holes are healed, and every call is allowed.
  abbrev pub IsHarmless : Healing K → Type 0
  IsHarmless h = (h.healed ≤ 16) × All IsAllowed h.calls

  healed-1 : (n : ℕ) (b : Bool) → (if b then n + 1 else n) ≤ n + 1
  healed-1 n true = omega arith
  healed-1 n false = omega arith

  -- The search for one hole has ended, and the others follow.
  healed-Ends :
      (n : ℕ) (next : Healing K → Walk (Healing K)) (r : Walk (Healed K))
      → ((h : Healing K) → h.healed ≤ n + 1 → All IsAllowed h.calls → Ends IsHarmless (next h))
      → Ends AllAllowed r
      → Ends IsHarmless (elim r [
        | finished r ↦ next (add_healed K n r)
        | gave_up r ↦ next (add_healed K n r)
        | stuck ↦ stuck
      ])
  healed-Ends n next (finished r) f a = f (add_healed K n r) (healed-1 n r.healed) a
  healed-Ends n next (gave_up r) f a = f (add_healed K n r) (healed-1 n r.healed) a
  healed-Ends n next stuck f a = a

  heal_holes-Ends :
      (holes : List Region) (h : Healing K)
      → h.healed + length holes ≤ 16
      → All (IsHole K w) holes
      → All IsAllowed h.calls
      → Ends IsHarmless (heal_holes K own holes h)
  unfolding heal_holes
  heal_holes-Ends [] h few at all = (omega arith, all)
  heal_holes-Ends (hole ∷ holes) h few (at, later) all =
      healed-Ends h.healed (heal_holes K own holes)
        (mirror_from K (suc (2 ^ 39)) 0 own hole h.calls h.world)
        (λ h' below all'. heal_holes-Ends holes h' (omega arith) later all')
        (mirror_from-Ends (suc (2 ^ 39)) 0 hole h.calls h.world (omega arith) at all)

module _ (K : Kernel) (w : K.World) where
  -- What the kernel says of the own stack: nothing, and then no call is allowed, or its region.
  abbrev pub IsAllowedBy : Option MemoryInfo → Unmap → Type 0
  IsAllowedBy none c = ⊥
  IsAllowedBy (some own) c = IsAllowed K w own c

  abbrev pub IsSparing : Option MemoryInfo → Healing K → Type 0
  IsSparing own h = (h.healed ≤ 16) × All (IsAllowedBy own) h.calls

  found_case-Ends :
      (own : Option MemoryInfo) (hole : Region) (holes : List Region)
      → AreHoles K w (hole ∷ holes)
      → Ends (IsSparing own) (elim own [
        | none ↦ gave_up (no_calls K w)
        | some own ↦ heal_holes K own (hole ∷ holes) (no_calls K w)
      ])
  found_case-Ends none hole holes h = (omega arith, tt)
  found_case-Ends (some own) hole holes (few, all) =
      heal_holes-Ends K w own (hole ∷ holes) (no_calls K w) (omega arith) all tt

  heal_found-Ends :
      (stack : ℕ) (holes : List Region)
      → AreHoles K w holes
      → Ends (IsSparing (K.query stack w)) (heal_found K stack holes w)
  unfolding heal_found
  heal_found-Ends stack [] h = (omega arith, tt)
  heal_found-Ends stack (hole ∷ holes) h = found_case-Ends (K.query stack w) hole holes h

  walked-Ends :
      (stack : ℕ) (r : Walk (List Region))
      → Ends (AreHoles K w) r
      → Ends (IsSparing (K.query stack w)) (elim r [
        | finished holes ↦ heal_found K stack holes w
        | gave_up holes ↦ gave_up (no_calls K w)
        | stuck ↦ stuck
      ])
  walked-Ends stack (finished holes) h = heal_found-Ends stack holes h
  walked-Ends stack (gave_up holes) h = (omega arith, tt)
  walked-Ends stack stuck h = h

  -- The healing ends, whatever the kernel answers, and heals sixteen holes at most. If the query of the
  -- own stack fails, it makes no call of svcUnmapMemory. Otherwise every call is for a mapped region of
  -- exactly the hole's size that is not the one of the own stack, and for a hole that the kernel had
  -- reported as borrowed pages of the heap.
  pub heal_heap-Ends :
      (start end stack : ℕ) → Ends (IsSparing (K.query stack w)) (heal_heap K start end stack w)
  unfolding heal_heap
  heal_heap-Ends start end stack =
      walked-Ends stack (holes_from K w (suc end) start end []) (heap-AreHoles K w start end)
