-- ===== src/HeapGuard/Freeing.antt =====
-- From malloc and memalign to free.
use flutter_libnx.Prelude.{
  ℕ, ◌+◌, ◌-◌, ◌%◌, ◌^◌, ◌≤◌, ◌<◌, ◌≡◌, refl, sym, ◌∙◌, false, Option, some, arith, ltb,
}
use flutter_libnx.HeapGuard.Memory.{Memory, Outside}
use flutter_libnx.HeapGuard.Wrappers.{
  Allocator, World, size_t, prepare_block, malloc_in, wrap_malloc, wrap_free, memalign_in,
  wrap_memalign,
}
use flutter_libnx.HeapGuard.Blocks.{
  Guarded, Agree, Headed-Agree, Freed, wrap_free-Freed, prepare_block-Headed, prepare_block-Guarded,
  prepare_block-Outside,
}
use mathlib.Core.Path.{subst}
use native.Mathlib.Nat.{add-mod_right}

-- A block that was prepared, and written to by the program except for its header, then freed.
prepared-Freed :
    (A : Allocator) (caller size raw user : ℕ) (w : World) (mem after : Memory)
    → 32 ≤ user
    → caller < 2 ^ 64
    → size < 2 ^ 64
    → raw < 2 ^ 64
    → Agree 32 (user - 32) (prepare_block caller size raw user mem) after
    → Freed A w.events size caller raw user after
        (wrap_free A (some user) (record { memory = after; events = w.events }))
prepared-Freed A caller size raw user w mem after far hc hs hr same =
    wrap_free-Freed A size caller raw user after w.events far (
      Headed-Agree size caller raw user (prepare_block caller size raw user mem) after far same
        (prepare_block-Headed caller size raw user mem far hc hs hr))

-- A block for the program: the pointer to it, a guard that is whole, and no byte changed outside of
-- the `n` bytes from `raw` on, `x` being one of those; and once the program, with `after` in memory,
-- frees it, the block is freed as `Freed` says.
abbrev pub Served :
    Allocator → ℕ → ℕ → ℕ → ℕ → World → Memory → Memory → ℕ → Option ℕ × World → Type 0
Served A caller size raw user w mem after x (p, served) =
    (p ≡ some user)
    × (Guarded 16 (user + size) served.memory)
    × (served.memory x ≡ mem x)
    × Freed A w.events size caller raw user after (wrap_free A p (record served { memory = after }))

Served-prepare_block :
    (A : Allocator) (caller size raw user : ℕ) (w : World) (mem after : Memory) (x : ℕ)
    (r : Option ℕ × World)
    → r ≡ (some user, record { memory = prepare_block caller size raw user mem; events = w.events })
    → 32 ≤ user
    → caller < 2 ^ 64
    → size < 2 ^ 64
    → raw < 2 ^ 64
    → Outside (user - 32) (32 + size + 16) x
    → Agree 32 (user - 32) r.1.memory after
    → Served A caller size raw user w mem after x r
Served-prepare_block A caller size raw user w mem after x r e far hc hs hr out =
    subst
      (λ r. Agree 32 (user - 32) r.1.memory after → Served A caller size raw user w mem after x r)
      (sym e)
      (λ same. (
        refl,
        prepare_block-Guarded caller size raw user mem,
        prepare_block-Outside caller size raw user mem x far out,
        prepared-Freed A caller size raw user w mem after far hc hs hr same,
      ))

pub malloc_lem :
    (A : Allocator) (caller size raw : ℕ) (w : World) (mem : Memory)
    → 32 + size + 16 < 2 ^ 64
    → A.malloc (32 + size + 16) w.memory ≡ (some raw, mem)
    → wrap_malloc A caller size w ≡ (
      some (raw + 32),
      record { memory = prepare_block caller size raw (raw + 32) mem; events = w.events },
    )
unfolding wrap_malloc malloc_in
malloc_lem A caller size raw w mem small given =
    let fits : size_t (32 + size + 16) ≡ 32 + size + 16 = omega arith in rw (fits, given) refl

-- malloc of a size whose block does not reach 2^64, over an allocator that gives a block: the program
-- gets the address behind the header, nothing is written outside of the block, and however the
-- program writes behind the header, free then returns the block by the address that the
-- allocator gave, and reports an overflow if and only if a byte of the guard was changed.
pub wrap_free-wrap_malloc :
    (A : Allocator) (caller size raw : ℕ) (w : World) (mem after : Memory) (x : ℕ)
    → 32 + size + 16 < 2 ^ 64
    → caller < 2 ^ 64
    → raw < 2 ^ 64
    → A.malloc (32 + size + 16) w.memory ≡ (some raw, mem)
    → Outside raw (32 + size + 16) x
    → Agree 32 raw (wrap_malloc A caller size w).1.memory after
    → Served A caller size raw (raw + 32) w mem after x (wrap_malloc A caller size w)
wrap_free-wrap_malloc A caller size raw w mem after x small hc hr given out same =
    Served-prepare_block A caller size raw (raw + 32) w mem after x (wrap_malloc A caller size w)
      (malloc_lem A caller size raw w mem small given) (omega arith) hc (omega arith) hr
      (omega arith) (λ y low high. same y (omega arith) (omega arith))

memalign_lem :
    (A : Allocator) (caller alignment size raw : ℕ) (w : World) (mem : Memory)
    → 32 ≤ alignment
    → alignment + size + 16 < 2 ^ 64
    → A.memalign alignment (alignment + size + 16) w.memory ≡ (some raw, mem)
    → wrap_memalign A caller alignment size w ≡ (
      some (raw + alignment),
      record { memory = prepare_block caller size raw (raw + alignment) mem; events = w.events },
    )
unfolding wrap_memalign memalign_in
memalign_lem A caller alignment size raw w mem wide small given =
    let fits : size_t (alignment + size + 16) ≡ alignment + size + 16 = omega arith in
    let kept : ltb alignment 16 ≡ false = ground arith in rw (kept, fits, given) refl

-- memalign to an alignment of at least 32, with a size whose block does not reach 2^64, over an
-- allocator that gives a block with that alignment: the program gets an address with the alignment,
-- nothing is written outside of the block, and however the program writes, except to the header,
-- free then returns the block by the address that the allocator gave, and reports an overflow if
-- and only if a byte of the guard was changed.
pub wrap_free-wrap_memalign :
    (A : Allocator) (caller alignment size raw : ℕ) (w : World) (mem after : Memory) (x : ℕ)
    → 32 ≤ alignment
    → alignment + size + 16 < 2 ^ 64
    → caller < 2 ^ 64
    → raw < 2 ^ 64
    → A.memalign alignment (alignment + size + 16) w.memory ≡ (some raw, mem)
    → raw % alignment ≡ 0
    → Outside raw (alignment + size + 16) x
    → Agree 32 (raw + alignment - 32) (wrap_memalign A caller alignment size w).1.memory after
    → ((raw + alignment) % alignment ≡ 0)
      × Served A caller size raw
          (raw + alignment)
          w
          mem
          after
          x
          (wrap_memalign A caller alignment size w)
wrap_free-wrap_memalign A caller alignment size raw w mem after x wide small hc hr given whole out
      same =
    (
      add-mod_right raw alignment ∙ whole,
      Served-prepare_block A caller size raw (raw + alignment) w mem after x
          (wrap_memalign A caller alignment size w)
          (memalign_lem A caller alignment size raw w mem wide small given) (omega arith) hc
          (omega arith) hr (omega arith) same,
    )
