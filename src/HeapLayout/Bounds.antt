-- ===== src/HeapLayout/Bounds.antt =====
-- The size of the heap: multiples, reserves and the smallest heap.
use flutter_libnx.Prelude.{
  ℕ, ◌+◌, ◌-◌, ◌%◌, ◌^◌, ◌≤◌, ◌<◌, ◌≡◌, refl, ◌⊎◌, inl, inr, false, Option, none, some, arith, ltb,
  ltb→lt, Bool-cases, Option-cases, ap, sym, ◌∙◌,
}
use flutter_libnx.HeapLayout.Layout.{
  minimum_heap, add64, sub64, align_down, reserve_of, size_beside, heap_size, heap, aborts,
  init_heap,
}

reserve_of_bounds : (a : ℕ) → (2 ^ 21 ≤ reserve_of a) × (reserve_of a ≤ 2 ^ 28)
unfolding reserve_of
reserve_of_bounds a = ground arith

align_down_bounds :
    (n : ℕ) → (align_down n % 2 ^ 21 ≡ 0) × (align_down n ≤ n) × (n < align_down n + 2 ^ 21)
align_down_bounds n = omega arith

-- The size is a multiple of 2 MB; it is 0, and nothing is free besides the reserve, or it fits beside
-- the reserve, and less than 2 MB more would.
size_beside_bounds :
    (r a u : ℕ)
    → u + r < 2 ^ 64
    → a < 2 ^ 64
    → (size_beside r a u % 2 ^ 21 ≡ 0)
      × (((size_beside r a u ≡ 0) × (a ≤ u + r))
          ⊎ ((u + r + size_beside r a u ≤ a) × (a < u + r + size_beside r a u + 2 ^ 21)))
unfolding size_beside
size_beside_bounds r a u small fits =
    let sum : add64 u r ≡ u + r = omega arith in
    elim (Bool-cases (ltb (add64 u r) a)) [
      | inl more ↦
          let lt : u + r < a = ltb→lt (u + r) a (ap (λ n. ltb n a) (sym sum) ∙ more) in
          let left : sub64 (sub64 a u) r ≡ a - u - r = omega arith in
          let (multiple, le, lt') = align_down_bounds (a - u - r) in
          rw (more, left) (multiple, inr (omega arith, omega arith))
      | inr less ↦ let le : a ≤ u + r = ground arith in rw less (refl, inl (refl, le))
    ]

-- What the heap's size comes to.
abbrev pub IsFit : ℕ → ℕ → ℕ → Type 0
IsFit a u s =
    (s % 2 ^ 21 ≡ 0)
    × ((s ≡ 0) ⊎ (u + 2 ^ 21 + s ≤ a))
    × (((2 ^ 26 ≤ s) × (u + reserve_of a + s ≤ a)) ⊎ (a < u + reserve_of a + 2 ^ 26 + 2 ^ 21))

heap_size-IsFit : (a u : ℕ) → a < 2 ^ 64 → u + 2 ^ 28 < 2 ^ 64 → IsFit a u (heap_size a u)
unfolding heap_size
heap_size-IsFit a u fits small =
    let (low, high) = reserve_of_bounds a in
    let (multiple, rest) = size_beside_bounds (reserve_of a) a u (omega arith) fits in
    let (multiple', rest') = size_beside_bounds (2 ^ 21) a u (omega arith) fits in
    elim (Bool-cases (ltb (size_beside (reserve_of a) a u) minimum_heap)) [
      | inl less ↦
          let lt : size_beside (reserve_of a) a u < 2 ^ 26 = ltb→lt _ (2 ^ 26) less in
          rw less (multiple', omega arith, inr (omega arith))
      | inr enough ↦
          let le : 2 ^ 26 ≤ size_beside (reserve_of a) a u = ground arith in
          rw enough (multiple, omega arith, inl (le, omega arith))
    ]

-- Without a heap from the loader, and with less than 2^64 - 2^28 bytes in use, the heap that is asked
-- for is a multiple of 2 MB; it is 0, or leaves 2 MB besides what is in use; and it has 64 MB at
-- least and leaves the whole reserve, or 66 MB and the reserve were not free. Its end is its start and
-- that size, and a heap that is refused aborts.
pub init_heap-IsFit :
    (a u : ℕ) (set_heap_size : ℕ → Option ℕ)
    → a < 2 ^ 64
    → u + 2 ^ 28 < 2 ^ 64
    → (s : ℕ) × IsFit a u s
      × (((set_heap_size s ≡ none) × (init_heap none a u set_heap_size ≡ aborts))
          ⊎ ((addr : ℕ) × (set_heap_size s ≡ some addr)
              × (init_heap none a u set_heap_size ≡ heap addr (addr + s) false)))
unfolding init_heap
init_heap-IsFit a u set_heap_size fits small = (
  heap_size a u,
  heap_size-IsFit a u fits small,
  elim (Option-cases (set_heap_size (heap_size a u))) [
    | inl e ↦ inl (e, rw e refl)
    | inr (addr, e) ↦ inr (addr, e, rw e refl)
  ],
)
