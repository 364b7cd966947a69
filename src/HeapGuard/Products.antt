-- ===== src/HeapGuard/Products.antt =====
-- calloc: the product of the two sizes, and the zeros.
use flutter_libnx.Prelude.{
  ℕ, zero, suc, ◌+◌, ◌*◌, ◌/◌, ◌^◌, ◌≤◌, ◌<◌, ◌≡◌, refl, ◌⊎◌, inl, inr, Bool, true, false, not,
  ◌&&◌, Option, none, some, arith, ltb, ◌==◌, Bool-cases, length, replicate, length-replicate,
  ltb→lt, ==_iff,
}
use flutter_libnx.HeapGuard.Memory.{Outside, write_bytes-Outside}
use flutter_libnx.HeapGuard.Wrappers.{
  Allocator, World, size_t, wrap_malloc, clear_block, wrap_calloc,
}
use flutter_libnx.HeapGuard.Blocks.{write_bytes-replicate}
use mathlib.Core.Path.{subst}
use native.Mathlib.Nat.{mul-div-le, mul-div_cancel_left}

size_t-fits : (n : ℕ) → n < 2 ^ 64 → size_t n ≡ n
size_t-fits n h = omega arith

abbrev is_refused : ℕ → ℕ → Bool
is_refused count size = not (count == 0) && not (size_t (count * size) / count == size)

product_fits : (count size : ℕ) → count * size < 2 ^ 64 → is_refused count size ≡ false
product_fits zero size h = refl
product_fits (suc n) size h =
    let fits : size_t (suc n * size) ≡ suc n * size = size_t-fits (suc n * size) h in
    let back : suc n * size / suc n ≡ size = mul-div_cancel_left size (omega arith) in
    let same : (size == size) ≡ true = ground arith in
    let more : (suc n == 0) ≡ false = ground arith in rw (fits, back, same, more) refl

product_wraps : (count size : ℕ) → 2 ^ 64 ≤ count * size → is_refused count size ≡ true
product_wraps zero size h = absurd (omega arith)
product_wraps (suc n) size h =
    let more : (suc n == 0) ≡ false = ground arith in
    let low : (p : ℕ) → size_t p < 2 ^ 64 = λ p. omega arith in
    elim (Bool-cases (size_t (suc n * size) / suc n == size)) [
      | inr other ↦ rw (other, more) refl
      | inl same ↦
          let e : size_t (suc n * size) / suc n ≡ size = (==_iff _ size).0 same in
          let le : suc n * size ≤ size_t (suc n * size) =
            subst (λ (q : ℕ). suc n * q ≤ size_t (suc n * size)) e
              (mul-div-le (size_t (suc n * size)) (suc n)) in
          absurd (omega (arith, low (suc n * size)))
    ]

-- `r` is what malloc gave, with zeros in the `total` bytes of the data, if there is a block, and with
-- all else as it was.
abbrev pub Zeroed : ℕ → Option ℕ × World → Option ℕ × World → Type 0
Zeroed total (none, served) r = r ≡ (none, served)
Zeroed total (some user, served) r =
    (r.0 ≡ some user)
    × ((i : ℕ) → i < total → r.1.memory (user + i) ≡ 0)
    × ((x : ℕ) → Outside user total x → r.1.memory x ≡ served.memory x)
    × (r.1.events ≡ served.events)

clear_block-Zeroed :
    (total : ℕ) (given : Option ℕ × World) → Zeroed total given (clear_block total given)
unfolding clear_block
clear_block-Zeroed total (none, served) = refl
clear_block-Zeroed total (some user, served) = (
  refl,
  λ i h. write_bytes-replicate total user 0 i served.memory h,
  λ x out.
      write_bytes-Outside user (replicate total 0) served.memory x
        (let n : length {A = ℕ} (replicate total 0) ≡ total = length-replicate total 0 in rw n out),
  refl,
)

-- calloc gives null and does nothing if the product of the two sizes is 2^64 or more; otherwise it
-- gives what malloc of the product gives, and if that is a block, then with zeros in its data, and
-- with every other byte as malloc left it.
pub wrap_calloc-Zeroed :
    (A : Allocator) (caller count size : ℕ) (w : World)
    → ((2 ^ 64 ≤ count * size) × (wrap_calloc A caller count size w ≡ (none, w)))
      ⊎ ((count * size < 2 ^ 64)
          × Zeroed
              (count * size)
              (wrap_malloc A caller (count * size) w)
              (wrap_calloc A caller count size w))
unfolding wrap_calloc
wrap_calloc-Zeroed A caller count size w = elim (Bool-cases (ltb (count * size) (2 ^ 64))) [
  | inl less ↦
      let small : count * size < 2 ^ 64 = ltb→lt (count * size) (2 ^ 64) less in
      inr (
        small,
        rw (product_fits count size small, size_t-fits (count * size) small)
            (clear_block-Zeroed (count * size) (wrap_malloc A caller (count * size) w)),
      )
  | inr more ↦
      let large : 2 ^ 64 ≤ count * size = ground arith in
      inl (large, rw (product_wraps count size large) refl)
]
