-- ===== src/Prelude/Bytes.antt =====
-- Bytes and little-endian words as lists of numbers, and `|` of numbers with no common bit.
use Prim.Native.Nat.{ℕ, zero, suc, ◌+◌, ◌*◌, ◌/◌, ◌%◌, ◌^◌, ◌≤◌, ◌<◌, max, bit_or}
use Prim.Native.Nat.{digits, bit_or-bitwise}
use mathlib.Core.Path.{◌≡◌, refl, ap}
use mathlib.Core.List.{List, [], ◌∷◌, ◌++◌}
use native.Mathlib.Nat.{pow-suc}
use native.Mathlib.Omega.{arith}

abbrev pub IsByte : ℕ → Type 0
IsByte b = b < 256

module _ {ℓ} {A : Type ℓ} where
  abbrev pub All {κ} : (A → Type κ) → List A → Type κ
  All P [] = Unit {κ}
  All P (x ∷ xs) = P x × All P xs

  pub All-append {κ} : (P : A → Type κ) (xs ys : List A) → All P xs → All P ys → All P (xs ++ ys)
  All-append P [] ys hx hy = hy
  All-append P (x ∷ xs) ys hx hy = (hx.0, All-append P xs ys hx.1 hy)

abbrev or_digits : ℕ → ℕ → ℕ → ℕ
or_digits n a b = digits (λ b. b) max n a b

or_digits_fuel : (n m a b : ℕ) → a ≤ n → a ≤ m → or_digits n a b ≡ or_digits m a b
or_digits_fuel zero zero a b p q = refl
or_digits_fuel zero (suc m) zero b p q = refl
or_digits_fuel zero (suc m) (suc a) b p q = absurd (omega arith)
or_digits_fuel (suc n) zero zero b p q = refl
or_digits_fuel (suc n) zero (suc a) b p q = absurd (omega arith)
or_digits_fuel (suc n) (suc m) zero b p q = refl
or_digits_fuel (suc n) (suc m) (suc a) b p q =
    omega (arith, or_digits_fuel n m (suc a / 2) (b / 2) (omega arith) (omega arith))

zero-bit_or : (b : ℕ) → bit_or 0 b ≡ b
zero-bit_or b = bit_or-bitwise 0 b

bit_or_halves : (a b : ℕ) → bit_or a b ≡ bit_or (a / 2) (b / 2) * 2 + max (a % 2) (b % 2)
bit_or_halves zero b = omega (arith, zero-bit_or b, zero-bit_or (b / 2))
bit_or_halves (suc a) b = omega (
  arith,
  bit_or-bitwise (suc a) b,
  bit_or-bitwise (suc a / 2) (b / 2),
  or_digits_fuel a (suc a / 2) (suc a / 2) (b / 2) (omega arith) (omega arith),
)

double_power : (b k : ℕ) → b * 2 ^ suc k ≡ 2 * (b * 2 ^ k)
double_power b k = omega (arith, ap (λ (t : ℕ). b * t) (pow-suc 2 k))

-- `v |= b << k` adds where `v` has only the lowest `k` bits.
pub bit_or-shift : (k v b : ℕ) → v < 2 ^ k → bit_or v (b * 2 ^ k) ≡ v + b * 2 ^ k
bit_or-shift zero v b h = ground (arith, zero-bit_or (b * 2 ^ 0))
bit_or-shift (suc k) v b h = ground (
  arith,
  bit_or_halves v (b * 2 ^ suc k),
  double_power b k,
  pow-suc 2 k,
  bit_or-shift k (v / 2) b (omega (arith, pow-suc 2 k)),
)

-- The low `n` bytes of `w` from byte `i` on: `for (i...) (w >> (8 * i)) & 0xFF`.
abbrev pub word_bytes : ℕ → ℕ → ℕ → List ℕ
word_bytes zero i w = []
word_bytes (suc n) i w = (w / 2 ^ (8 * i) % 256) ∷ word_bytes n (i + 1) w

-- The word that a little-endian machine reads from these bytes, as `memcpy` into it does.
abbrev pub from_bytes : List ℕ → ℕ
from_bytes [] = 0
from_bytes (b ∷ bs) = b + 256 * from_bytes bs

pub word_bytes-IsByte : (n i w : ℕ) → All IsByte (word_bytes n i w)
word_bytes-IsByte zero i w = tt
word_bytes-IsByte (suc n) i w = (omega arith, word_bytes-IsByte n (i + 1) w)
