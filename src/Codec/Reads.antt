-- ===== src/Codec/Reads.antt =====
-- The readers of the codec on any buffer of bytes: they stay inside it, and return words in range.
use flutter_libnx.Prelude.{
  ℕ, zero, suc, ◌+◌, ◌-◌, ◌*◌, ◌%◌, ◌^◌, ◌<◌, ◌≤◌, ◌≡◌, refl, List, [], ◌∷◌, length, All, IsByte,
  arith, ltb, leb, ◌==◌, Bool, some, get_elem?, from_bytes, bit_or-shift, ap, true, false,
  if◌then◌else◌,
}
use flutter_libnx.Codec.Value.{StdValue, IsEncodable}
use flutter_libnx.Codec.Decode.{
  load, load_bytes, size_loop, read_size, skip_loop, skip_alignment, read_bytes, sign_extend,
  read_int32, read_int64, read_float64, read_string,
}
use flutter_libnx.Codec.Answers.{
  Answers, returns, rejects, Answers-bind, Answers-if, Answers-weaken,
}
use flutter_libnx.Codec.Extends.{next_byte, add_byte_lt}

get_elem?-some :
    (xs : List ℕ) (i : ℕ)
    → All IsByte xs
    → i < length xs
    → (b : ℕ) × (get_elem? xs i ≡ some b) × IsByte b
get_elem?-some [] i bytes h = elim h [ ]
get_elem?-some (x ∷ xs) zero bytes h = (x, refl, bytes.0)
get_elem?-some (x ∷ xs) (suc i) bytes h = get_elem?-some xs i bytes.1 (omega arith)

from_bytes-lt : (n : ℕ) (bs : List ℕ) → All IsByte bs → length bs ≡ n → from_bytes bs < 2 ^ (8 * n)
from_bytes-lt zero [] bytes e = omega arith
from_bytes-lt zero (b ∷ bs) bytes e = absurd (omega arith)
from_bytes-lt (suc n) [] bytes e = absurd (omega arith)
from_bytes-lt (suc n) (b ∷ bs) bytes e =
    let e' : suc n ≡ n + 1 = omega arith in
    rw (e', next_byte n) (omega (arith, from_bytes-lt n bs bytes.1 (omega arith)))

long_size_lt : (b : Bool) (n : ℕ) → n < 2 ^ (8 * (0 + (if b then 2 else 4))) → n < 2 ^ 32
long_size_lt true n h = omega arith
long_size_lt false n h = omega arith

module _ (buffer : List ℕ) (bytes : All IsByte buffer) where
  pub load-Answers : (i : ℕ) → i < length buffer → Answers IsByte (load buffer i)
  unfolding load
  load-Answers i h =
      let (b, found, byte) = get_elem?-some buffer i bytes h in rw (found, load) (returns byte)

  load_bytes-Answers :
      (cursor n : ℕ)
      → cursor + n ≤ length buffer
      → Answers (λ bs. All IsByte bs × (length bs ≡ n)) (load_bytes buffer cursor n)
  unfolding load_bytes
  load_bytes-Answers cursor zero h = returns (tt, refl)
  load_bytes-Answers cursor (suc n) h = Answers-bind (load-Answers cursor (omega arith)) λ b byte.
      Answers-bind (load_bytes-Answers (cursor + 1) n (omega arith))
        λ bs (all, count). returns ((byte, all), ap suc count)

  -- A guarded read ends inside the buffer, `n` bytes further on.
  read_bytes-Answers :
      (cursor n : ℕ)
      → Answers
          (λ (bs, after).
            All IsByte bs × (length bs ≡ n) × (after ≡ cursor + n) × (after ≤ length buffer))
          (read_bytes buffer cursor n)
  unfolding read_bytes
  read_bytes-Answers cursor n =
      Answers-if (ltb (length buffer) (cursor + n)) (λ _. rejects)
        λ fits.
          Answers-bind (load_bytes-Answers cursor n (ground arith))
            λ bs (all, count). returns (all, count, refl, ground arith)

  size_loop-Answers :
      (cursor n i value : ℕ)
      → cursor + i + n ≤ length buffer
      → value < 2 ^ (8 * i)
      → Answers (λ v. v < 2 ^ (8 * (i + n))) (size_loop buffer cursor n i value)
  unfolding size_loop
  size_loop-Answers cursor zero i value h small =
      returns (let e : i + 0 ≡ i = omega arith in rw e small)
  size_loop-Answers cursor (suc n) i value h small =
      Answers-bind (load-Answers (cursor + i) (omega arith)) λ b byte.
        let e : i + suc n ≡ i + 1 + n = omega arith in
        rw (e, bit_or-shift (8 * i) value b small)
          (size_loop-Answers cursor n (i + 1) (value + b * 2 ^ (8 * i)) (omega arith)
            (rw (next_byte i) (add_byte_lt value b _ small byte)))

  -- A size is a 32-bit number, and at least one byte long.
  pub read_size-Answers :
      (cursor : ℕ)
      → Answers
          (λ (n, after). (n < 2 ^ 32) × (cursor < after) × (after ≤ length buffer))
          (read_size buffer cursor)
  unfolding read_size
  read_size-Answers cursor =
      Answers-if (leb (length buffer) cursor) (λ _. rejects)
        λ inside. Answers-bind (load-Answers cursor (ground arith)) λ first byte.
          let bytes : ℕ = if first == 254 then 2 else 4 in
          Answers-if (ltb first 254) (λ short. returns (ground arith, omega arith, ground arith))
            λ long.
              Answers-if (ltb (length buffer) (cursor + 1 + bytes)) (λ _. rejects)
                λ fits.
                  Answers-bind
                    (size_loop-Answers (cursor + 1) bytes 0 0 (ground arith) (omega arith))
                    λ value small.
                      returns (long_size_lt (first == 254) value small, ground arith, ground arith)

  skip_loop-Answers :
      (rounds cursor : ℕ)
      → (8 - cursor % 8) % 8 < rounds
      → Answers (λ after. cursor ≤ after) (skip_loop rounds 8 (length buffer) cursor)
  unfolding skip_loop
  skip_loop-Answers zero cursor h = absurd (omega arith)
  skip_loop-Answers (suc rounds) cursor h =
      Answers-if (cursor % 8 == 0) (λ _. returns (omega arith))
        λ more.
          Answers-if (leb (length buffer) cursor) (λ _. rejects)
            λ inside.
              Answers-weaken (skip_loop-Answers rounds (cursor + 1) (ground arith))
                λ after h'. omega arith

  -- What a reader of one value returns from `cursor` on: an encodable value, and a cursor that has
  -- not gone back nor left the buffer.
  abbrev pub Within : ℕ → StdValue × ℕ → Type 0
  Within cursor (v, after) = IsEncodable v × (cursor ≤ after) × (after ≤ length buffer)

  pub read_int32-Answers : (cursor : ℕ) → Answers (Within cursor) (read_int32 buffer cursor)
  unfolding read_int32 sign_extend
  read_int32-Answers cursor =
      Answers-bind (read_bytes-Answers cursor 4) λ (bs, after) (all, count, moved, inside).
        returns (ground (arith, from_bytes-lt 4 bs all count), omega arith, inside)

  pub read_int64-Answers : (cursor : ℕ) → Answers (Within cursor) (read_int64 buffer cursor)
  unfolding read_int64
  read_int64-Answers cursor =
      Answers-bind (read_bytes-Answers cursor 8) λ (bs, after) (all, count, moved, inside).
        returns (from_bytes-lt 8 bs all count, omega arith, inside)

  pub read_float64-Answers : (cursor : ℕ) → Answers (Within cursor) (read_float64 buffer cursor)
  unfolding read_float64 skip_alignment
  read_float64-Answers cursor =
      Answers-bind (skip_loop-Answers 8 cursor (omega arith)) λ aligned on.
        Answers-bind (read_bytes-Answers aligned 8) λ (bs, after) (all, count, moved, inside).
          returns (from_bytes-lt 8 bs all count, omega arith, inside)

  pub read_string-Answers : (cursor : ℕ) → Answers (Within cursor) (read_string buffer cursor)
  unfolding read_string
  read_string-Answers cursor =
      Answers-bind (read_size-Answers cursor) λ (len, start) (small, on, _).
        Answers-bind (read_bytes-Answers start len) λ (s, after) (all, count, moved, inside).
          returns ((all, rw count small), omega arith, inside)
