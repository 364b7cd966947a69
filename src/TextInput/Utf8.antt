-- ===== src/TextInput/Utf8.antt =====
-- Utf16Length and AppendUtf8.
use flutter_libnx.Prelude.{
  ℕ, zero, suc, ◌+◌, ◌-◌, ◌/◌, ◌%◌, ◌^◌, ◌<◌, ◌≡◌, List, [], ◌∷◌, ◌++◌, arith, ltb, ◌==◌,
  if◌then◌else◌, bit_or, bit_or-shift, append_assoc, All, ◌∙◌, append-nil, Bool-cases, inl, inr,
  true,
}

-- The number of bytes that the first byte announces, and the units that they stand for.
abbrev utf8_bytes : ℕ → ℕ
utf8_bytes c = if c / 8 == 30 then 4 else if c / 32 == 6 then 2 else if c / 16 == 14 then 3 else 1

abbrev utf16_units : ℕ → ℕ
utf16_units c = if c / 8 == 30 then 2 else 1

-- The loop of Utf16Length over the bytes from `i` on, of which `skip` are passed over.
unfoldable pub utf16_loop : ℕ → List ℕ → ℕ
utf16_loop skip [] = 0
utf16_loop (suc skip) (c ∷ cs) = utf16_loop skip cs
utf16_loop zero (c ∷ cs) = utf16_units c + utf16_loop (utf8_bytes c - 1) cs

unfoldable pub utf16_length : List ℕ → ℕ
unfolding utf16_loop
utf16_length utf8 = utf16_loop 0 utf8

abbrev continuation : ℕ → ℕ
continuation bits = bit_or (bits % 64) 0x80

-- What AppendUtf8 appends.
unfoldable pub utf8_of : ℕ → List ℕ
utf8_of cp =
    if ltb cp 0x80
    then cp ∷ []
    else if ltb cp 0x800
    then bit_or (cp / 2 ^ 6) 0xC0 ∷ continuation cp ∷ []
    else if ltb cp 0x10000
    then bit_or (cp / 2 ^ 12) 0xE0 ∷ continuation (cp / 2 ^ 6) ∷ continuation cp ∷ []
    else bit_or (cp / 2 ^ 18) 0xF0 % 256
      ∷ continuation (cp / 2 ^ 12)
      ∷ continuation (cp / 2 ^ 6)
      ∷ continuation cp
      ∷ []

abbrev pub append_utf8 : List ℕ → ℕ → List ℕ
append_utf8 out cp = out ++ utf8_of cp

-- A text, code point by code point.
abbrev pub append_all : List ℕ → List ℕ → List ℕ
append_all out [] = out
append_all out (cp ∷ cps) = append_all (append_utf8 out cp) cps

abbrev pub IsCodePoint : ℕ → Type 0
IsCodePoint cp = cp < 0x110000

-- The UTF-16 units of a text: a surrogate pair from 0x10000 on, one unit below.
abbrev pub units_of : List ℕ → ℕ
units_of [] = 0
units_of (cp ∷ cps) = (if ltb cp 0x10000 then 1 else 2) + units_of cps

one_byte : (x : ℕ) (rest : List ℕ) → x < 128 → utf16_loop 0 (x ∷ rest) ≡ 1 + utf16_loop 0 rest
unfolding utf16_loop
one_byte x rest h = ground arith

two_bytes :
    (x y : ℕ) (rest : List ℕ)
    → x < 32
    → utf16_loop 0 (bit_or x 0xC0 ∷ y ∷ rest) ≡ 1 + utf16_loop 0 rest
unfolding utf16_loop
two_bytes x y rest h = rw (bit_or-shift 6 x 3 (omega arith)) (ground arith)

three_bytes :
    (x y z : ℕ) (rest : List ℕ)
    → x < 16
    → utf16_loop 0 (bit_or x 0xE0 ∷ y ∷ z ∷ rest) ≡ 1 + utf16_loop 0 rest
unfolding utf16_loop
three_bytes x y z rest h = rw (bit_or-shift 5 x 7 (omega arith)) (ground arith)

four_bytes :
    (x y z v : ℕ) (rest : List ℕ)
    → x < 8
    → utf16_loop 0 (bit_or x 0xF0 % 256 ∷ y ∷ z ∷ v ∷ rest) ≡ 2 + utf16_loop 0 rest
unfolding utf16_loop
four_bytes x y z v rest h = rw (bit_or-shift 4 x 15 (omega arith)) (ground arith)

loop-utf8_of :
    (cp : ℕ) (rest : List ℕ)
    → IsCodePoint cp
    → utf16_loop 0 (utf8_of cp ++ rest) ≡ (if ltb cp 0x10000 then 1 else 2) + utf16_loop 0 rest
unfolding utf8_of
loop-utf8_of cp rest h = elim (Bool-cases (ltb cp 0x80)) [
  | inl a ↦
      let w : ltb cp 0x10000 ≡ true = ground arith in rw (a, w) (one_byte cp rest (ground arith))
  | inr a ↦ elim (Bool-cases (ltb cp 0x800)) [
    | inl b ↦
        let w : ltb cp 0x10000 ≡ true = ground arith in
        rw (a, b, w) (two_bytes (cp / 2 ^ 6) _ rest (ground arith))
    | inr b ↦ elim (Bool-cases (ltb cp 0x10000)) [
      | inl c ↦ rw (a, b, c) (three_bytes (cp / 2 ^ 12) _ _ rest (ground arith))
      | inr c ↦ rw (a, b, c) (four_bytes (cp / 2 ^ 18) _ _ _ rest (omega arith))
    ]
  ]
]

loop-append_all :
    (cps out : List ℕ) (n : ℕ)
    → All IsCodePoint cps
    → ((rest : List ℕ) → utf16_loop 0 (out ++ rest) ≡ n + utf16_loop 0 rest)
    → utf16_length (append_all out cps) ≡ n + units_of cps
unfolding utf16_length utf16_loop
loop-append_all [] out n h before = rw (append-nil out) at (before [])
loop-append_all (cp ∷ cps) out n h before =
    loop-append_all cps (append_utf8 out cp) (n + (if ltb cp 0x10000 then 1 else 2)) h.1 (λ rest.
      rw (append_assoc out (utf8_of cp) rest, before (utf8_of cp ++ rest), loop-utf8_of cp rest h.0)
        (omega arith))
    ∙ omega arith

-- The UTF-16 length of a text of Unicode code points, built in UTF-8 by AppendUtf8, is one unit for
-- each code point below 0x10000 and two for each from there on.
pub utf16_length-append_all :
    (cps : List ℕ) → All IsCodePoint cps → utf16_length (append_all [] cps) ≡ units_of cps
utf16_length-append_all cps h = loop-append_all cps [] 0 h (λ rest. omega arith) ∙ omega arith
