-- ===== src/Codec/Extends.antt =====
-- A buffer that begins with what a writer has written, and what the readers find there.
use flutter_libnx.Prelude.{
  ℕ, ◌+◌, ◌*◌, ◌%◌, ◌^◌, ◌<◌, ◌≤◌, ◌≡◌, refl, sym, ap, ◌∙◌, List, [], ◌∷◌, ◌++◌, append-nil,
  append_assoc, length, length-append, get_elem?, All, IsByte, word_bytes, from_bytes, bit_or-shift,
  arith, ◌==◌, if◌then◌else◌,
}
use native.Mathlib.Numerals.{towards_suc}
use flutter_libnx.Codec.Encode.{push_back}
use flutter_libnx.Codec.Decode.{ok, load, load_bytes, size_loop, read_size, read_bytes}

-- `whole` is `front` with something behind it.
abbrev pub Extends : List ℕ → List ℕ → Type 0
Extends front whole = (t : List ℕ) × (whole ≡ front ++ t)

pub Extends-refl : (xs : List ℕ) → Extends xs xs
Extends-refl xs = ([], sym (append-nil xs))

pub Extends-trans : (xs ys zs : List ℕ) → Extends xs ys → Extends ys zs → Extends xs zs
Extends-trans xs ys zs (t, p) (u, q) = (t ++ u, rw (q, p, append_assoc))

pub Extends-append : (xs ys : List ℕ) → Extends xs (xs ++ ys)
Extends-append xs ys = (ys, refl)

pub length-Extends : (xs ys : List ℕ) → Extends xs ys → length xs ≤ length ys
length-Extends xs ys (t, p) = rw p (omega (arith, length-append xs t))

get_elem?-append : (xs ys : List ℕ) → get_elem? (xs ++ ys) (length xs) ≡ get_elem? ys 0
get_elem?-append [] ys = refl
get_elem?-append (x ∷ xs) ys = get_elem?-append xs ys

-- The byte behind `out` is the one that was pushed there.
pub load-push_back :
    (b : ℕ) (out whole : List ℕ) → Extends (push_back b out) whole → load whole (length out) ≡ ok b
unfolding load
load-push_back b out whole (t, p) = rw (p, append_assoc, get_elem?-append out (b ∷ t), load)

pub length-push_back : (b : ℕ) (out : List ℕ) → length (push_back b out) ≡ length out + 1
length-push_back b out = length-append out (b ∷ [])

push_back-Extends :
    (b : ℕ) (out bs whole : List ℕ)
    → Extends (out ++ (b ∷ bs)) whole
    → Extends (push_back b out ++ bs) whole
push_back-Extends b out bs whole (t, p) = (t, simp (p, append_assoc))

pub load_bytes-append :
    (out bs whole : List ℕ)
    → Extends (out ++ bs) whole
    → load_bytes whole (length out) (length bs) ≡ ok bs
unfolding load_bytes
load_bytes-append out [] whole e = refl
load_bytes-append out (b ∷ bs) whole e =
    let e' = push_back-Extends b out bs whole e in
    let after = Extends-trans (push_back b out) _ whole (Extends-append (push_back b out) bs) e' in
    let rest = load_bytes-append (push_back b out) bs whole e' in
    rw (load-push_back b out whole after) (rw (rw (length-push_back b out) at rest))

-- A guarded read returns what was written, and the cursor behind it.
pub read_bytes-append :
    (out bs whole : List ℕ)
    → Extends (out ++ bs) whole
    → read_bytes whole (length out) (length bs) ≡ ok (bs, length (out ++ bs))
unfolding read_bytes
read_bytes-append out bs whole e = ground (
  arith,
  load_bytes-append out bs whole e,
  length-append out bs,
  length-Extends (out ++ bs) whole e,
)

pub from_bytes-word32 : (w : ℕ) → from_bytes (word_bytes 4 0 w) ≡ w % 2 ^ 32
from_bytes-word32 w = omega arith

pub from_bytes-word64 : (w : ℕ) → from_bytes (word_bytes 8 0 w) ≡ w % 2 ^ 64
from_bytes-word64 w = omega arith

pub next_byte : (i : ℕ) → 2 ^ (8 * (i + 1)) ≡ 256 * 2 ^ (8 * i)
next_byte i = let e : 8 * (i + 1) ≡ 8 * i + 8 = omega arith in rw e (simp towards_suc (omega arith))

pub add_byte_lt : (v b m : ℕ) → v < m → b < 256 → v + b * m < 256 * m
add_byte_lt v b m h k = grind arith

-- The loop of ReadSize adds up its bytes: each `|=` sets bits that are still zero.
size_loop-append :
    (bs front whole : List ℕ) (cursor i value : ℕ)
    → Extends (front ++ bs) whole
    → cursor + i ≡ length front
    → All IsByte bs
    → value < 2 ^ (8 * i)
    → size_loop whole cursor (length bs) i value ≡ ok (value + from_bytes bs * 2 ^ (8 * i))
unfolding size_loop
size_loop-append [] front whole cursor i value e at_front bytes small = ground arith
size_loop-append (b ∷ bs) front whole cursor i value e at_front (byte, bytes) small =
    let e' = push_back-Extends b front bs whole e in
    let after =
      Extends-trans (push_back b front) _ whole (Extends-append (push_back b front) bs) e' in
    let here : load whole (cursor + i) ≡ ok b = rw at_front (load-push_back b front whole after) in
    rw here (
      rw (bit_or-shift (8 * i) value b small) (
        size_loop-append bs (push_back b front) whole cursor (i + 1) (value + b * 2 ^ (8 * i)) e'
          (omega (arith, length-push_back b front)) bytes
          (rw (next_byte i) (add_byte_lt value b _ small byte))
        ∙ ap ok (omega (arith, ap (λ (t : ℕ). from_bytes bs * t) (next_byte i)))))

-- ReadSize on a size of one byte, and on one of two or four bytes behind its marker.
pub read_size_short :
    (b : ℕ) (out whole : List ℕ)
    → b < 254
    → Extends (push_back b out) whole
    → read_size whole (length out) ≡ ok (b, length out + 1)
unfolding read_size
read_size_short b out whole short e = ground (
  arith,
  load-push_back b out whole e,
  length-push_back b out,
  length-Extends (push_back b out) whole e,
)

pub read_size_long :
    (first : ℕ) (out bs whole : List ℕ)
    → 254 ≤ first
    → length bs ≡ (if first == 254 then 2 else 4)
    → All IsByte bs
    → Extends (push_back first out ++ bs) whole
    → read_size whole (length out) ≡ ok (from_bytes bs, length (push_back first out ++ bs))
unfolding read_size
read_size_long first out bs whole long count bytes e =
    let marked = push_back first out in
    let after = Extends-trans marked _ whole (Extends-append marked bs) e in
    ground (
      arith,
      load-push_back first out whole after,
      length-push_back first out,
      length-append marked bs,
      length-Extends (marked ++ bs) whole e,
      size_loop-append bs marked whole (length out + 1) 0 0 e
          (omega (arith, length-push_back first out)) bytes (omega arith),
    )
