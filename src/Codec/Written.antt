-- ===== src/Codec/Written.antt =====
-- The writers only append, and each reader of a single value returns what was written.
use flutter_libnx.Prelude.{
  ℕ, suc, ◌+◌, ◌%◌, ◌^◌, ◌<◌, ◌≤◌, ◌≡◌, List, [], ◌∷◌, ◌++◌, length, word_bytes, arith, inl, inr,
  Bool-cases, true, ◌&&◌, lt→leb, max,
}
use native.Mathlib.Nat.{mod-eq_of_lt}
use flutter_libnx.Codec.Value.{
  StdValue, Items, Entries, null, bool, int, double, string, list, map, no_items, item, no_entries,
  entry, count_items, count_entries, ge_int32_min, le_int32_max,
}
use flutter_libnx.Codec.Encode.{
  push_back, push_word, write_size, align_to, encode_int, encode, encode_items, encode_entries,
  type_int32, type_int64, type_float64, type_string, type_list, type_map,
}
use flutter_libnx.Codec.Decode.{
  Decoded, ok, sign_extend, read_int32, read_int64, read_float64, read_string, decode_payload,
  decode,
}
use flutter_libnx.Codec.Extends.{
  Extends, Extends-refl, Extends-trans, Extends-append, length-Extends, length-push_back,
  load-push_back, read_bytes-append, from_bytes-word32, from_bytes-word64,
}
use flutter_libnx.Codec.Sizes.{
  write_size-Extends, read_size-write_size, align_to-Extends, skip_alignment-align_to,
}

-- A writer that appends `b` and then something goes on from `b`.
Extends-push_back : (b : ℕ) (out xs : List ℕ) → Extends (push_back b out) xs → Extends out xs
Extends-push_back b out xs e = Extends-trans out _ xs (Extends-append out (b ∷ [])) e

pub encode_int-Extends : (w : ℕ) (out : List ℕ) → Extends out (encode_int w out)
unfolding encode_int
encode_int-Extends w out = elim (Bool-cases (ge_int32_min w && le_int32_max w)) [
  | inl small ↦ rw small (Extends-push_back type_int32 out _ (Extends-append _ (word_bytes 4 0 w)))
  | inr large ↦ rw large (Extends-push_back type_int64 out _ (Extends-append _ (word_bytes 8 0 w)))
]

mutual
  unfolding encode

  pub encode-keeps : (v : StdValue) (out : List ℕ) → Extends out (encode v out)
  encode-keeps null out = Extends-append out _
  encode-keeps (bool b) out = Extends-append out _
  encode-keeps (int w) out = encode_int-Extends w out
  encode-keeps (double w) out =
      Extends-push_back type_float64 out _
        (Extends-trans _ _ _ (align_to-Extends 8 (push_back type_float64 out)) (Extends-append _ _))
  encode-keeps (string s) out = Extends-push_back type_string out _ (
      Extends-trans _ _ _ (write_size-Extends (length s) (push_back type_string out))
        (Extends-append _ s))
  encode-keeps (list vs) out = Extends-push_back type_list out _ (
      Extends-trans _ _ _ (write_size-Extends (count_items vs) (push_back type_list out))
        (encode_items-keeps vs _))
  encode-keeps (map es) out = Extends-push_back type_map out _ (
      Extends-trans _ _ _ (write_size-Extends (count_entries es) (push_back type_map out))
        (encode_entries-keeps es _))

  pub encode_items-keeps : (vs : Items) (out : List ℕ) → Extends out (encode_items vs out)
  encode_items-keeps no_items out = Extends-refl out
  encode_items-keeps (item v vs) out =
      Extends-trans _ _ _ (encode-keeps v out) (encode_items-keeps vs _)

  pub encode_entries-keeps : (es : Entries) (out : List ℕ) → Extends out (encode_entries es out)
  encode_entries-keeps no_entries out = Extends-refl out
  encode_entries-keeps (entry k v es) out =
      Extends-trans _ _ _ (encode-keeps k out)
        (Extends-trans _ _ _ (encode-keeps v _) (encode_entries-keeps es _))

-- An encoder only appends.
pub encode-Extends : (v : StdValue) (out : List ℕ) → Extends out (encode v out)
encode-Extends v out = encode-keeps v out

-- A writer that starts with a type byte writes something.
type_byte_longer :
    (b : ℕ) (out xs : List ℕ) → Extends (push_back b out) xs → length out + 1 ≤ length xs
type_byte_longer b out xs e = omega (arith, length-push_back b out, length-Extends _ xs e)

pub length-encode_int : (w : ℕ) (out : List ℕ) → length out + 1 ≤ length (encode_int w out)
unfolding encode_int
length-encode_int w out = elim (Bool-cases (ge_int32_min w && le_int32_max w)) [
  | inl small ↦ rw small (type_byte_longer type_int32 out _ (Extends-append _ (word_bytes 4 0 w)))
  | inr large ↦ rw large (type_byte_longer type_int64 out _ (Extends-append _ (word_bytes 8 0 w)))
]

pub length-encode_double : (w : ℕ) (out : List ℕ) → length out + 1 ≤ length (encode (double w) out)
unfolding encode
length-encode_double w out =
    type_byte_longer type_float64 out _
      (Extends-trans _ _ _ (align_to-Extends 8 (push_back type_float64 out)) (Extends-append _ _))

pub length-encode_string :
    (s : List ℕ) (out : List ℕ) → length out + 1 ≤ length (encode (string s) out)
unfolding encode
length-encode_string s out = type_byte_longer type_string out _ (
    Extends-trans _ _ _ (write_size-Extends (length s) (push_back type_string out))
      (Extends-append _ s))

-- How deeply lists and maps are nested, and so how much fuel `decode` takes.
unfoldable mutual
  pub depth : StdValue → ℕ
  depth null = 1
  depth (bool b) = 1
  depth (int w) = 1
  depth (double w) = 1
  depth (string s) = 1
  depth (list vs) = suc (depth_items vs)
  depth (map es) = suc (depth_entries es)

  pub depth_items : Items → ℕ
  depth_items no_items = 0
  depth_items (item v vs) = max (depth v) (depth_items vs)

  pub depth_entries : Entries → ℕ
  depth_entries no_entries = 0
  depth_entries (entry k v es) = max (depth k) (max (depth v) (depth_entries es))

-- The type byte is read first, and decides how the payload behind it is read.
pub decode-push_back :
    (f type : ℕ) (out whole : List ℕ)
    → Extends (push_back type out) whole
    → decode (suc f) whole (length out)
      ≡ decode_payload (λ c. decode f whole c) whole (length (push_back type out)) type
unfolding decode
decode-push_back f type out whole e =
    let longer = length-Extends _ whole e in
    let inside = lt→leb (length out) (length whole) (omega (arith, length-push_back type out)) in
    rw (inside, load-push_back type out whole e, length-push_back type out)

abbrev pub ReadsBack : StdValue → (List ℕ → ℕ → Decoded (StdValue × ℕ)) → (List ℕ → List ℕ) → Type 0
ReadsBack v read write =
    (out whole : List ℕ)
    → Extends (write out) whole
    → read whole (length out) ≡ ok (v, length (write out))

read_int32-push_word :
    (w : ℕ) → ReadsBack (int (sign_extend (w % 2 ^ 32))) read_int32 (push_word 4 w)
unfolding read_int32
read_int32-push_word w out whole e =
    rw (read_bytes-append out (word_bytes 4 0 w) whole e, from_bytes-word32 w)

read_int64-push_word : (w : ℕ) → ReadsBack (int (w % 2 ^ 64)) read_int64 (push_word 8 w)
unfolding read_int64
read_int64-push_word w out whole e =
    rw (read_bytes-append out (word_bytes 8 0 w) whole e, from_bytes-word64 w)

read_float64-push_word :
    (w : ℕ) → ReadsBack (double (w % 2 ^ 64)) read_float64 (λ out. push_word 8 w (align_to 8 out))
unfolding read_float64
read_float64-push_word w out whole e =
    let aligned = align_to 8 out in
    let fits =
      length-Extends aligned whole (Extends-trans aligned _ whole (Extends-append aligned _) e) in
    rw (skip_alignment-align_to out (length whole) fits)
      (rw (read_bytes-append aligned (word_bytes 8 0 w) whole e, from_bytes-word64 w))

sign_extend_small :
    (w : ℕ) → w < 2 ^ 64 → (ge_int32_min w && le_int32_max w) ≡ true → sign_extend (w % 2 ^ 32) ≡ w
unfolding sign_extend ge_int32_min le_int32_max
sign_extend_small w h small = ground arith

read_string-write_size :
    (s : List ℕ)
    → length s < 2 ^ 32
    → ReadsBack (string s) read_string (λ out. write_size (length s) out ++ s)
unfolding read_string
read_string-write_size s fits out whole e =
    let sized = write_size (length s) out in
    let e' = Extends-trans sized _ whole (Extends-append sized s) e in
    rw (read_size-write_size (length s) out whole fits e') (rw (read_bytes-append sized s whole e))

pub depth-pos : (v : StdValue) → 0 < depth v
unfolding depth
depth-pos null = omega arith
depth-pos _ = omega arith

-- With a unit of fuel for each level of nesting.
abbrev pub Decodes : ℕ → StdValue → Type 0
Decodes f v = ReadsBack v (decode f) (encode v)

pub Decodes-int : (f w : ℕ) → w < 2 ^ 64 → Decodes (suc f) (int w)
unfolding encode encode_int decode_payload
Decodes-int f w h out whole = elim (Bool-cases (ge_int32_min w && le_int32_max w)) [
  | inl small ↦ rw small (λ e.
      let e' = Extends-trans _ _ whole (Extends-append (push_back type_int32 out) _) e in
      rw (decode-push_back f type_int32 out whole e') (
        rw
          (read_int32-push_word w (push_back type_int32 out) whole e, sign_extend_small w h small)))
  | inr large ↦ rw large (λ e.
      let e' = Extends-trans _ _ whole (Extends-append (push_back type_int64 out) _) e in
      rw (decode-push_back f type_int64 out whole e')
        (rw (read_int64-push_word w (push_back type_int64 out) whole e, mod-eq_of_lt h)))
]

pub Decodes-double : (f w : ℕ) → w < 2 ^ 64 → Decodes (suc f) (double w)
unfolding encode decode_payload
Decodes-double f w h out whole e =
    let typed = push_back type_float64 out in
    let aligned = align_to 8 typed in
    let e' =
      Extends-trans typed aligned whole (align_to-Extends 8 typed)
        (Extends-trans aligned _ whole (Extends-append aligned _) e) in
    rw (decode-push_back f type_float64 out whole e')
      (rw (read_float64-push_word w typed whole e, mod-eq_of_lt h))

pub Decodes-string : (f : ℕ) (s : List ℕ) → length s < 2 ^ 32 → Decodes (suc f) (string s)
unfolding encode decode_payload
Decodes-string f s h out whole e =
    let typed = push_back type_string out in
    let sized = write_size (length s) typed in
    let e' =
      Extends-trans typed sized whole (write_size-Extends (length s) typed)
        (Extends-trans sized _ whole (Extends-append sized s) e) in
    rw (decode-push_back f type_string out whole e') (read_string-write_size s h typed whole e)
