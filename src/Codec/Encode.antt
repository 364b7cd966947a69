-- ===== src/Codec/Encode.antt =====
-- The writers of standard_message_codec.cpp. `out` is the vector that they append to.
use flutter_libnx.Prelude.{
  ℕ, zero, suc, ◌/◌, ◌%◌, ◌^◌, ◌&&◌, List, [], ◌∷◌, ◌++◌, ltb, leb, ◌==◌, length, if◌then◌else◌,
  word_bytes,
}
use flutter_libnx.Codec.Value.{
  StdValue, Items, Entries, null, bool, int, double, string, list, map, no_items, item, no_entries,
  entry, count_items, count_entries, ge_int32_min, le_int32_max,
}

-- The type bytes of message_codecs.dart.
abbrev pub type_null : ℕ
type_null = 0

abbrev pub type_true : ℕ
type_true = 1

abbrev pub type_false : ℕ
type_false = 2

abbrev pub type_int32 : ℕ
type_int32 = 3

abbrev pub type_int64 : ℕ
type_int64 = 4

abbrev pub type_float64 : ℕ
type_float64 = 6

abbrev pub type_string : ℕ
type_string = 7

abbrev pub type_list : ℕ
type_list = 12

abbrev pub type_map : ℕ
type_map = 13

abbrev pub push_back : ℕ → List ℕ → List ℕ
push_back b out = out ++ (b ∷ [])

-- `for (i < n) out->push_back((w >> (8 * i)) & 0xFF)`
abbrev pub push_word : ℕ → ℕ → List ℕ → List ℕ
push_word n w out = out ++ word_bytes n 0 w

unfoldable pub write_size : ℕ → List ℕ → List ℕ
write_size n out =
    if ltb n 254
    then push_back (n % 256) out
    else if leb n 0xFFFF
    then push_back (n / 2 ^ 8 % 256) (push_back (n % 256) (push_back 254 out))
    else push_word 4 n (push_back 255 out)

-- `while (out->size() % alignment != 0)`; `align_to` gives it `alignment` rounds.
unfoldable pub align_loop : ℕ → ℕ → List ℕ → List ℕ
align_loop zero alignment out = out
align_loop (suc rounds) alignment out =
    let padded = align_loop rounds alignment (push_back 0 out) in
    if length out % alignment == 0 then out else padded

unfoldable pub align_to : ℕ → List ℕ → List ℕ
unfolding align_loop
align_to alignment out = align_loop alignment alignment out

unfoldable pub encode_int : ℕ → List ℕ → List ℕ
unfolding ge_int32_min le_int32_max
encode_int w out =
    if ge_int32_min w && le_int32_max w
    then push_word 4 w (push_back type_int32 out)
    else push_word 8 w (push_back type_int64 out)

-- EncodeStdValue
unfoldable mutual
  pub encode : StdValue → List ℕ → List ℕ
  encode null out = push_back type_null out
  encode (bool b) out = push_back (if b then type_true else type_false) out
  encode (int w) out = encode_int w out
  encode (double w) out = push_word 8 w (align_to 8 (push_back type_float64 out))
  encode (string s) out = write_size (length s) (push_back type_string out) ++ s
  encode (list vs) out = encode_items vs (write_size (count_items vs) (push_back type_list out))
  encode (map es) out = encode_entries es (write_size (count_entries es) (push_back type_map out))

  pub encode_items : Items → List ℕ → List ℕ
  encode_items no_items out = out
  encode_items (item v vs) out = encode_items vs (encode v out)

  pub encode_entries : Entries → List ℕ → List ℕ
  encode_entries no_entries out = out
  encode_entries (entry k v es) out = encode_entries es (encode v (encode k out))
