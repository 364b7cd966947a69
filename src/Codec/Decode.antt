-- ===== src/Codec/Decode.antt =====
-- The readers of standard_message_codec.cpp. The buffer is a list, `size` its length, and the cursor
-- is passed on. After `rejected` no caller looks at the cursor, so it is dropped there.
use flutter_libnx.Prelude.{
  ℕ, zero, suc, ◌+◌, ◌-◌, ◌*◌, ◌%◌, ◌^◌, bit_or, true, false, none, some, List, [], ◌∷◌, ltb, leb,
  ◌==◌, length, get_elem?, if◌then◌else◌, from_bytes,
}
use flutter_libnx.Codec.Value.{
  StdValue, Items, Entries, null, bool, int, double, string, list, map, no_items, item, no_entries,
  entry,
}
use flutter_libnx.Codec.Encode.{
  type_null, type_true, type_false, type_int32, type_int64, type_float64, type_string, type_list,
  type_map,
}

-- `rejected` is the result false. A read outside the buffer is `fault`, and a loop or a recursion
-- that uses up its fuel is `stuck`: neither is a result of the program.
pub data Decoded {ℓ} (A : Type ℓ) : Type ℓ where
  ok : A → Decoded A
  rejected fault stuck : Decoded A

infixl 5 ◌>>=◌
abbrev pub ◌>>=◌ {ℓ κ} : {A : Type ℓ} {B : Type κ} → Decoded A → (A → Decoded B) → Decoded B
ok a >>= f = f a
rejected >>= f = rejected
fault >>= f = fault
stuck >>= f = stuck

-- data[i]
unfoldable pub load : List ℕ → ℕ → Decoded ℕ
load buffer i = elim (get_elem? buffer i) [ none ↦ fault | some b ↦ ok b ]

-- The `n` bytes from `data + cursor` on, as memcpy and the constructor of std::string read them.
unfoldable pub load_bytes : List ℕ → ℕ → ℕ → Decoded (List ℕ)
unfolding load
load_bytes buffer cursor zero = ok []
load_bytes buffer cursor (suc n) = do
  b ← load buffer cursor
  bs ← load_bytes buffer (cursor + 1) n
  ok (b ∷ bs)

-- `value |= data[*cursor + i] << (8 * i)` for the `n` bytes from the i-th on.
unfoldable pub size_loop : List ℕ → ℕ → ℕ → ℕ → ℕ → Decoded ℕ
unfolding load
size_loop buffer cursor zero i value = ok value
size_loop buffer cursor (suc n) i value = do
  b ← load buffer (cursor + i)
  size_loop buffer cursor n (i + 1) (bit_or value (b * 2 ^ (8 * i)))

unfoldable pub read_size : List ℕ → ℕ → Decoded (ℕ × ℕ)
unfolding load size_loop
read_size buffer cursor = if leb (length buffer) cursor then rejected else do
  first ← load buffer cursor
  let bytes : ℕ = if first == 254 then 2 else 4
  if ltb first 254
      then ok (first, cursor + 1)
      else if ltb (length buffer) (cursor + 1 + bytes)
      then rejected
      else do value ← size_loop buffer (cursor + 1) bytes 0 0; ok (value, cursor + 1 + bytes)

-- `while (*cursor % alignment != 0)`; `skip_alignment` gives it `alignment` rounds.
unfoldable pub skip_loop : ℕ → ℕ → ℕ → ℕ → Decoded ℕ
skip_loop zero alignment size cursor = stuck
skip_loop (suc rounds) alignment size cursor =
    let rest = skip_loop rounds alignment size (cursor + 1) in
    if cursor % alignment == 0 then ok cursor else if leb size cursor then rejected else rest

unfoldable pub skip_alignment : ℕ → ℕ → ℕ → Decoded ℕ
unfolding skip_loop
skip_alignment alignment size cursor = skip_loop alignment alignment size cursor

-- memcpy of `n` bytes behind the guard `*cursor + n > size`.
unfoldable pub read_bytes : List ℕ → ℕ → ℕ → Decoded (List ℕ × ℕ)
unfolding load_bytes
read_bytes buffer cursor n =
    if ltb (length buffer) (cursor + n)
    then rejected
    else do bs ← load_bytes buffer cursor n; ok (bs, cursor + n)

-- `int32_t v` passed as an int64_t: the sign bit fills the upper half.
unfoldable pub sign_extend : ℕ → ℕ
sign_extend w = if ltb w (2 ^ 31) then w else w + (2 ^ 64 - 2 ^ 32)

unfoldable pub read_int32 : List ℕ → ℕ → Decoded (StdValue × ℕ)
unfolding read_bytes sign_extend
read_int32 buffer cursor = do
  (bs, after) ← read_bytes buffer cursor 4
  ok (int (sign_extend (from_bytes bs)), after)

unfoldable pub read_int64 : List ℕ → ℕ → Decoded (StdValue × ℕ)
unfolding read_bytes
read_int64 buffer cursor = do
  (bs, after) ← read_bytes buffer cursor 8
  ok (int (from_bytes bs), after)

unfoldable pub read_float64 : List ℕ → ℕ → Decoded (StdValue × ℕ)
unfolding read_bytes skip_alignment
read_float64 buffer cursor = do
  aligned ← skip_alignment 8 (length buffer) cursor
  (bs, after) ← read_bytes buffer aligned 8
  ok (double (from_bytes bs), after)

unfoldable pub read_string : List ℕ → ℕ → Decoded (StdValue × ℕ)
unfolding read_bytes read_size
read_string buffer cursor = do
  (len, start) ← read_size buffer cursor
  (s, after) ← read_bytes buffer start len
  ok (string s, after)

-- The loops over the elements; `decode_item` is the recursive call of DecodeStdValue.
unfoldable pub decode_items : (ℕ → Decoded (StdValue × ℕ)) → ℕ → ℕ → Decoded (Items × ℕ)
decode_items decode_item zero cursor = ok (no_items, cursor)
decode_items decode_item (suc count) cursor = do
  (v, c) ← decode_item cursor
  (vs, after) ← decode_items decode_item count c
  ok (item v vs, after)

unfoldable pub decode_entries : (ℕ → Decoded (StdValue × ℕ)) → ℕ → ℕ → Decoded (Entries × ℕ)
decode_entries decode_item zero cursor = ok (no_entries, cursor)
decode_entries decode_item (suc count) cursor = do
  (k, c) ← decode_item cursor
  (v, c') ← decode_item c
  (es, after) ← decode_entries decode_item count c'
  ok (entry k v es, after)

unfoldable pub read_list : (ℕ → Decoded (StdValue × ℕ)) → List ℕ → ℕ → Decoded (StdValue × ℕ)
unfolding read_size decode_items
read_list decode_item buffer cursor = do
  (count, start) ← read_size buffer cursor
  (vs, after) ← decode_items decode_item count start
  ok (list vs, after)

unfoldable pub read_map : (ℕ → Decoded (StdValue × ℕ)) → List ℕ → ℕ → Decoded (StdValue × ℕ)
unfolding read_size decode_entries
read_map decode_item buffer cursor = do
  (count, start) ← read_size buffer cursor
  (es, after) ← decode_entries decode_item count start
  ok (map es, after)

-- The switch on the type byte.
unfoldable pub decode_payload :
    (ℕ → Decoded (StdValue × ℕ)) → List ℕ → ℕ → ℕ → Decoded (StdValue × ℕ)
unfolding read_int32 read_int64 read_float64 read_string read_list read_map
decode_payload decode_item buffer cursor type =
    if type == type_null
    then ok (null, cursor)
    else if type == type_true
    then ok (bool true, cursor)
    else if type == type_false
    then ok (bool false, cursor)
    else if type == type_int32
    then read_int32 buffer cursor
    else if type == type_int64
    then read_int64 buffer cursor
    else if type == type_float64
    then read_float64 buffer cursor
    else if type == type_string
    then read_string buffer cursor
    else if type == type_list
    then read_list decode_item buffer cursor
    else if type == type_map
    then read_map decode_item buffer cursor
    else rejected

-- DecodeStdValue; each level of nesting takes a unit of fuel.
unfoldable pub decode : ℕ → List ℕ → ℕ → Decoded (StdValue × ℕ)
unfolding load decode_payload
decode zero buffer cursor = stuck
decode (suc fuel) buffer cursor = if leb (length buffer) cursor then rejected else do
  type ← load buffer cursor
  decode_payload (λ c. decode fuel buffer c) buffer (cursor + 1) type

-- A nested value starts at least one byte further on, so this fuel is enough.
unfoldable pub decode_std_value : List ℕ → ℕ → Decoded (StdValue × ℕ)
unfolding decode
decode_std_value buffer cursor = decode (suc (length buffer)) buffer cursor
