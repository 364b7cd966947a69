-- ===== src/Codec/RoundTrip.antt =====
-- What EncodeStdValue wrote, DecodeStdValue reads back, wherever in a buffer it stands.
use flutter_libnx.Prelude.{
  ℕ, zero, suc, ◌+◌, ◌≤◌, ◌≡◌, refl, List, ◌++◌, length, arith, true, false,
}
use flutter_libnx.Codec.Value.{
  StdValue, Items, Entries, null, bool, int, double, string, list, map, no_items, item, no_entries,
  entry, count_items, count_entries, IsEncodable, AreEncodable, AreEntriesEncodable,
}
use flutter_libnx.Codec.Encode.{
  push_back, write_size, encode, encode_items, encode_entries, type_null, type_true, type_false,
  type_list, type_map,
}
use flutter_libnx.Codec.Decode.{
  ok, read_list, read_map, decode_items, decode_entries, decode_payload, decode, decode_std_value,
}
use flutter_libnx.Codec.Extends.{
  Extends, Extends-trans, Extends-append, length-Extends, length-push_back,
}
use flutter_libnx.Codec.Written.{
  length-encode_int, length-encode_double, length-encode_string, depth, depth_items, depth_entries,
  depth-pos, Decodes, Decodes-int, Decodes-double, Decodes-string, decode-push_back,
  encode_items-keeps, encode_entries-keeps, encode-keeps,
}
use flutter_libnx.Codec.Sizes.{write_size-Extends, read_size-write_size}

mutual
  unfolding encode decode_payload decode_items decode_entries read_list read_map depth

  decode-reads : (v : StdValue) (f : ℕ) → IsEncodable v → depth v ≤ suc f → Decodes (suc f) v
  decode-reads null f h d out whole e = rw (decode-push_back f type_null out whole e)
  decode-reads (bool true) f h d out whole e = rw (decode-push_back f type_true out whole e)
  decode-reads (bool false) f h d out whole e = rw (decode-push_back f type_false out whole e)
  decode-reads (int w) f h d out whole e = Decodes-int f w h out whole e
  decode-reads (double w) f h d out whole e = Decodes-double f w h out whole e
  decode-reads (string s) f h d out whole e = Decodes-string f s h.1 out whole e
  decode-reads (list vs) f h d out whole e =
      let typed = push_back type_list out in
      let sized = write_size (count_items vs) typed in
      let e'' = Extends-trans sized _ whole (encode_items-keeps vs sized) e in
      let e' = Extends-trans typed sized whole (write_size-Extends (count_items vs) typed) e'' in
      rw (decode-push_back f type_list out whole e') (
        rw (read_size-write_size (count_items vs) typed whole h.1 e'')
          (rw (decode_items-reads vs f h.0 (omega arith) sized whole e)))
  decode-reads (map es) f h d out whole e =
      let typed = push_back type_map out in
      let sized = write_size (count_entries es) typed in
      let e'' = Extends-trans sized _ whole (encode_entries-keeps es sized) e in
      let e' = Extends-trans typed sized whole (write_size-Extends (count_entries es) typed) e'' in
      rw (decode-push_back f type_map out whole e') (
        rw (read_size-write_size (count_entries es) typed whole h.1 e'')
          (rw (decode_entries-reads es f h.0 (omega arith) sized whole e)))

  decode_items-reads :
      (vs : Items) (f : ℕ)
      → AreEncodable vs
      → depth_items vs ≤ f
      → (out whole : List ℕ) → Extends (encode_items vs out) whole
      → decode_items (λ c. decode f whole c) (count_items vs) (length out)
        ≡ ok (vs, length (encode_items vs out))
  decode_items-reads no_items f h d out whole e = refl
  decode_items-reads (item v vs) zero h d out whole e = absurd (omega (arith, depth-pos v))
  decode_items-reads (item v vs) (suc f) h d out whole e =
      let e' = Extends-trans _ _ whole (encode_items-keeps vs (encode v out)) e in
      rw (decode-reads v f h.0 (omega arith) out whole e')
        (rw (decode_items-reads vs (suc f) h.1 (omega arith) (encode v out) whole e))

  decode_entries-reads :
      (es : Entries) (f : ℕ)
      → AreEntriesEncodable es
      → depth_entries es ≤ f
      → (out whole : List ℕ) → Extends (encode_entries es out) whole
      → decode_entries (λ c. decode f whole c) (count_entries es) (length out)
        ≡ ok (es, length (encode_entries es out))
  decode_entries-reads no_entries f h d out whole e = refl
  decode_entries-reads (entry k v es) zero h d out whole e = absurd (omega (arith, depth-pos k))
  decode_entries-reads (entry k v es) (suc f) h d out whole e =
      let e'' = Extends-trans _ _ whole (encode_entries-keeps es (encode v (encode k out))) e in
      let e' = Extends-trans _ _ whole (encode-keeps v (encode k out)) e'' in
      rw (decode-reads k f h.0 (omega arith) out whole e') (
        rw (decode-reads v f h.1 (omega arith) (encode k out) whole e'')
          (rw (decode_entries-reads es (suc f) h.2 (omega arith) _ whole e)))

-- An encoding is at least as long as the value is deep.
mutual
  unfolding encode depth

  depth-encode : (v : StdValue) (out : List ℕ) → length out + depth v ≤ length (encode v out)
  depth-encode null out = omega (arith, length-push_back 0 out)
  depth-encode (bool true) out = omega (arith, length-push_back 1 out)
  depth-encode (bool false) out = omega (arith, length-push_back 2 out)
  depth-encode (int w) out = length-encode_int w out
  depth-encode (double w) out = length-encode_double w out
  depth-encode (string s) out = length-encode_string s out
  depth-encode (list vs) out = omega (
    arith,
    length-push_back type_list out,
    length-Extends _ _ (write_size-Extends (count_items vs) (push_back type_list out)),
    depth_items-encode vs (write_size (count_items vs) (push_back type_list out)),
  )
  depth-encode (map es) out = omega (
    arith,
    length-push_back type_map out,
    length-Extends _ _ (write_size-Extends (count_entries es) (push_back type_map out)),
    depth_entries-encode es (write_size (count_entries es) (push_back type_map out)),
  )

  depth_items-encode :
      (vs : Items) (out : List ℕ) → length out + depth_items vs ≤ length (encode_items vs out)
  depth_items-encode no_items out = omega arith
  depth_items-encode (item v vs) out =
      omega (arith, depth-encode v out, depth_items-encode vs (encode v out))

  depth_entries-encode :
      (es : Entries) (out : List ℕ) → length out + depth_entries es ≤ length (encode_entries es out)
  depth_entries-encode no_entries out = omega arith
  depth_entries-encode (entry k v es) out = omega (
    arith,
    depth-encode k out,
    depth-encode v (encode k out),
    depth_entries-encode es (encode v (encode k out)),
  )

pub decode-encode_within :
    (v : StdValue) (out whole : List ℕ)
    → IsEncodable v
    → Extends (encode v out) whole
    → decode_std_value whole (length out) ≡ ok (v, length (encode v out))
unfolding decode_std_value
decode-encode_within v out whole h e =
    decode-reads v (length whole) h
      (omega (arith, depth-encode v out, length-Extends (encode v out) whole e)) out whole e

-- A value that was encoded behind `out` is read back from there, whatever follows it: the value and
-- the cursor behind its encoding. Integers and doubles are 64-bit words, strings are bytes, and the
-- sizes fit 32 bits.
pub decode_std_value-encode :
    (v : StdValue) (out rest : List ℕ)
    → IsEncodable v
    → decode_std_value (encode v out ++ rest) (length out) ≡ ok (v, length (encode v out))
decode_std_value-encode v out rest h =
    decode-encode_within v out (encode v out ++ rest) h (Extends-append (encode v out) rest)
