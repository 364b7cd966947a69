-- ===== src/Codec/Tests.antt =====
-- Runs of the codec, and its theorems at concrete inputs.
use flutter_libnx.Prelude.{ℕ, ◌-◌, ◌^◌, ◌<◌, ◌≤◌, ◌≡◌, ◌≢◌, refl, [], ◌∷◌, ◌++◌, length, arith}
use flutter_libnx.Codec.Value.{
  StdValue, null, int, double, string, list, map, no_items, item, no_entries, entry, IsEncodable,
}
use flutter_libnx.Codec.Encode.{encode, write_size, align_to, encode_int}
use flutter_libnx.Codec.Decode.{ok, rejected, fault, stuck, decode_std_value}
use flutter_libnx.Codec.RoundTrip.{decode_std_value-encode}
use flutter_libnx.Codec.Safety.{decode_std_value_safe}
use flutter_libnx.Codec.Call.{decode_method_call, decode_method_call-encode}

-- {"a": [-2, 1.0, null]}
abbrev sample : StdValue
sample = map (
    entry (string (97 ∷ []))
      (list (item (int (2 ^ 64 - 2)) (item (double 0x3FF0_0000_0000_0000) (item null no_items))))
      no_entries)

sample_bytes :
    encode sample []
    ≡ 13 ∷ 1 ∷ 7 ∷ 1 ∷ 97 ∷ 12 ∷ 3 ∷ 3 ∷ 254 ∷ 255 ∷ 255 ∷ 255 ∷ 6 ∷ 0 ∷ 0 ∷ 0 ∷ 0 ∷ 0 ∷ 0 ∷ 0 ∷ 0
      ∷ 0 ∷ 240 ∷ 63 ∷ 0 ∷ []
unfolding encode write_size align_to encode_int
sample_bytes = refl

-- A list that says it has two elements and has one.
cut_off : decode_std_value (12 ∷ 2 ∷ 0 ∷ []) 0 ≡ rejected
unfolding decode_std_value
cut_off = refl

-- A Uint8List is not understood.
typed_array : decode_std_value (8 ∷ 0 ∷ []) 0 ≡ rejected
unfolding decode_std_value
typed_array = refl

decode_std_value-encode_example :
    decode_std_value (encode sample (0 ∷ []) ++ (9 ∷ [])) 1
    ≡ ok (sample, length (encode sample (0 ∷ [])))
decode_std_value-encode_example = decode_std_value-encode sample (0 ∷ []) (9 ∷ []) (omega arith)

decode_std_value_safe_example :
    (decode_std_value (12 ∷ 2 ∷ 0 ∷ []) 0 ≢ fault)
    × (decode_std_value (12 ∷ 2 ∷ 0 ∷ []) 0 ≢ stuck)
    × ((v : StdValue) (after : ℕ)
        → decode_std_value (12 ∷ 2 ∷ 0 ∷ []) 0 ≡ ok (v, after)
        → IsEncodable v × (0 < after) × (after ≤ 3))
decode_std_value_safe_example = decode_std_value_safe (12 ∷ 2 ∷ 0 ∷ []) 0 (omega arith)

decode_method_call-encode_example :
    decode_method_call (encode sample (encode (string (103 ∷ [])) []) ++ []) ≡ ok (103 ∷ [], sample)
decode_method_call-encode_example =
    decode_method_call-encode (103 ∷ []) sample [] (omega arith) (omega arith)
