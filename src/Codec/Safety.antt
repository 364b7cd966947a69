-- ===== src/Codec/Safety.antt =====
-- DecodeStdValue on any bytes, well formed or not.

use flutter_libnx.Prelude.{
  ℕ, zero, suc, ◌+◌, ◌-◌, ◌<◌, ◌≤◌, ◌≡◌, ◌≢◌, refl, List, length, All, IsByte, arith, leb, ◌==◌,
}
use flutter_libnx.Codec.Value.{
  StdValue, IsEncodable, AreEncodable, AreEntriesEncodable, count_items, count_entries,
}
use flutter_libnx.Codec.Decode.{
  Decoded, ok, fault, stuck, read_list, read_map, decode_items, decode_entries, decode_payload,
  decode, decode_std_value,
}
use flutter_libnx.Codec.Answers.{
  Answers, returns, rejects, Answers-bind, Answers-if, Answers-weaken, Answers-ok, Answers-ne-fault,
  Answers-ne-stuck,
}
use flutter_libnx.Codec.Reads.{
  Within, load-Answers, read_size-Answers, read_int32-Answers, read_int64-Answers,
  read_float64-Answers, read_string-Answers,
}

module _ (buffer : List ℕ) (bytes : All IsByte buffer) where
  -- The recursive call, from `lo` on.
  abbrev DecodesFrom : ℕ → (ℕ → Decoded (StdValue × ℕ)) → Type 0
  DecodesFrom lo decode_item = (c : ℕ) → lo ≤ c → Answers (Within buffer bytes c) (decode_item c)

  decode_items-Answers :
      (decode_item : ℕ → Decoded (StdValue × ℕ)) (lo count cursor : ℕ)
      → DecodesFrom lo decode_item
      → lo ≤ cursor
      → cursor ≤ length buffer
      → Answers
          (λ (vs, after).
            AreEncodable vs × (count_items vs ≡ count) × (cursor ≤ after) × (after ≤ length buffer))
          (decode_items decode_item count cursor)
  unfolding decode_items
  decode_items-Answers decode_item lo zero cursor h from inside =
      returns (tt, refl, omega arith, inside)
  decode_items-Answers decode_item lo (suc count) cursor h from inside =
      Answers-bind (h cursor from) λ (v, c) (valid, on, within).
        Answers-bind (decode_items-Answers decode_item lo count c h (omega arith) within)
          λ (vs, after) (all, counted, on', within').
            returns ((valid, all), omega arith, omega arith, within')

  decode_entries-Answers :
      (decode_item : ℕ → Decoded (StdValue × ℕ)) (lo count cursor : ℕ)
      → DecodesFrom lo decode_item
      → lo ≤ cursor
      → cursor ≤ length buffer
      → Answers
          (λ (es, after).
            AreEntriesEncodable es
            × (count_entries es ≡ count)
            × (cursor ≤ after)
            × (after ≤ length buffer))
          (decode_entries decode_item count cursor)
  unfolding decode_entries
  decode_entries-Answers decode_item lo zero cursor h from inside =
      returns (tt, refl, omega arith, inside)
  decode_entries-Answers decode_item lo (suc count) cursor h from inside =
      Answers-bind (h cursor from) λ (k, c) (key, on, within).
        Answers-bind (h c (omega arith)) λ (v, c') (valid, on', within').
          Answers-bind (decode_entries-Answers decode_item lo count c' h (omega arith) within')
            λ (es, after) (all, counted, on'', within'').
              returns ((key, valid, all), omega arith, omega arith, within'')

  module _ (decode_item : ℕ → Decoded (StdValue × ℕ)) (cursor : ℕ)
      (h : DecodesFrom cursor decode_item) where
    read_list-Answers : Answers (Within buffer bytes cursor) (read_list decode_item buffer cursor)
    unfolding read_list
    read_list-Answers =
        Answers-bind (read_size-Answers buffer bytes cursor) λ (count, start) (small, on, within).
          Answers-bind (decode_items-Answers decode_item cursor count start h (omega arith) within)
            λ (vs, after) (all, counted, on', within').
              returns ((all, rw counted small), omega arith, within')

    read_map-Answers : Answers (Within buffer bytes cursor) (read_map decode_item buffer cursor)
    unfolding read_map
    read_map-Answers =
        Answers-bind (read_size-Answers buffer bytes cursor) λ (count, start) (small, on, within).
          Answers-bind
            (decode_entries-Answers decode_item cursor count start h (omega arith) within)
            λ (es, after) (all, counted, on', within').
              returns ((all, rw counted small), omega arith, within')

    decode_payload-Answers :
        (type : ℕ)
        → cursor ≤ length buffer
        → Answers (Within buffer bytes cursor) (decode_payload decode_item buffer cursor type)
    unfolding decode_payload
    decode_payload-Answers type inside =
        Answers-if (type == 0) (λ _. returns (tt, omega arith, inside))
          λ _.
            Answers-if (type == 1) (λ _. returns (tt, omega arith, inside))
              λ _.
                Answers-if (type == 2) (λ _. returns (tt, omega arith, inside))
                  λ _.
                    Answers-if (type == 3) (λ _. read_int32-Answers buffer bytes cursor)
                      λ _.
                        Answers-if (type == 4) (λ _. read_int64-Answers buffer bytes cursor)
                          λ _.
                            Answers-if (type == 6) (λ _. read_float64-Answers buffer bytes cursor)
                              λ _.
                                Answers-if (type == 7)
                                  (λ _. read_string-Answers buffer bytes cursor)
                                  λ _.
                                    Answers-if (type == 12) (λ _. read_list-Answers)
                                      λ _.
                                        Answers-if (type == 13) (λ _. read_map-Answers) λ _. rejects

  -- A nested value starts at least one byte further on, so the fuel outlasts the buffer.
  decode-Answers :
      (f cursor : ℕ)
      → length buffer - cursor < f
      → Answers
          (λ (v, after). IsEncodable v × (cursor < after) × (after ≤ length buffer))
          (decode f buffer cursor)
  unfolding decode
  decode-Answers zero cursor h = absurd (omega arith)
  decode-Answers (suc f) cursor h =
      Answers-if (leb (length buffer) cursor) (λ _. rejects)
        λ inside. Answers-bind (load-Answers buffer bytes cursor (ground arith)) λ type byte.
          Answers-weaken
            (decode_payload-Answers (λ c. decode f buffer c) (cursor + 1)
              (λ c from.
                Answers-weaken (decode-Answers f c (ground arith))
                  λ (v, after) (valid, on, within). (valid, omega arith, within))
              type (ground arith))
            λ (v, after) (valid, on, within). (valid, omega arith, within)

pub decode_std_value-Answers :
    (buffer : List ℕ) (cursor : ℕ)
    → All IsByte buffer
    → Answers
        (λ (v, after). IsEncodable v × (cursor < after) × (after ≤ length buffer))
        (decode_std_value buffer cursor)
unfolding decode_std_value
decode_std_value-Answers buffer cursor bytes =
    decode-Answers buffer bytes (suc (length buffer)) cursor (omega arith)

-- On any buffer of bytes and at any cursor DecodeStdValue ends: it never reads outside the buffer,
-- and its recursion never uses up the fuel that `decode_std_value` gives it. A value that it returns
-- can be encoded again, and the cursor has moved on and stays within the buffer.
pub decode_std_value_safe :
    (buffer : List ℕ) (cursor : ℕ)
    → All IsByte buffer
    → (decode_std_value buffer cursor ≢ fault)
      × (decode_std_value buffer cursor ≢ stuck)
      × ((v : StdValue) (after : ℕ)
          → decode_std_value buffer cursor ≡ ok (v, after)
          → IsEncodable v × (cursor < after) × (after ≤ length buffer))
decode_std_value_safe buffer cursor bytes =
    let h = decode_std_value-Answers buffer cursor bytes in
    (Answers-ne-fault h, Answers-ne-stuck h, λ v after e. Answers-ok h e)
