-- ===== src/Codec/Value.antt =====
-- struct StdValue (standard_message_codec.h): the tag with the one payload that belongs to it.
-- An int64_t and a double are their 64-bit patterns; a std::string is its bytes.
use flutter_libnx.Prelude.{
  ℕ, suc, ◌-◌, ◌^◌, ◌<◌, Bool, true, List, ltb, leb, All, IsByte, length, if◌then◌else◌,
}

-- `Items` is std::vector<StdValue>, and `Entries` the vector of pairs of a map.
mutual
  pub data StdValue : Type 0 where
    null : StdValue
    bool : Bool → StdValue
    int : ℕ → StdValue
    double : ℕ → StdValue
    string : List ℕ → StdValue
    list : Items → StdValue
    map : Entries → StdValue

  pub data Items : Type 0 where
    no_items : Items
    item : StdValue → Items → Items

  pub data Entries : Type 0 where
    no_entries : Entries
    entry : StdValue → StdValue → Entries → Entries

abbrev pub count_items : Items → ℕ
count_items no_items = 0
count_items (item v vs) = suc (count_items vs)

abbrev pub count_entries : Entries → ℕ
count_entries no_entries = 0
count_entries (entry k v es) = suc (count_entries es)

-- as_map of a value of any type: only a map has entries.
unfoldable pub as_map : StdValue → Entries
as_map (map es) = es
as_map v = no_entries

-- The integer of a 64-bit pattern is `w` below 2 ^ 63 and `w - 2 ^ 64` from there on, so that
-- `as_int >= INT32_MIN` and `as_int <= INT32_MAX` read as follows.
unfoldable pub ge_int32_min : ℕ → Bool
ge_int32_min w = if ltb w (2 ^ 63) then true else leb (2 ^ 64 - 2 ^ 31) w

unfoldable pub le_int32_max : ℕ → Bool
le_int32_max w = if ltb w (2 ^ 63) then leb w (2 ^ 31 - 1) else true

-- What the format can carry: 64-bit words, bytes, and sizes that fit the 32 bits of a size.
abbrev mutual
  pub IsEncodable : StdValue → Type 0
  IsEncodable null = Unit
  IsEncodable (bool b) = Unit
  IsEncodable (int w) = w < 2 ^ 64
  IsEncodable (double w) = w < 2 ^ 64
  IsEncodable (string s) = All IsByte s × (length s < 2 ^ 32)
  IsEncodable (list vs) = AreEncodable vs × (count_items vs < 2 ^ 32)
  IsEncodable (map es) = AreEntriesEncodable es × (count_entries es < 2 ^ 32)

  pub AreEncodable : Items → Type 0
  AreEncodable no_items = Unit
  AreEncodable (item v vs) = IsEncodable v × AreEncodable vs

  pub AreEntriesEncodable : Entries → Type 0
  AreEntriesEncodable no_entries = Unit
  AreEntriesEncodable (entry k v es) = IsEncodable k × IsEncodable v × AreEntriesEncodable es
