-- ===== src/Plugins/Table.antt =====
-- MapGet, MapSet and the loops of `remove` and `clear` over the entries of a map.
use flutter_libnx.Prelude.{
  ℕ, ◌≡◌, refl, Bool, true, false, Option, none, some, List, arith, if◌then◌else◌, codes, bytes_eq,
  bytes_eq_iff, begins_with, Bool-cases, inl, inr, bytes_eq_comm, bytes_eq→eq,
}
use flutter_libnx.Codec.Value.{StdValue, string, Entries, no_entries, entry}

-- `key.type == kString && key.as_string == k`
unfoldable pub is_key : List ℕ → StdValue → Bool
is_key k (string s) = bytes_eq s k
is_key k v = false

unfoldable pub map_get : List ℕ → Entries → Option StdValue
map_get k no_entries = none
map_get k (entry key v es) = if is_key k key then some v else map_get k es

unfoldable pub map_set : List ℕ → StdValue → Entries → Entries
map_set k v no_entries = entry (string k) v no_entries
map_set k v (entry key w es) = if is_key k key then entry key v es else entry key w (map_set k v es)

-- The first entry of the key is erased.
unfoldable pub map_erase : List ℕ → Entries → Entries
map_erase k no_entries = no_entries
map_erase k (entry key w es) = if is_key k key then es else entry key w (map_erase k es)

-- A string that begins with "flutter."
unfoldable pub is_flutter_key : StdValue → Bool
is_flutter_key (string s) = begins_with (codes "flutter.") s
is_flutter_key v = false

unfoldable pub map_clear : Entries → Entries
map_clear no_entries = no_entries
map_clear (entry key w es) = if is_flutter_key key then map_clear es else entry key w (map_clear es)

-- A key that is `k` is another key `j` just if `k` is `j`.
is_key-is_key : (j k : List ℕ) (key : StdValue) → is_key k key ≡ true → is_key j key ≡ bytes_eq k j
unfolding is_key
is_key-is_key j k (string s) h = ground (arith, bytes_eq_iff s k)
is_key-is_key j k v h = cc

-- MapGet after MapSet: the value that was set under its key, and what stood there under any other.
pub map_get-map_set :
    (j k : List ℕ) (v : StdValue) (es : Entries)
    → map_get j (map_set k v es) ≡ (if bytes_eq k j then some v else map_get j es)
unfolding map_get map_set
map_get-map_set j k v no_entries = unfold is_key in refl
map_get-map_set j k v (entry key w es) = elim (Bool-cases (is_key k key)) [
  | inl hit ↦ rw hit (ground (arith, is_key-is_key j k key hit))
  | inr miss ↦
      rw miss (ground (arith, is_key-is_key k j key, bytes_eq_comm j k, map_get-map_set j k v es))
]

-- At most one entry of each key.
abbrev pub LacksKey : StdValue → Entries → Type 0
LacksKey (string k) es = map_get k es ≡ none
LacksKey key es = Unit

abbrev pub HasUniqueKeys : Entries → Type 0
HasUniqueKeys no_entries = Unit
HasUniqueKeys (entry key v es) = LacksKey key es × HasUniqueKeys es

map_set-LacksKey :
    (k : List ℕ) (v key : StdValue) (es : Entries)
    → is_key k key ≡ false
    → LacksKey key es
    → LacksKey key (map_set k v es)
unfolding is_key
map_set-LacksKey k v (string j) es miss h = rw (map_get-map_set j k v es, bytes_eq_comm k j, miss) h
map_set-LacksKey k v key es miss h = tt

-- MapSet keeps the keys unique.
pub map_set-HasUniqueKeys :
    (k : List ℕ) (v : StdValue) (es : Entries) → HasUniqueKeys es → HasUniqueKeys (map_set k v es)
unfolding map_set
map_set-HasUniqueKeys k v no_entries h = unfold map_get in (refl, tt)
map_set-HasUniqueKeys k v (entry key w es) h = elim (Bool-cases (is_key k key)) [
  | inl hit ↦ rw hit h
  | inr miss ↦ rw miss (map_set-LacksKey k v key es miss h.0, map_set-HasUniqueKeys k v es h.1)
]

erased :
    (j k : List ℕ) (key : StdValue) (es : Entries)
    → is_key k key ≡ true
    → LacksKey key es
    → bytes_eq k j ≡ true
    → map_get j es ≡ none
unfolding is_key
erased j k (string s) es hit h same = rw (← bytes_eq→eq k j same, ← bytes_eq→eq s k hit) h
erased j k v es hit h same = cc

-- `remove`: afterwards the key is gone, and every other key has the value that it had. The keys are
-- unique, as MapSet keeps them.
pub map_get-map_erase :
    (j k : List ℕ) (es : Entries)
    → HasUniqueKeys es
    → map_get j (map_erase k es) ≡ (if bytes_eq k j then none else map_get j es)
unfolding map_get map_erase
map_get-map_erase j k no_entries h = ground arith
map_get-map_erase j k (entry key w es) h = elim (Bool-cases (is_key k key)) [
  | inl hit ↦ rw hit (ground (arith, is_key-is_key j k key hit, erased j k key es hit h.0))
  | inr miss ↦
      rw miss
        (ground (arith, is_key-is_key k j key, bytes_eq_comm j k, map_get-map_erase j k es h.1))
]

is_flutter_key-is_key :
    (j : List ℕ) (key : StdValue)
    → is_key j key ≡ true
    → is_flutter_key key ≡ begins_with (codes "flutter.") j
unfolding is_key is_flutter_key
is_flutter_key-is_key j (string s) h = rw (bytes_eq→eq s j h)
is_flutter_key-is_key j v h = cc

-- `clear`: the keys that begin with "flutter." are gone, and every other key has the value that it
-- had.
pub map_get-map_clear :
    (j : List ℕ) (es : Entries)
    → map_get j (map_clear es) ≡ (if begins_with (codes "flutter.") j then none else map_get j es)
unfolding map_get map_clear
map_get-map_clear j no_entries = ground arith
map_get-map_clear j (entry key w es) = elim (Bool-cases (is_flutter_key key)) [
  | inl own ↦ rw own (ground (arith, is_flutter_key-is_key j key, map_get-map_clear j es))
  | inr other ↦ rw other (ground (arith, is_flutter_key-is_key j key, map_get-map_clear j es))
]
