-- ===== src/Libraries/Table.antt =====
-- The tables of symbols and the searches in them.
use flutter_libnx.Prelude.{
  ℕ, zero, suc, ◌+◌, ◌-◌, ◌/◌, Bool, true, false, ◌&&◌, ◌||◌, Option, none, some, List, [], ◌∷◌,
  ltb, ◌==◌, if◌then◌else◌, bytes_eq, get_elem?, length,
}

pub record StaticSymbol : Type 0 where
  pub name : List ℕ
  pub address : ℕ

-- `strcmp(a, b) < 0`
unfoldable pub less : List ℕ → List ℕ → Bool
less xs [] = false
less [] (y ∷ ys) = true
less (x ∷ xs) (y ∷ ys) = ltb x y || (x == y && less xs ys)

-- An address, or nullptr. `fault` is a read past the table, and `stuck` a loop that used up its fuel:
-- neither is a result of the program.
pub data Found : Type 0 where
  found : ℕ → Found
  null fault stuck : Found

-- LookupProcess's loop.
unfoldable pub linear : List StaticSymbol → List ℕ → Found
linear [] name = null
linear (s ∷ ss) name = if bytes_eq s.name name then found s.address else linear ss name

-- What the loop compares with, and how it goes on. `end` is `hi + 1`.
pub data Probe : Type 0 where
  result : Found → Probe
  range : ℕ → ℕ → Probe

unfoldable pub probe : Option StaticSymbol → List ℕ → ℕ → ℕ → ℕ → Probe
unfolding less
probe none name mid lo end = result fault
probe (some s) name mid lo end =
    if bytes_eq s.name name
    then result (found s.address)
    else if less s.name name
    then range (mid + 1) end
    else range lo mid

abbrev pub middle : ℕ → ℕ → ℕ
middle lo end = lo + (end - 1 - lo) / 2

module _ (table : List StaticSymbol) (name : List ℕ) where
  unfoldable pub lookup_loop : ℕ → ℕ → ℕ → Found
  unfolding probe
  lookup_loop zero lo end = stuck
  lookup_loop (suc fuel) lo end =
      let next = probe (get_elem? table (middle lo end)) name (middle lo end) lo end in
      elim (ltb lo end) [
        | false ↦ null
        | true ↦ elim next [ result r ↦ r | range lo' end' ↦ lookup_loop fuel lo' end' ]
      ]

  -- LookupMpvRaw and LookupSqlite3, each on its table.
  unfoldable pub lookup : Found
  unfolding lookup_loop
  lookup = lookup_loop (suc (length table)) 0 (length table)
