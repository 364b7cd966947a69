-- ===== src/Libraries/Search.antt =====
-- The binary search finds what a search from the start would find.
use flutter_libnx.Prelude.{
  ℕ, zero, suc, ◌+◌, ◌-◌, ◌<◌, ◌≤◌, ◌≡◌, refl, sym, true, false, none, some, List, [], ◌∷◌, arith,
  ltb, Bool-cases, Option-cases, inl, inr, bytes_eq, bytes_eq→eq, get_elem?, length,
}
use flutter_libnx.Libraries.Table.{
  StaticSymbol, less, found, null, linear, probe, middle, lookup_loop, lookup,
}
use flutter_libnx.Libraries.Order.{
  less-ne, less-ne_swap, less_total, less_trans, is_ascending, ascending_pairs,
}

get_elem?-length :
    (table : List StaticSymbol) (i : ℕ) (s : StaticSymbol)
    → get_elem? table i ≡ some s
    → i < length table
get_elem?-length [] i s h = cc
get_elem?-length (x ∷ table) zero s h = omega arith
get_elem?-length (x ∷ table) (suc i) s h = omega (arith, get_elem?-length table i s h)

get_elem?-none : (table : List StaticSymbol) (i : ℕ) → get_elem? table i ≡ none → length table ≤ i
get_elem?-none [] i h = omega arith
get_elem?-none (x ∷ table) zero h = cc
get_elem?-none (x ∷ table) (suc i) h = omega (arith, get_elem?-none table i h)

linear_null :
    (table : List StaticSymbol) (name : List ℕ)
    → ((i : ℕ) (s : StaticSymbol) → get_elem? table i ≡ some s → bytes_eq s.name name ≡ false)
    → linear table name ≡ null
unfolding linear
linear_null [] name h = refl
linear_null (s ∷ table) name h = rw (h 0 s refl) (linear_null table name (λ i. h (suc i)))

linear_found :
    (table : List StaticSymbol) (name : List ℕ) (m : ℕ) (s : StaticSymbol)
    → get_elem? table m ≡ some s
    → bytes_eq s.name name ≡ true
    → ((i : ℕ) (t : StaticSymbol)
        → i < m
        → get_elem? table i ≡ some t
        → bytes_eq t.name name ≡ false)
    → linear table name ≡ found s.address
unfolding linear
linear_found [] name m s e hit before = cc
linear_found (u ∷ table) name zero s e hit before = let same : u ≡ s = cc in rw (same, hit)
linear_found (u ∷ table) name (suc m) s e hit before =
    rw (before 0 u (omega arith) refl)
      (linear_found table name m s e hit (λ i t lt. before (suc i) t (omega arith)))

module _ (table : List StaticSymbol) (name : List ℕ) (ascending : is_ascending table ≡ true) where
  -- All names below `lo` are less than the name, and all from `end` on are greater.
  abbrev Below : ℕ → Type 0
  Below lo =
      (i : ℕ) (s : StaticSymbol) → i < lo → get_elem? table i ≡ some s → less s.name name ≡ true

  abbrev Above : ℕ → Type 0
  Above end =
      (i : ℕ) (s : StaticSymbol) → end ≤ i → get_elem? table i ≡ some s → less name s.name ≡ true

  closed : (lo end : ℕ) → end ≤ lo → Below lo → Above end → linear table name ≡ null
  closed lo end h below above = linear_null table name (λ i s e. elim (Bool-cases (ltb i lo)) [
    | inl left ↦ less-ne s.name name (below i s (ground arith) e)
    | inr right ↦ less-ne_swap s.name name (above i s (ground arith) e)
  ])

  hit_lem :
      (m : ℕ) (s : StaticSymbol)
      → get_elem? table m ≡ some s
      → bytes_eq s.name name ≡ true
      → linear table name ≡ found s.address
  hit_lem m s e hit =
      let same = bytes_eq→eq s.name name hit in
      linear_found table name m s e hit (λ i t lt e_t.
        less-ne t.name name (rw (← same) (ascending_pairs table i m t s ascending lt e_t e)))

  Below-next :
      (m : ℕ) (s : StaticSymbol)
      → get_elem? table m ≡ some s
      → less s.name name ≡ true
      → Below (m + 1)
  Below-next m s e h i t lt e_t = elim (Bool-cases (ltb i m)) [
    | inl before ↦
        less_trans t.name s.name name (ascending_pairs table i m t s ascending (ground arith) e_t e)
          h
    | inr at ↦
        let same : i ≡ m = ground arith in
        let equal : t ≡ s = (let e' = rw same at e_t in cc) in rw equal h
  ]

  Above-next :
      (m : ℕ) (s : StaticSymbol) → get_elem? table m ≡ some s → less name s.name ≡ true → Above m
  Above-next m s e h i t le e_t = elim (Bool-cases (ltb m i)) [
    | inl behind ↦
        less_trans name s.name t.name h
          (ascending_pairs table m i s t ascending (ground arith) e e_t)
    | inr at ↦
        let same : i ≡ m = ground arith in
        let equal : t ≡ s = (let e' = rw same at e_t in cc) in rw equal h
  ]

  lookup_loop-linear :
      (fuel lo end : ℕ)
      → end - lo < fuel
      → end ≤ length table
      → Below lo
      → Above end
      → lookup_loop table name fuel lo end ≡ linear table name
  unfolding lookup_loop
  lookup_loop-linear zero lo end h inside below above = absurd (omega arith)
  lookup_loop-linear (suc fuel) lo end h inside below above = elim (Bool-cases (ltb lo end)) [
    | inr empty ↦ rw (empty, lookup_loop) (sym (closed lo end (ground arith) below above))
    | inl open_range ↦
        let m = middle lo end in
        let lo_m : lo ≤ m = omega arith in
        let m_end : m < end = ground arith in
        elim (Option-cases (get_elem? table m)) [
          | inl outside ↦ absurd (omega (arith, get_elem?-none table m outside))
          | inr (s, e) ↦ elim (Bool-cases (bytes_eq s.name name)) [
            | inl hit ↦
                rw (open_range, e, lookup_loop) (unfold probe in rw hit (sym (hit_lem m s e hit)))
            | inr other ↦ elim (Bool-cases (less s.name name)) [
              | inl smaller ↦
                  rw (open_range, e, lookup_loop)
                    (unfold probe in
                      rw (other, smaller)
                        (lookup_loop-linear fuel (m + 1) end (omega arith) inside
                          (Below-next m s e smaller) above))
              | inr greater ↦
                  rw (open_range, e, lookup_loop)
                    (unfold probe in
                      rw (other, greater)
                        (lookup_loop-linear fuel lo m (omega arith) (omega arith) below
                          (Above-next m s e (less_total s.name name other greater))))
            ]
          ]
        ]
  ]

  -- In a table whose names ascend strictly, the binary search ends without a read past the table, and
  -- gives the address that a search from the start gives, or null where that gives null.
  pub lookup-linear : lookup table name ≡ linear table name
  unfolding lookup
  lookup-linear =
      lookup_loop-linear (suc (length table)) 0 (length table) (omega arith) (omega arith)
        (λ i s lt. absurd (omega arith))
        (λ i s le e. absurd (omega (arith, get_elem?-length table i s e)))
