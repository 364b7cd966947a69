-- ===== src/Libraries/Order.antt =====
-- strcmp is a strict order.
use flutter_libnx.Prelude.{
  ℕ, ◌≡◌, refl, Bool, true, false, ◌&&◌, List, [], ◌∷◌, arith, bytes_eq, bytes_eq_iff, ◌<◌, some,
  get_elem?, zero, suc,
}
use flutter_libnx.Libraries.Table.{StaticSymbol, less}

pub less_irrefl : (xs : List ℕ) → less xs xs ≡ false
unfolding less
less_irrefl [] = refl
less_irrefl (x ∷ xs) = ground (arith, less_irrefl xs)

pub less_trans : (xs ys zs : List ℕ) → less xs ys ≡ true → less ys zs ≡ true → less xs zs ≡ true
unfolding less
less_trans xs ys [] h k = cc
less_trans xs [] (z ∷ zs) h k = cc
less_trans [] (y ∷ ys) (z ∷ zs) h k = refl
less_trans (x ∷ xs) (y ∷ ys) (z ∷ zs) h k = ground (arith, less_trans xs ys zs)

-- Of two different strings one is less.
pub less_total : (xs ys : List ℕ) → bytes_eq xs ys ≡ false → less xs ys ≡ false → less ys xs ≡ true
unfolding less bytes_eq
less_total [] [] h k = cc
less_total [] (y ∷ ys) h k = cc
less_total (x ∷ xs) [] h k = refl
less_total (x ∷ xs) (y ∷ ys) h k = ground (arith, less_total xs ys)

pub less-ne : (xs ys : List ℕ) → less xs ys ≡ true → bytes_eq xs ys ≡ false
less-ne xs ys h = ground (arith, bytes_eq_iff xs ys, less_irrefl ys)

pub less-ne_swap : (xs ys : List ℕ) → less ys xs ≡ true → bytes_eq xs ys ≡ false
less-ne_swap xs ys h = ground (arith, bytes_eq_iff xs ys, less_irrefl ys)

-- The order that `sort -u` gives the generated tables.
unfoldable pub is_ascending : List StaticSymbol → Bool
is_ascending [] = true
is_ascending (s ∷ []) = true
is_ascending (s ∷ t ∷ rest) = less s.name t.name && is_ascending (t ∷ rest)

ascending_tail :
    (s : StaticSymbol) (rest : List StaticSymbol)
    → is_ascending (s ∷ rest) ≡ true
    → is_ascending rest ≡ true
unfolding is_ascending
ascending_tail s [] h = refl
ascending_tail s (t ∷ rest) h = ground arith

head_least :
    (s t : StaticSymbol) (rest : List StaticSymbol) (j : ℕ)
    → is_ascending (s ∷ rest) ≡ true
    → get_elem? rest j ≡ some t
    → less s.name t.name ≡ true
unfolding is_ascending
head_least s t [] j h e = cc
head_least s t (u ∷ rest) zero h e = ground arith
head_least s t (u ∷ rest) (suc j) h e =
    less_trans s.name u.name t.name (ground arith) (head_least u t rest j (ground arith) e)

pub ascending_pairs :
    (table : List StaticSymbol) (i j : ℕ) (s t : StaticSymbol)
    → is_ascending table ≡ true
    → i < j
    → get_elem? table i ≡ some s
    → get_elem? table j ≡ some t
    → less s.name t.name ≡ true
ascending_pairs [] i j s t h lt a b = cc
ascending_pairs (u ∷ table) i zero s t h lt a b = absurd (omega arith)
ascending_pairs (u ∷ table) zero (suc j) s t h lt a b =
    let e : u ≡ s = cc in rw (← e) (head_least u t table j h b)
ascending_pairs (u ∷ table) (suc i) (suc j) s t h lt a b =
    ascending_pairs table i j s t (ascending_tail u table h) (omega arith) a b
