-- ===== src/Prelude/Text.antt =====
-- Byte strings: the bytes of an ASCII text, equality, and prefixes.
use Prim.Native.Nat.{ℕ}
use Prim.Native.Char.{code}
use Prim.Native.String.{String}
use mathlib.Core.Path.{◌≡◌, refl}
use mathlib.Core.Bool.{Bool, true, false, ◌&&◌}
use mathlib.Core.Logic.{◌↔◌}
use mathlib.Core.List.{List, [], ◌∷◌, ◌++◌}
use mathlib.Core.Option.{Option, none, some}
use native.Mathlib.Omega.{arith}
use flutter_libnx.Prelude.Tests.{◌==◌, if◌then◌else◌}

abbrev pub codes : String → List ℕ
codes String.[] = []
codes (String.◌∷◌ c s) = code c ∷ codes s

-- `==` of std::string, and strcmp(a, b) == 0
unfoldable pub bytes_eq : List ℕ → List ℕ → Bool
bytes_eq [] [] = true
bytes_eq [] (y ∷ ys) = false
bytes_eq (x ∷ xs) [] = false
bytes_eq (x ∷ xs) (y ∷ ys) = x == y && bytes_eq xs ys

-- `text.rfind(prefix, 0) == 0`
unfoldable pub begins_with : List ℕ → List ℕ → Bool
begins_with [] text = true
begins_with (p ∷ ps) [] = false
begins_with (p ∷ ps) (c ∷ text) = p == c && begins_with ps text

pub bytes_eq→eq : (xs ys : List ℕ) → bytes_eq xs ys ≡ true → xs ≡ ys
unfolding bytes_eq
bytes_eq→eq [] [] h = refl
bytes_eq→eq [] (y ∷ ys) h = cc
bytes_eq→eq (x ∷ xs) [] h = cc
bytes_eq→eq (x ∷ xs) (y ∷ ys) h = ground (arith, bytes_eq→eq xs ys)

pub bytes_eq_refl : (xs : List ℕ) → bytes_eq xs xs ≡ true
unfolding bytes_eq
bytes_eq_refl [] = refl
bytes_eq_refl (x ∷ xs) = ground (arith, bytes_eq_refl xs)

pub bytes_eq_iff : (xs ys : List ℕ) → (bytes_eq xs ys ≡ true) ↔ (xs ≡ ys)
bytes_eq_iff xs ys = (bytes_eq→eq xs ys, λ e. rw e (bytes_eq_refl ys))

pub bytes_eq_comm : (xs ys : List ℕ) → bytes_eq xs ys ≡ bytes_eq ys xs
bytes_eq_comm xs ys = ground (arith, bytes_eq_iff xs ys, bytes_eq_iff ys xs)

-- What stands behind the prefix, if the text begins with it.
unfoldable pub behind : List ℕ → List ℕ → Option (List ℕ)
behind [] text = some text
behind (p ∷ ps) [] = none
behind (p ∷ ps) (c ∷ text) = if p == c then behind ps text else none

abbrev or_else : Option (List ℕ) → Option (List ℕ) → Option (List ℕ)
or_else (some x) o = some x
or_else none o = o

-- `text.find(needle)`: what stands behind the first occurrence.
unfoldable pub find : List ℕ → List ℕ → Option (List ℕ)
unfolding behind
find needle [] = behind needle []
find needle (c ∷ text) = or_else (behind needle (c ∷ text)) (find needle text)

abbrev is_found : Option (List ℕ) → Bool
is_found none = false
is_found (some rest) = true

-- `text.find(needle) != std::string::npos`
unfoldable pub contains : List ℕ → List ℕ → Bool
unfolding find
contains needle text = is_found (find needle text)

pub behind-append : (needle rest : List ℕ) → behind needle (needle ++ rest) ≡ some rest
unfolding behind
behind-append [] rest = refl
behind-append (p ∷ ps) rest = ground (arith, behind-append ps rest)

find-behind :
    (needle text rest : List ℕ) → behind needle text ≡ some rest → find needle text ≡ some rest
unfolding find
find-behind needle [] rest h = h
find-behind needle (c ∷ text) rest h = rw h

-- A text that begins with the needle.
pub find-append : (needle rest : List ℕ) → find needle (needle ++ rest) ≡ some rest
find-append needle rest = find-behind needle (needle ++ rest) rest (behind-append needle rest)
