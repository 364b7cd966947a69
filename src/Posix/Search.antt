-- ===== src/Posix/Search.antt =====
-- The searches of the tables: what they find, and what it means that they find nothing.
use flutter_libnx.Prelude.{
  ℕ, zero, suc, ◌+◌, ◌<◌, ◌≡◌, ◌≢◌, refl, sym, Bool, true, false, not, Option, none, some, List, [],
  ◌∷◌, arith, Bool-cases, inl, inr, length, get_or, ◌⊎◌, bytes_eq_iff,
}
use flutter_libnx.Posix.Directories.{first_index}
use flutter_libnx.Posix.Files.{
  BaseFile, VirtualFile, FileState, free_slot, free_handle, base_at, find_base, find_free_base,
  find_free_file, names_base,
}
use flutter_libnx.Posix.Counted.{file_at, used_slot}

-- What a search over a table finds: an entry that passes the test.
pub first_index-some :
    {A : Type 0} (test : A → Bool) (xs : List A) (i j : ℕ) (d : A)
    → first_index test xs i ≡ some j
    → (k : ℕ) × ((j ≡ i + k) × (k < length xs) × (test (get_or xs k d) ≡ true))
unfolding first_index
first_index-some test [] i j d h = cc
first_index-some test (x ∷ xs) i j d h = elim (Bool-cases (test x)) [
  | inl hit ↦ (0, ((let e = rw hit at h in grind arith), omega arith, hit))
  | inr miss ↦
      let (k, (at, inside, found)) = first_index-some test xs (i + 1) j d (rw miss at h) in
      (suc k, (omega (arith, at), omega (arith, inside), found))
]

pub first_index-none :
    {A : Type 0} (test : A → Bool) (xs : List A) (i : ℕ) (d : A)
    → first_index test xs i ≡ none
    → (k : ℕ) → k < length xs
    → test (get_or xs k d) ≡ false
unfolding first_index
first_index-none test [] i d h k inside = elim inside [ ]
first_index-none test (x ∷ xs) i d h zero inside = elim (Bool-cases (test x)) [
  | inl hit ↦ (let e = rw hit at h in cc)
  | inr miss ↦ miss
]
first_index-none test (x ∷ xs) i d h (suc k) inside = elim (Bool-cases (test x)) [
  | inl hit ↦ (let e = rw hit at h in cc)
  | inr miss ↦ first_index-none test xs (i + 1) d (rw miss at h) k (omega arith)
]

pub find_free_file_lem :
    (s : FileState) (i : ℕ)
    → find_free_file s.files ≡ some i
    → (i < length s.files) × ((file_at s.files i).in_use ≡ false)
find_free_file_lem s i h =
    let (k, (at, inside, found)) =
      first_index-some (λ (f : VirtualFile). not f.in_use) s.files 0 i free_handle h in
    let same : i ≡ k = omega (arith, at) in rw same (inside, ground arith)

pub find_free_base_lem :
    (s : FileState) (b : ℕ)
    → find_free_base s.bases ≡ some b
    → (b < length s.bases) × ((base_at s b).in_use ≡ false)
find_free_base_lem s b h =
    let (k, (at, inside, found)) =
      first_index-some (λ (x : BaseFile). not x.in_use) s.bases 0 b free_slot h in
    let same : b ≡ k = omega (arith, at) in rw same (inside, ground arith)

pub find_base-some :
    (path : List ℕ) (s : FileState) (b : ℕ)
    → find_base path s.bases ≡ some b
    → (base_at s b).in_use ≡ true
find_base-some path s b h =
    let (k, (at, inside, found)) = first_index-some (names_base path) s.bases 0 b free_slot h in
    let same : b ≡ k = omega (arith, at) in rw same (ground arith)

-- A path that the search does not find is that of no base in use.
pub find_base-none :
    (path : List ℕ) (s : FileState)
    → find_base path s.bases ≡ none
    → (c : ℕ) → (base_at s c).in_use ≡ true
    → path ≢ (base_at s c).path
find_base-none path s h c used same =
    let missed =
      first_index-none (names_base path) s.bases 0 free_slot h c (used_slot s.bases c used) in
    let equal = (bytes_eq_iff (base_at s c).path path).1 (sym same) in
    let missed' = rw (used, equal) at missed in cc

pub option_cases : (x : Option ℕ) → ((i : ℕ) × (x ≡ some i)) ⊎ (x ≡ none)
option_cases none = inr refl
option_cases (some i) = inl (i, refl)
