-- ===== src/Posix/Counted.antt =====
-- The invariant of the handle tables, and the one lemma by which every operation keeps it.
use flutter_libnx.Prelude.{
  ℕ, zero, suc, ◌+◌, ◌<◌, ◌≡◌, ◌≢◌, refl, sym, ap, ◌∙◌, true, false, ◌&&◌, List, [], ◌∷◌, arith,
  ◌==◌, if◌then◌else◌, Bool-cases, inl, inr, length, get_or, set, ◌⊎◌,
}
use flutter_libnx.Posix.Files.{BaseFile, VirtualFile, FileState, free_slot, free_handle, base_at}

-- 1 for a handle in use on the base `b`, and 0 for any other.
unfoldable pub holds : ℕ → VirtualFile → ℕ
holds b f = if f.in_use && f.base == b then 1 else 0

-- The number of handles in use on the base `b`.
unfoldable pub refs_of : ℕ → List VirtualFile → ℕ
refs_of b [] = 0
refs_of b (f ∷ fs) = holds b f + refs_of b fs

abbrev pub file_at : List VirtualFile → ℕ → VirtualFile
file_at fs i = get_or fs i free_handle

pub refs_of-set :
    (b : ℕ) (fs : List VirtualFile) (i : ℕ) (f : VirtualFile)
    → i < length fs
    → refs_of b (set fs i f) + holds b (file_at fs i) ≡ refs_of b fs + holds b f
unfolding refs_of
refs_of-set b [] i f h = elim h [ ]
refs_of-set b (g ∷ fs) zero f h = omega arith
refs_of-set b (g ∷ fs) (suc i) f h = omega (arith, refs_of-set b fs i f (omega arith))

module _ {ℓ} {A : Type ℓ} where
  pub get_or-set_self :
      (xs : List A) (i : ℕ) (v d : A) → i < length xs → get_or (set xs i v) i d ≡ v
  get_or-set_self [] i v d h = elim h [ ]
  get_or-set_self (x ∷ xs) zero v d h = refl
  get_or-set_self (x ∷ xs) (suc i) v d h = get_or-set_self xs i v d (omega arith)

  pub get_or-set_ne :
      (xs : List A) (i j : ℕ) (v d : A) → i ≢ j → get_or (set xs i v) j d ≡ get_or xs j d
  get_or-set_ne [] i j v d h = refl
  get_or-set_ne (x ∷ xs) zero zero v d h = absurd (h refl)
  get_or-set_ne (x ∷ xs) zero (suc j) v d h = refl
  get_or-set_ne (x ∷ xs) (suc i) zero v d h = refl
  get_or-set_ne (x ∷ xs) (suc i) (suc j) v d h = get_or-set_ne xs i j v d (λ e. h (ap suc e))

pub eq_cases : (a b : ℕ) → (a ≡ b) ⊎ (a ≢ b)
eq_cases a b = elim (Bool-cases (a == b)) [
  | inl e ↦ inl (ground arith)
  | inr n ↦ inr (λ e. (let n' = rw e at n in ground arith))
]

-- A base in use has the count of its handles, one that is free has none, and no two bases in use
-- have one path.
abbrev pub IsCountedBase : BaseFile → ℕ → Type 0
IsCountedBase base n = if base.in_use then base.refs ≡ n else n ≡ 0

pub count_used :
    (base : BaseFile) (n : ℕ) → IsCountedBase base n → base.in_use ≡ true → base.refs ≡ n
count_used base n h used = rw used at h

pub count_free : (base : BaseFile) (n : ℕ) → IsCountedBase base n → base.in_use ≡ false → n ≡ 0
count_free base n h free = rw free at h

pub used_count :
    (base : BaseFile) (n : ℕ) → base.in_use ≡ true → base.refs ≡ n → IsCountedBase base n
used_count base n used h = rw used h

pub free_count : (base : BaseFile) (n : ℕ) → base.in_use ≡ false → n ≡ 0 → IsCountedBase base n
free_count base n free h = rw free h

abbrev slot : List BaseFile → ℕ → BaseFile
slot bs b = get_or bs b free_slot

pub record IsCounted (s : FileState) : Type 0 where
  pub counted : (b : ℕ) → IsCountedBase (base_at s b) (refs_of b s.files)
  pub distinct :
      (b c : ℕ)
      → b ≢ c
      → (base_at s b).in_use ≡ true
      → (base_at s c).in_use ≡ true
      → (base_at s b).path ≢ (base_at s c).path

-- And every base in use has a handle.
abbrev pub IsWellFormed : FileState → Type 0
IsWellFormed s = IsCounted s × ((b : ℕ) → (base_at s b).in_use ≡ true → 0 < (base_at s b).refs)

module _ (s : FileState) (b : ℕ) (base : BaseFile) (files : List VirtualFile)
    (h_b : b < length s.bases) (old : IsCounted s) where
  abbrev next : FileState
  next = record { bases = set s.bases b base; files = files }

  -- The changed slot, or another one, which is as before.
  slot_cases :
      (c : ℕ) → ((b ≡ c) × (base_at next c ≡ base)) ⊎ ((b ≢ c) × (base_at next c ≡ base_at s c))
  slot_cases c = elim (eq_cases b c) [
    | inl same ↦ inl (same, rw (← same) (get_or-set_self s.bases b base free_slot h_b))
    | inr ne ↦ inr (ne, get_or-set_ne s.bases b c base free_slot ne)
  ]

  -- A base and the handles change together: the count of the others stays, and that of the base is
  -- right again.
  pub IsCounted-next :
      ((c : ℕ) → b ≢ c → refs_of c files ≡ refs_of c s.files)
      → IsCountedBase base (refs_of b files)
      → (base.in_use ≡ true
          → (c : ℕ) → b ≢ c
          → (base_at s c).in_use ≡ true
          → base.path ≢ (base_at s c).path)
      → IsCounted next
  IsCounted-next others mine paths = record {
    counted = λ c. elim (slot_cases c) [
      | inl (same, e) ↦ rw (e, ← same) mine
      | inr (ne, e) ↦ rw (e, others c ne) (old.counted c)
    ];
    distinct = λ c d ne. elim (slot_cases c) [
      | inl (same, e) ↦ rw e (elim (slot_cases d) [
        | inl (same_d, e_d) ↦ absurd (ne (sym same ∙ same_d))
        | inr (ne_d, e_d) ↦ rw e_d (λ used_c used_d. paths used_c d ne_d used_d)
      ])
      | inr (ne_c, e) ↦ rw e (elim (slot_cases d) [
        | inl (same_d, e_d) ↦ rw e_d (λ used_c used_d p. paths used_d c ne_c used_c (sym p))
        | inr (ne_d, e_d) ↦ rw e_d (old.distinct c d ne)
      ])
    ];
  }

  pub IsHeld-next :
      (base.in_use ≡ true → 0 < base.refs)
      → ((c : ℕ) → b ≢ c → (base_at s c).in_use ≡ true → 0 < (base_at s c).refs)
      → (c : ℕ) → (base_at next c).in_use ≡ true
      → 0 < (base_at next c).refs
  IsHeld-next mine others c = elim (slot_cases c) [
    | inl (same, e) ↦ rw e mine
    | inr (ne, e) ↦ rw e (others c ne)
  ]

-- A base that is given up, with no handle left on it.
pub IsWellFormed-freed :
    (s : FileState) (b : ℕ) (base : BaseFile) (files : List VirtualFile)
    → b < length s.bases
    → IsCounted s
    → ((c : ℕ) → b ≢ c → refs_of c files ≡ refs_of c s.files)
    → base.in_use ≡ false
    → refs_of b files ≡ 0
    → ((c : ℕ) → b ≢ c → (base_at s c).in_use ≡ true → 0 < (base_at s c).refs)
    → IsWellFormed (record { bases = set s.bases b base; files = files })
IsWellFormed-freed s b base files h_b old others free no_handle held = (
  IsCounted-next s b base files h_b old others (free_count base (refs_of b files) free no_handle)
      (λ u. cc),
  IsHeld-next s b base files h_b old (λ u. cc) held,
)

pub holds_free : (b : ℕ) (f : VirtualFile) → f.in_use ≡ false → holds b f ≡ 0
unfolding holds
holds_free b f h = rw h

pub holds_used : (f : VirtualFile) → f.in_use ≡ true → holds f.base f ≡ 1
unfolding holds
holds_used f h = rw h (ground arith)

pub holds_ne : (b : ℕ) (f : VirtualFile) → f.base ≢ b → holds b f ≡ 0
unfolding holds
holds_ne b f h = elim (Bool-cases f.in_use) [
  | inl used ↦ rw used (ground arith)
  | inr free ↦ rw free
]

-- A slot in use is one of the table.
pub used_slot : (bs : List BaseFile) (b : ℕ) → (slot bs b).in_use ≡ true → b < length bs
used_slot [] b h = cc
used_slot (x ∷ bs) zero h = omega arith
used_slot (x ∷ bs) (suc b) h = omega (arith, used_slot bs b h)
