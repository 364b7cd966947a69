-- ===== src/Posix/Closed.antt =====
-- close and dup keep the handle tables well-formed, and the last close of a path is the real one.
use flutter_libnx.Prelude.{
  ℕ, zero, suc, ◌+◌, ◌-◌, ◌<◌, ◌≤◌, ◌≡◌, ◌≢◌, refl, true, false, Option, none, some, List, [], ◌∷◌,
  arith, ◌==◌, if◌then◌else◌, Bool-cases, inl, inr, length, get_elem?, set, ◌⊎◌,
}
use flutter_libnx.Posix.Directories.{State}
use flutter_libnx.Posix.Files.{
  VirtualFile, FileState, Libc, done, free_handle, base_at, file_for, used_entry, is_file_handle,
  find_free_file, file_handle_base,
}
use flutter_libnx.Posix.Access.{close_handle, wrap_close, dup_handle, wrap_dup}
use flutter_libnx.Posix.Counted.{
  IsWellFormed, IsCounted-next, IsHeld-next, IsWellFormed-freed, file_at, holds, refs_of,
  refs_of-set, holds_free, holds_used, holds_ne, used_slot, count_used, count_free, used_count,
}
use flutter_libnx.Posix.Search.{find_free_file_lem, option_cases}
use flutter_libnx.Posix.Occupied.{refs_of-set_ne, occupy-IsWellFormed}

-- The entry of a table, if there is one.
get_elem?-get_or :
    (fs : List VirtualFile) (i : ℕ) (f : VirtualFile)
    → get_elem? fs i ≡ some f
    → (i < length fs) × (file_at fs i ≡ f)
get_elem?-get_or [] i f h = cc
get_elem?-get_or (x ∷ fs) zero f h = (omega arith, cc)
get_elem?-get_or (x ∷ fs) (suc i) f h =
    let (inside, e) = get_elem?-get_or fs i f h in (omega (arith, inside), e)

pub used_entry_lem :
    (i j : ℕ) (x : Option VirtualFile) (f : VirtualFile)
    → used_entry i x ≡ some (j, f)
    → (x ≡ some f) × (i ≡ j) × (f.in_use ≡ true)
unfolding used_entry
used_entry_lem i j none f h = cc
used_entry_lem i j (some g) f h = elim (Bool-cases g.in_use) [
  | inl used ↦ (let e = rw used at h in (cc, cc, cc))
  | inr free ↦ (let e = rw free at h in cc)
]

pub file_for_lem :
    (s : FileState) (fd i : ℕ) (f : VirtualFile)
    → file_for s fd ≡ some (i, f)
    → (i < length s.files) × (file_at s.files i ≡ f) × (f.in_use ≡ true)
unfolding file_for
file_for_lem s fd i f h = elim (Bool-cases (is_file_handle fd)) [
  | inl handle ↦
      let (at, same, used) =
        used_entry_lem (fd - file_handle_base) i (get_elem? s.files (fd - file_handle_base)) f
          (rw handle at h) in
      let (inside, e) = get_elem?-get_or s.files i f (rw (← same) at) in (inside, e, used)
  | inr not_handle ↦ (let e = rw not_handle at h in cc)
]

-- A handle is one of those that its base counts.
holds-refs_of :
    (b : ℕ) (fs : List VirtualFile) (i : ℕ) → i < length fs → holds b (file_at fs i) ≤ refs_of b fs
holds-refs_of b fs i h =
    let free : holds b free_handle ≡ 0 = holds_free b free_handle refl in
    let e = refs_of-set b fs i free_handle h in omega arith

module _ (L : Libc) (i : ℕ) (f : VirtualFile) (s : FileState) (w : L.World)
    (formed : IsWellFormed s) (inside : i < length s.files) (entry : file_at s.files i ≡ f)
    (used : f.in_use ≡ true) where
  abbrev without : List VirtualFile
  without = set s.files i (record f { in_use = false })

  one_less : refs_of f.base without + 1 ≡ refs_of f.base s.files
  one_less =
      let changed = refs_of-set f.base s.files i (record f { in_use = false }) inside in
      let before : holds f.base (file_at s.files i) ≡ 1 = rw entry (holds_used f used) in
      let after = holds_free f.base (record f { in_use = false }) refl in omega arith

  pub base_used : (base_at s f.base).in_use ≡ true
  base_used = elim (Bool-cases (base_at s f.base).in_use) [
    | inl u ↦ u
    | inr free ↦
        let nobody =
          count_free (base_at s f.base) (refs_of f.base s.files) (formed.0.counted f.base) free in
        absurd (let e = one_less in omega arith)
  ]

  base_refs : (base_at s f.base).refs ≡ refs_of f.base s.files
  base_refs =
      count_used (base_at s f.base) (refs_of f.base s.files) (formed.0.counted f.base) base_used

  others_kept : (c : ℕ) → f.base ≢ c → refs_of c without ≡ refs_of c s.files
  others_kept c ne =
      refs_of-set_ne c s.files i (record f { in_use = false }) inside (rw entry (holds_ne c f ne))
        (holds_free c (record f { in_use = false }) refl)

  close_handle-IsWellFormed : IsWellFormed (close_handle L i f s w).1
  unfolding close_handle
  close_handle-IsWellFormed = elim (Bool-cases ((base_at s f.base).refs - 1 == 0)) [
    | inl last ↦ rw last (
        IsWellFormed-freed s f.base _ without (used_slot s.bases f.base base_used) formed.0
          others_kept refl (let e = one_less in let e' = base_refs in ground arith)
          (λ c ne. formed.1 c))
    | inr more ↦ rw more (
      IsCounted-next s f.base (record (base_at s f.base) { refs = (base_at s f.base).refs - 1 })
          without (used_slot s.bases f.base base_used) formed.0 others_kept
          (used_count (record (base_at s f.base) { refs = (base_at s f.base).refs - 1 })
            (refs_of f.base without) base_used
            (let e = one_less in let e' = base_refs in ground arith))
          (λ u c ne used_c. formed.0.distinct f.base c ne base_used used_c),
      IsHeld-next s f.base (record (base_at s f.base) { refs = (base_at s f.base).refs - 1 })
          without (used_slot s.bases f.base base_used) formed.0 (λ u. ground arith)
          (λ c ne. formed.1 c),
    )
  ]

  -- The real close happens just if this is the only handle on its base.
  close_handle_lem :
      let r = close_handle L i f s w in
      (r.0, r.2) ≡ (
        if refs_of f.base s.files == 1
        then L.real_close (base_at s f.base).real_fd w
        else (done 0, w))
  unfolding close_handle
  close_handle_lem = elim (Bool-cases ((base_at s f.base).refs - 1 == 0)) [
    | inl last ↦
        let alone : (refs_of f.base s.files == 1) ≡ true =
          let e = one_less in let e' = base_refs in ground arith in
        rw (last, alone)
    | inr more ↦
        let shared : (refs_of f.base s.files == 1) ≡ false = let e' = base_refs in ground arith in
        rw (more, shared)
  ]

pub file_for_cases :
    (x : Option (ℕ × VirtualFile)) → ((e : ℕ × VirtualFile) × (x ≡ some e)) ⊎ (x ≡ none)
file_for_cases none = inr refl
file_for_cases (some e) = inl (e, refl)

module _ (L : Libc) (fd : ℕ) (s : FileState) (dirs : State) (w : L.World)
    (formed : IsWellFormed s) where
  -- close keeps the tables well-formed, whatever the descriptor.
  pub wrap_close-IsWellFormed : IsWellFormed (wrap_close L fd s dirs w).1
  unfolding wrap_close
  wrap_close-IsWellFormed = elim (file_for_cases (file_for s fd)) [
    | inl ((i, f), e) ↦
        let (inside, entry, used) = file_for_lem s fd i f e in
        rw (e, wrap_close) (close_handle-IsWellFormed L i f s w formed inside entry used)
    | inr e ↦ rw (e, wrap_close) formed
  ]

  -- Over well-formed tables, close of a handle calls the real close, and returns its result, just if
  -- no other handle is open on the same file; otherwise it returns 0 and touches nothing below.
  pub wrap_close_lem :
      (i : ℕ) (f : VirtualFile)
      → file_for s fd ≡ some (i, f)
      → let r = wrap_close L fd s dirs w in
        (r.0, r.3) ≡ (
          if refs_of f.base s.files == 1
          then L.real_close (base_at s f.base).real_fd w
          else (done 0, w))
  unfolding wrap_close
  wrap_close_lem i f e =
      let (inside, entry, used) = file_for_lem s fd i f e in
      rw (e, wrap_close) (close_handle_lem L i f s w formed inside entry used)

  -- dup keeps the tables well-formed, whatever the descriptor.
  pub wrap_dup-IsWellFormed : IsWellFormed (wrap_dup L fd s dirs w).1
  unfolding wrap_dup dup_handle
  wrap_dup-IsWellFormed = elim (file_for_cases (file_for s fd)) [
    | inr e ↦ rw (e, wrap_dup) formed
    | inl ((i, f), e) ↦
        let (inside, entry, used) = file_for_lem s fd i f e in
        rw (e, wrap_dup)
          (elim (option_cases (find_free_file s.files)) [
            | inr full ↦ rw (full, dup_handle) formed
            | inl (j, e_j) ↦
                let (inside_j, free_j) = find_free_file_lem s j e_j in
                rw (e_j, dup_handle)
                  (occupy-IsWellFormed s j f formed.0 inside_j free_j used
                    (base_used L i f s w formed inside entry used) (λ c ne. formed.1 c))
          ])
  ]
