-- ===== src/Posix/Relative.antt =====
-- What the `...at` functions reach with a handle that openat gave.
use flutter_libnx.Prelude.{
  ℕ, ◌≡◌, refl, Bool, true, false, if◌then◌else◌, Option, none, some, List, length, if_true, ap,
  sym, ◌∙◌, Option-cases, inl, inr,
}
use flutter_libnx.Posix.Directories.{
  State, max_open_directories, alloc_handle, lookup_path, is_absolute_path, join_path,
}
use flutter_libnx.Posix.Files.{FileState, Flags, done, Libc}
use flutter_libnx.Posix.Access.{resolve_at}
use flutter_libnx.Posix.At.{
  Paths, is_rdonly, open_directory, open_full, openat, at_path, mkdirat, unlinkat, faccessat,
  fstatat, openat64, renameat,
}
use flutter_libnx.Posix.Allocated.{lookup_path-alloc_handle}

open_directory-handle :
    (dir : List ℕ) (flags : Flags) (dirs : State) (fd : ℕ)
    → length dirs.entries ≡ max_open_directories
    → is_rdonly flags.access ≡ true
    → (open_directory dir flags dirs).0 ≡ done fd
    → lookup_path fd (open_directory dir flags dirs).1 ≡ some dir
unfolding open_directory
open_directory-handle dir flags dirs fd size rd = elim (Option-cases (alloc_handle dir dirs).0) [
  | inl e ↦ rw (rd, e) (λ h. cc)
  | inr (k, e) ↦
      rw (rd, e)
        (λ h.
          let same : k ≡ fd = cc in lookup_path-alloc_handle dir dirs fd size (e ∙ ap some same))
]

resolve_at-lookup_path :
    (fd : ℕ) (dir leaf : List ℕ) (dirs : State)
    → is_absolute_path leaf ≡ false
    → lookup_path fd dirs ≡ some dir
    → resolve_at (some fd) (some leaf) dirs ≡ done (join_path dir leaf)
unfolding resolve_at
resolve_at-lookup_path fd dir leaf dirs relative found = rw (relative, found) refl

module _ (L : Libc) (P : Paths L) where
  -- With this handle and path, openat, openat64, mkdirat, unlinkat, faccessat, fstatat and renameat act
  -- on `full`; renameat takes it as the old or the new path, beside another one.
  abbrev pub ActsOn :
      ℕ
      → List ℕ
      → List ℕ
      → Option ℕ
      → Option (List ℕ)
      → Flags
      → Bool
      → ℕ
      → FileState
      → State
      → L.World
      → Type 0
  ActsOn fd leaf full other path flags directory mode s dirs w =
      (openat L P (some fd) (some leaf) flags directory mode s dirs w
        ≡ open_full L P full flags directory mode s dirs w)
      × (mkdirat L P (some fd) (some leaf) mode dirs w ≡ P.mkdir full mode w)
      × (unlinkat L P (some fd) (some leaf) false dirs w ≡ P.unlink full w)
      × (unlinkat L P (some fd) (some leaf) true dirs w ≡ P.rmdir full w)
      × (faccessat L P (some fd) (some leaf) mode dirs w ≡ P.access full mode w)
      × (fstatat L P (some fd) (some leaf) dirs w ≡ P.stat full w)
      × (openat64 L P (some fd) (some leaf) flags directory mode s dirs w
          ≡ open_full L P full flags directory (if flags.creat then mode else 0) s dirs w)
      × (renameat L P (some fd) (some leaf) other path dirs w
          ≡ at_path L P (resolve_at other path dirs) (P.rename full) w)
      × (renameat L P other path (some fd) (some leaf) dirs w
          ≡ at_path L P (resolve_at other path dirs) (λ from. P.rename from full) w)

  resolved-ActsOn :
      (fd : ℕ) (leaf full : List ℕ) (other : Option ℕ) (path : Option (List ℕ)) (flags : Flags)
      (directory : Bool) (mode : ℕ) (s : FileState) (dirs : State) (w : L.World)
      → resolve_at (some fd) (some leaf) dirs ≡ done full
      → ActsOn fd leaf full other path flags directory mode s dirs w
  unfolding openat openat64 mkdirat unlinkat faccessat fstatat renameat at_path
  resolved-ActsOn fd leaf full other path flags directory mode s dirs w e = (
    rw (e, openat) refl,
    rw (e, mkdirat) refl,
    rw (e, unlinkat) refl,
    rw (e, unlinkat) refl,
    rw (e, faccessat) refl,
    rw (e, fstatat) refl,
    rw (e, openat64, openat) refl,
    rw (e, renameat) refl,
    rw (e, renameat) refl,
  )

  openat-open_directory :
      (dir : List ℕ) (flags : Flags) (directory : Bool) (mode : ℕ) (s : FileState) (dirs : State)
      (w : L.World)
      → P.is_directory dir w ≡ true
      → openat L P none (some dir) flags directory mode s dirs w
        ≡ ((open_directory dir flags dirs).0, s, (open_directory dir flags dirs).1, w)
  unfolding openat open_full resolve_at
  openat-open_directory dir flags directory mode s dirs w isd = if_true _ _ isd

  -- After openat of a directory for reading gave a handle, over a table of the program's size: openat,
  -- openat64, mkdirat, unlinkat, faccessat and fstatat with that handle and a relative path act on
  -- the path joined to the directory's, and so does renameat with either of its two paths.
  pub openat-ActsOn :
      (dir leaf : List ℕ) (flags flags' : Flags) (directory directory' : Bool) (mode mode' fd : ℕ)
      (other : Option ℕ) (path : Option (List ℕ)) (s s' : FileState) (dirs : State) (w w' : L.World)
      → length dirs.entries ≡ max_open_directories
      → P.is_directory dir w ≡ true
      → is_rdonly flags.access ≡ true
      → is_absolute_path leaf ≡ false
      → (openat L P none (some dir) flags directory mode s dirs w).0 ≡ done fd
      → ActsOn fd leaf
          (join_path dir leaf)
          other
          path
          flags'
          directory'
          mode'
          s'
          (openat L P none (some dir) flags directory mode s dirs w).2
          w'
  openat-ActsOn dir leaf flags flags' directory directory' mode mode' fd other path s s' dirs w w'
        size isd rd relative given =
      let e = openat-open_directory dir flags directory mode s dirs w isd in
      let opened : (open_directory dir flags dirs).0 ≡ done fd = sym (ap (λ r. r.0) e) ∙ given in
      let found = open_directory-handle dir flags dirs fd size rd opened in
      let found' : lookup_path fd (openat L P none (some dir) flags directory mode s dirs w).2
          ≡ some dir =
        ap (λ r. lookup_path fd r.2) e ∙ found in
      resolved-ActsOn fd leaf (join_path dir leaf) other path flags' directory' mode' s'
        (openat L P none (some dir) flags directory mode s dirs w).2 w'
        (resolve_at-lookup_path fd dir leaf _ relative found')
