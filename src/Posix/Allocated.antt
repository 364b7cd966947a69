-- ===== src/Posix/Allocated.antt =====
-- A directory handle names the path that it was made for.
use flutter_libnx.Prelude.{
  ℕ, ◌+◌, ◌-◌, ◌<◌, ◌≡◌, Bool, true, not, Option, none, some, List, arith, inl, inr, length,
  get_elem?, get_elem?-set_self, ap,
}
use flutter_libnx.Posix.Directories.{
  DirEntry, State, dir_handle_base, max_open_directories, is_dir_handle, first_index, entry_for,
  alloc_handle, lookup_path,
}
use flutter_libnx.Posix.Search.{first_index-some, option_cases}

abbrev free_dir : DirEntry → Bool
free_dir e = not e.in_use

-- The entry of a handle whose index is in the table.
entry_for_lem :
    (s : State) (i : ℕ) (path : List ℕ)
    → i < max_open_directories
    → get_elem? s.entries i ≡ some (record { in_use = true; path = path })
    → entry_for s (dir_handle_base + i) ≡ some (record { in_use = true; path = path })
unfolding entry_for
entry_for_lem s i path inside h =
    let valid : is_dir_handle (dir_handle_base + i) ≡ true = unfold is_dir_handle in ground arith in
    let index : (dir_handle_base + i) - dir_handle_base ≡ i = omega arith in rw (valid, index, h)

path_of : Option DirEntry → Option (List ℕ)
path_of none = none
path_of (some e) = some e.path

-- The path of a handle that AllocHandle gave out is the one that it was given, over a table of the
-- program's size.
pub lookup_path-alloc_handle :
    (path : List ℕ) (s : State) (fd : ℕ)
    → length s.entries ≡ max_open_directories
    → (alloc_handle path s).0 ≡ some fd
    → lookup_path fd (alloc_handle path s).1 ≡ some path
unfolding alloc_handle lookup_path path_of
lookup_path-alloc_handle path s fd size = elim (option_cases (first_index free_dir s.entries 0)) [
  | inr full ↦ rw (full, alloc_handle) (λ h. cc)
  | inl (i, e) ↦
      rw (e, alloc_handle)
        (λ h.
          let new : DirEntry = record { in_use = true; path = path } in
          let (k, (at, inside, found)) = first_index-some free_dir s.entries 0 i new e in
          let fd_i : dir_handle_base + i ≡ fd = cc in
          let found_entry =
            entry_for_lem (alloc_handle path s).1 i path (omega arith)
              (rw (e, alloc_handle) (get_elem?-set_self s.entries i new (omega arith))) in
          rw (← fd_i) (ap path_of (rw (e, alloc_handle) at found_entry)))
]
