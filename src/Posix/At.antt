-- ===== src/Posix/At.antt =====
-- The functions that take a directory handle, and pread. open, lseek and read of the
-- program are the wrappers.
use flutter_libnx.Prelude.{
  ℕ, Bool, true, false, not, Option, none, some, List, if◌then◌else◌, ℤ, pos,
}
use flutter_libnx.Posix.Directories.{State, alloc_handle, release_handle, lookup_path}
use flutter_libnx.Posix.Files.{
  FileState, Access, rdonly, wronly, rdwr, Flags, emfile, ebadf, eisdir, enotdir, real_error, Call,
  done, failed, Libc, seek_set, seek_cur, wrap_open,
}
use flutter_libnx.Posix.Access.{resolve_at, wrap_lseek, wrap_read}

-- What the functions call of the C library by path. A DIR is a number.
pub record Paths (L : Libc) : Type 0 where
  -- stat succeeds, and S_ISDIR
  pub is_directory : List ℕ → L.World → Bool
  pub mkdir : List ℕ → ℕ → L.World → Call ℕ × L.World
  pub rmdir : List ℕ → L.World → Call ℕ × L.World
  pub unlink : List ℕ → L.World → Call ℕ × L.World
  pub access : List ℕ → ℕ → L.World → Call ℕ × L.World
  pub rename : List ℕ → List ℕ → L.World → Call ℕ × L.World
  pub opendir : List ℕ → L.World → Option ℕ × L.World
  pub stat : List ℕ → L.World → Call ℕ × L.World
  pub chdir : List ℕ → L.World → Call ℕ × L.World

unfoldable pub is_rdonly : Access → Bool
is_rdonly rdonly = true
is_rdonly wronly = false
is_rdonly rdwr = false

-- A directory of openat, once its path is known.
unfoldable pub open_directory : List ℕ → Flags → State → Call ℕ × State
unfolding is_rdonly alloc_handle
open_directory full flags dirs =
    let (handle, dirs') = alloc_handle full dirs in
    if not (is_rdonly flags.access)
    then (failed eisdir, dirs)
    else elim handle [ none ↦ (failed emfile, dirs') | some fd ↦ (done fd, dirs') ]

module _ (L : Libc) (P : Paths L) where
  -- openat behind ResolveAt. `directory` is whether the flags have O_DIRECTORY.
  unfoldable pub open_full :
      List ℕ → Flags → Bool → ℕ → FileState → State → L.World → Call ℕ × FileState × State × L.World
  unfolding open_directory wrap_open
  open_full full flags directory mode s dirs w =
      let (handle, dirs') = open_directory full flags dirs in
      let (fd, s', w') = wrap_open L (some full) flags (if flags.creat then mode else 0) s w in
      if P.is_directory full w
      then (handle, s, dirs', w)
      else if directory
      then (failed enotdir, s, dirs, w)
      else (fd, s', dirs, w')

  unfoldable pub openat :
      Option ℕ
      → Option (List ℕ)
      → Flags
      → Bool
      → ℕ
      → FileState
      → State
      → L.World
      → Call ℕ × FileState × State × L.World
  unfolding open_full resolve_at
  openat dirfd path flags directory mode s dirs w = elim (resolve_at dirfd path dirs) [
    | failed e ↦ (failed e, s, dirs, w)
    | done full ↦ open_full full flags directory mode s dirs w
  ]

  -- open64 is openat64 at AT_FDCWD.
  unfoldable pub openat64 :
      Option ℕ
      → Option (List ℕ)
      → Flags
      → Bool
      → ℕ
      → FileState
      → State
      → L.World
      → Call ℕ × FileState × State × L.World
  unfolding openat
  openat64 dirfd path flags directory mode s dirs w =
      openat dirfd path flags directory (if flags.creat then mode else 0) s dirs w

  -- A call with the path that ResolveAt gives, or its error.
  unfoldable pub at_path :
      Call (List ℕ) → (List ℕ → L.World → Call ℕ × L.World) → L.World → Call ℕ × L.World
  at_path (failed e) call w = (failed e, w)
  at_path (done full) call w = call full w

  unfoldable pub mkdirat : Option ℕ → Option (List ℕ) → ℕ → State → L.World → Call ℕ × L.World
  unfolding at_path resolve_at
  mkdirat dirfd path mode dirs w =
      at_path (resolve_at dirfd path dirs) (λ full. P.mkdir full mode) w

  -- `removedir` is AT_REMOVEDIR.
  unfoldable pub unlinkat : Option ℕ → Option (List ℕ) → Bool → State → L.World → Call ℕ × L.World
  unfolding at_path resolve_at
  unlinkat dirfd path removedir dirs w =
      at_path (resolve_at dirfd path dirs) (if removedir then P.rmdir else P.unlink) w

  unfoldable pub faccessat : Option ℕ → Option (List ℕ) → ℕ → State → L.World → Call ℕ × L.World
  unfolding at_path resolve_at
  faccessat dirfd path mode dirs w =
      at_path (resolve_at dirfd path dirs) (λ full. P.access full mode) w

  unfoldable pub renameat :
      Option ℕ → Option (List ℕ) → Option ℕ → Option (List ℕ) → State → L.World → Call ℕ × L.World
  unfolding at_path resolve_at
  renameat old_dirfd old_path new_dirfd new_path dirs w =
      at_path (resolve_at old_dirfd old_path dirs)
        (λ full_old. at_path (resolve_at new_dirfd new_path dirs) (P.rename full_old)) w

  unfoldable pub fstatat : Option ℕ → Option (List ℕ) → State → L.World → Call ℕ × L.World
  unfolding at_path resolve_at
  fstatat dirfd path dirs w = at_path (resolve_at dirfd path dirs) P.stat w

  -- The DIR, or the error; the handle is free behind a success.
  unfoldable pub fdopendir : ℕ → State → L.World → Call ℕ × State × L.World
  unfolding lookup_path release_handle
  fdopendir fd dirs w = elim (lookup_path fd dirs) [
    | none ↦ (failed enotdir, dirs, w)
    | some path ↦
        let (dir, w') = P.opendir path w in
        elim dir [
          | none ↦ (failed real_error, dirs, w')
          | some d ↦ (done d, (release_handle fd dirs).1, w')
        ]
  ]

  unfoldable pub fchdir : ℕ → State → L.World → Call ℕ × L.World
  unfolding lookup_path
  fchdir fd dirs w = elim (lookup_path fd dirs) [
    | none ↦ (failed ebadf, w)
    | some path ↦ P.chdir path w
  ]

module _ (L : Libc) where
  -- From the position that was to the end of pread. The errno of the read is kept.
  unfoldable pub read_and_restore :
      ℕ → ℕ → ℤ → FileState → L.World → Call (List ℕ) × FileState × L.World
  unfolding wrap_read wrap_lseek
  read_and_restore fd count previous s w =
      let (bytes, s', w') = wrap_read L fd count s w in
      let (at, s'', w'') = wrap_lseek L fd previous seek_set s' w' in (bytes, s'', w'')

  unfoldable pub pread : ℕ → ℕ → ℤ → FileState → L.World → Call (List ℕ) × FileState × L.World
  unfolding wrap_lseek read_and_restore
  pread fd count offset s w =
      let (previous, s', w') = wrap_lseek L fd (pos 0) seek_cur s w in
      elim previous [
        | failed e ↦ (failed e, s', w')
        | done p ↦
            let (at, s'', w'') = wrap_lseek L fd offset seek_set s' w' in
            elim at [
              | failed e ↦ (failed e, s'', w'')
              | done n ↦ read_and_restore fd count p s'' w''
            ]
      ]
