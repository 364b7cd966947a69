-- ===== src/Posix/Status.antt =====
-- The wrappers of fstat, fsync, fcntl and stat, and the functions that only return a constant or an
-- error.
use flutter_libnx.Prelude.{ℕ, Bool, false, ◌&&◌, Option, none, some, List, if◌then◌else◌}
use flutter_libnx.Posix.Directories.{State, is_dir_handle, lookup_path}
use flutter_libnx.Posix.Files.{
  FileState, rdonly, Flags, Errno, einval, ebadf, real_error, Call, done, failed, Libc, base_at,
  file_for, wrap_open,
}
use flutter_libnx.Posix.Access.{wrap_close}

-- st_mode as far as the program tests it, and st_size.
pub data Mode : Type 0 where
  regular directory other : Mode

pub record Stat : Type 0 where
  pub mode : Mode
  pub size : ℕ

-- fsync returned 0, failed with EBADF, ENOSYS or EINVAL, or failed otherwise.
pub data Synced : Type 0 where
  synced unsupported unsynced : Synced

-- The commands of fcntl: F_GETLK, F_SETLK, F_SETLKW, and any other with its argument.
pub data Command : Type 0 where
  getlk setlk setlkw : Command
  other_command : ℕ → ℕ → Command

-- What is called below.
pub record Statuses (L : Libc) : Type 0 where
  pub real_stat : List ℕ → L.World → Option Stat × L.World
  pub real_fstat : ℕ → L.World → Option Stat × L.World
  pub real_fsync : ℕ → L.World → Synced × L.World
  pub real_fcntl : ℕ → ℕ → ℕ → L.World → Call ℕ × L.World
  -- Whether the errno that the last failed call has left is EIO.
  pub errno_is_eio : L.World → Bool

abbrev pub stat_call : Option Stat → Call Stat
stat_call none = failed real_error
stat_call (some st) = done st

-- An answer for a file that the file service holds: S_IFREG | 0644, and no size.
abbrev pub held_file : Stat
held_file = record { mode = regular; size = 0 }

abbrev pub read_only : Flags
read_only = record { access = rdonly; creat = false; excl = false; trunc = false; append = false }

module _ (L : Libc) (T : Statuses L) where
  -- Whether errno is EIO after a call that ended so.
  unfoldable pub is_eio : Errno → L.World → Bool
  is_eio real_error w = T.errno_is_eio w
  is_eio e w = false

  -- The end of __wrap_stat: whether errno was EIO at first, and is now.
  unfoldable pub stat_held :
      Bool → Bool → FileState → State → L.World → Call Stat × FileState × State × L.World
  stat_held saved now s dirs w =
      if saved && now then (done held_file, s, dirs, w) else (failed real_error, s, dirs, w)

  -- The descriptor of the second attempt is asked and closed.
  unfoldable pub stat_opened :
      Bool → ℕ → FileState → State → L.World → Call Stat × FileState × State × L.World
  unfolding stat_held wrap_close
  stat_opened saved fd s dirs w =
      let (st, w') = T.real_fstat fd w in
      let (rc, s', dirs', w'') = wrap_close L fd s dirs w' in
      elim st [
        | some found ↦ (done found, s', dirs', w'')
        | none ↦ stat_held saved (T.errno_is_eio w'') s' dirs' w''
      ]

  unfoldable pub stat_again :
      List ℕ → FileState → State → L.World → Call Stat × FileState × State × L.World
  unfolding stat_opened stat_held is_eio wrap_open
  stat_again path s dirs w =
      let saved = T.errno_is_eio w in
      let (opened, s', w') = wrap_open L (some path) read_only 0 s w in
      elim opened [
        | done fd ↦ stat_opened saved fd s' dirs w'
        | failed e ↦ stat_held saved (is_eio e w') s' dirs w'
      ]

  unfoldable pub wrap_stat :
      List ℕ → FileState → State → L.World → Call Stat × FileState × State × L.World
  unfolding stat_again
  wrap_stat path s dirs w =
      let (st, w') = T.real_stat path w in
      elim st [ some found ↦ (done found, s, dirs, w') | none ↦ stat_again path s dirs w' ]

  -- fstat of what is no file handle.
  unfoldable pub fstat_other :
      ℕ → FileState → State → L.World → Call Stat × FileState × State × L.World
  unfolding wrap_stat lookup_path is_dir_handle
  fstat_other fd s dirs w = elim (lookup_path fd dirs) [
    | some path ↦ wrap_stat path s dirs w
    | none ↦
        let (st, w') = T.real_fstat fd w in
        if is_dir_handle fd then (failed ebadf, s, dirs, w) else (stat_call st, s, dirs, w')
  ]

  unfoldable pub wrap_fstat :
      ℕ → FileState → State → L.World → Call Stat × FileState × State × L.World
  unfolding fstat_other file_for
  wrap_fstat fd s dirs w = elim (file_for s fd) [
    | some (i, f) ↦
        let (st, w') = T.real_fstat (base_at s f.base).real_fd w in (stat_call st, s, dirs, w')
    | none ↦ fstat_other fd s dirs w
  ]

  abbrev pub sync_call : Synced → Call ℕ
  sync_call synced = done 0
  sync_call unsupported = failed real_error
  sync_call unsynced = failed real_error

  -- On a handle, a system that cannot do it is no error.
  abbrev pub sync_handle : Synced → Call ℕ
  sync_handle synced = done 0
  sync_handle unsupported = done 0
  sync_handle unsynced = failed real_error

  unfoldable pub wrap_fsync : ℕ → FileState → L.World → Call ℕ × L.World
  unfolding file_for
  wrap_fsync fd s w = elim (file_for s fd) [
    | some (i, f) ↦ let (r, w') = T.real_fsync (base_at s f.base).real_fd w in (sync_handle r, w')
    | none ↦ let (r, w') = T.real_fsync fd w in (sync_call r, w')
  ]

  -- The result, and whether the lock that was passed now says F_UNLCK.
  unfoldable pub wrap_fcntl : ℕ → Command → Bool → L.World → Call ℕ × Bool × L.World
  wrap_fcntl fd getlk has_lock w = (done 0, has_lock, w)
  wrap_fcntl fd setlk has_lock w = (done 0, false, w)
  wrap_fcntl fd setlkw has_lock w = (done 0, false, w)
  wrap_fcntl fd (other_command cmd arg) has_lock w =
      let (r, w') = T.real_fcntl fd cmd arg w in (r, false, w')

-- What sysconf is asked: _SC_PAGESIZE, _SC_NPROCESSORS_ONLN, or anything else.
pub data Name : Type 0 where
  page_size processors other_name : Name

unfoldable pub sysconf : Name → Call ℕ
sysconf page_size = done 4096
sysconf processors = done 3
sysconf other_name = failed einval

-- geteuid, and fchown, which always succeeds.
abbrev pub geteuid : ℕ
geteuid = 1

unfoldable pub fchown : ℕ → ℕ → ℕ → Call ℕ
fchown fd owner group = done 0

-- readlinkat: no path is a link.
unfoldable pub readlinkat : Option ℕ → List ℕ → Call ℕ
readlinkat dirfd path = failed einval

-- PosixCompatStats
pub record Stats : Type 0 where
  pub open_directories : ℕ
  pub peak_directories : ℕ
  pub table_exhausted : ℕ

unfoldable pub get_stats : State → Stats
get_stats s = record {
  open_directories = s.open_count;
  peak_directories = s.peak_count;
  table_exhausted = s.exhausted;
}
