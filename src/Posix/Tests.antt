-- ===== src/Posix/Tests.antt =====
-- A C library whose world lists the descriptors that were closed, and the theorems at concrete inputs.
use flutter_libnx.Prelude.{
  ℕ, ◌≡◌, refl, true, false, none, some, List, [], ◌∷◌, if◌then◌else◌, ◌==◌, pos, codes,
}
use flutter_libnx.Posix.Directories.{State, no_directories, first_index}
use flutter_libnx.Posix.Files.{
  FileState, VirtualFile, Flags, rdwr, rdonly, Libc, Call, done, initial, base_at, wrap_open,
  file_for, file_handle_base, open_new, open_real, attach, occupy, is_file_handle, used_entry,
}
use flutter_libnx.Posix.Access.{wrap_close}
use flutter_libnx.Posix.Counted.{IsWellFormed, refs_of}
use flutter_libnx.Posix.Opened.{wrap_open-IsWellFormed}
use flutter_libnx.Posix.Closed.{wrap_close_lem}
use flutter_libnx.Posix.Reached.{
  Operation, open_path, close_fd, dup_fd, operate_all, initial-IsWellFormed, reachable-IsWellFormed,
}
use flutter_libnx.Prelude.{arith}
use flutter_libnx.Posix.Files.{seek_set}
use flutter_libnx.Posix.Access.{wrap_read, wrap_write, wrap_lseek}
use flutter_libnx.Posix.Directories.{dir_handle_base, join_path, is_absolute_path}
use flutter_libnx.Posix.At.{Paths, openat, is_rdonly, pread}
use flutter_libnx.Posix.Restored.{Stands, pread-Stands}
use flutter_libnx.Posix.Relative.{ActsOn, openat-ActsOn}
use flutter_libnx.Prelude.{bytes_eq}
use flutter_libnx.Posix.Positions.{positions_lem}
use flutter_libnx.Posix.Status.{
  Stat, regular, Statuses, unsupported, unsynced, other_command, wrap_stat, wrap_fstat, wrap_fsync,
  wrap_fcntl,
}
use flutter_libnx.Posix.Files.{failed, real_error}
use flutter_libnx.Prelude.{Bool}

abbrev closing : Libc
closing = record {
  World = List ℕ;
  real_open = λ path flags mode w. (some 3, w);
  real_close = λ fd w. (done 0, fd ∷ w);
  real_dup = λ fd w. (done fd, w);
  real_ftruncate = λ fd size w. (done 0, w);
  real_lseek = λ fd offset whence w. (offset, w);
  real_write = λ fd bytes w. (some 0, w);
  real_read = λ fd count w. (some [], w);
  real_fstat = λ fd w. none;
}

abbrev read_write : Flags
read_write = record { access = rdwr; creat = true; excl = false; trunc = false; append = false }

abbrev opened : FileState
opened = (wrap_open closing (some (codes "a")) read_write 0 initial []).1

opened-IsWellFormed : IsWellFormed opened
opened-IsWellFormed =
    wrap_open-IsWellFormed closing (some (codes "a")) read_write 0 initial [] initial-IsWellFormed

abbrev handle : VirtualFile
handle = record { in_use = true; base = 0; offset = pos 0; append = false }

wrap_close_lem_example :
    let r = wrap_close closing file_handle_base opened no_directories [] in
    ◌≡◌ {A = Call ℕ × List ℕ}
      (r.0, r.3)
      (if refs_of 0 opened.files == 1
        then (done 0, (base_at opened 0).real_fd ∷ [])
        else (done 0, []))
unfolding wrap_open open_new open_real attach occupy first_index file_for is_file_handle used_entry
wrap_close_lem_example =
    wrap_close_lem closing file_handle_base opened no_directories [] opened-IsWellFormed 0 handle
      refl

abbrev operations : List Operation
operations =
    open_path (some (codes "a")) read_write 0
    ∷ open_path (some (codes "a")) read_write 0
    ∷ dup_fd file_handle_base
    ∷ close_fd file_handle_base
    ∷ []

reachable-IsWellFormed_example :
    IsWellFormed (operate_all closing operations (initial, no_directories, [])).0
reachable-IsWellFormed_example = reachable-IsWellFormed closing operations []

positions_lem_example :
    (file_for (wrap_read closing file_handle_base 4 opened []).1 1342177281
      ≡ file_for opened 1342177281)
    × (file_for (wrap_write closing file_handle_base (7 ∷ []) opened []).1 1342177281
        ≡ file_for opened 1342177281)
    × (file_for (wrap_lseek closing file_handle_base (pos 9) seek_set opened []).1 1342177281
        ≡ file_for opened 1342177281)
positions_lem_example =
    positions_lem closing file_handle_base 1342177281 opened [] (λ e. omega (arith, e)) 4 (7 ∷ [])
      (pos 9) seek_set

abbrev folders : Paths closing
folders = record {
  is_directory = λ path w. bytes_eq path (codes "sdmc:/a");
  mkdir = λ path mode w. (done mode, w);
  rmdir = λ path w. (done 0, w);
  unlink = λ path w. (done 0, w);
  access = λ path mode w. (done 0, w);
  rename = λ old new w. (done 0, w);
  opendir = λ path w. (some 1, w);
  stat = λ path w. (done 0, w);
  chdir = λ path w. (done 0, w);
}

abbrev read_only : Flags
read_only = record { access = rdonly; creat = false; excl = false; trunc = false; append = false }

abbrev with_handle : State
with_handle =
    (openat closing folders none (some (codes "sdmc:/a")) read_only true 0 initial no_directories
      []).2

openat-ActsOn_example :
    ActsOn closing folders dir_handle_base
      (codes "b")
      (join_path (codes "sdmc:/a") (codes "b"))
      none
      (some (codes "sdmc:/c"))
      read_write
      false
      0
      initial
      with_handle
      []
unfolding openat bytes_eq is_rdonly is_absolute_path
openat-ActsOn_example =
    openat-ActsOn closing folders (codes "sdmc:/a") (codes "b") read_only read_write true false 0 0
      dir_handle_base none (some (codes "sdmc:/c")) initial initial no_directories [] [] refl refl
      refl refl refl

abbrev at_start : VirtualFile
at_start = record { in_use = true; base = 0; offset = pos 0; append = false }

pread-Stands_example :
    Stands file_handle_base 0 at_start
      (pread closing file_handle_base 4 (pos 2) opened []).1
      (pos 0)
unfolding file_for wrap_open
pread-Stands_example = pread-Stands file_handle_base 0 at_start closing opened [] 4 0 (pos 2) refl

-- The real fstat knows the descriptor 3, and leaves EBADF for others, for which the world then holds 9.
abbrev begins_nine : List ℕ → Bool
begins_nine [] = false
begins_nine (x ∷ xs) = x == 9

abbrev statuses : Statuses closing
statuses = record {
  real_stat = λ path w. (none, w);
  real_fstat =
      λ fd w. if fd == 3 then (some (record { mode = regular; size = 8 }), w) else (none, 9 ∷ w);
  real_fsync = λ fd w. (if fd == 3 then unsupported else unsynced, w);
  real_fcntl = λ fd cmd arg w. (if fd == 3 then done 0 else failed real_error, w);
  errno_is_eio = λ w. if begins_nine w then false else true;
}

abbrev file_status : Stat
file_status = record { mode = regular; size = 8 }

fstat_of_handle :
    (wrap_fstat closing statuses file_handle_base opened no_directories []).0 ≡ done file_status
unfolding wrap_fstat
fstat_of_handle = refl

-- The second attempt of stat asks the real fstat for the number of a handle, which it does not know.
stat_of_open_file :
    (wrap_stat closing statuses (codes "a") opened no_directories []).0 ≡ failed real_error
unfolding wrap_stat bytes_eq file_for
stat_of_open_file = refl

fsync_of_handle : (wrap_fsync closing statuses file_handle_base opened []).0 ≡ done 0
unfolding wrap_fsync wrap_open
fsync_of_handle = refl

-- Any command but a lock reaches the real fcntl with the number of the handle.
fcntl_of_handle :
    (wrap_fcntl closing statuses file_handle_base (other_command 1 0) false []).0
    ≡ failed real_error
unfolding wrap_fcntl
fcntl_of_handle = refl
