-- ===== src/Posix/Access.antt =====
-- The wrappers of write, lseek, ftruncate, read, close and dup. A descriptor is a number from 0 on,
-- and off_t is an integer without bounds.
use flutter_libnx.Prelude.{
  ℕ, ◌+◌, ◌-◌, Bool, true, false, ◌&&◌, Option, none, some, List, [], ◌==◌, leb, ltb, if◌then◌else◌,
  set, length, ℤ, pos, negsuc, ◌+ℤ◌, is_negative,
}
use flutter_libnx.Posix.Directories.{
  State, first_index, is_dir_handle, alloc_handle, release_handle, lookup_path, is_absolute_path,
  join_path,
}
use flutter_libnx.Posix.Files.{
  BaseFile, VirtualFile, FileState, einval, emfile, ebadf, real_error, Call, done, failed, Libc,
  Whence, seek_set, seek_cur, seek_end, unknown_whence, file_handle_base, file_for, find_free_file,
  base_at, occupy,
}

-- AT_FDCWD is `none`. A null path is `none`.
unfoldable pub resolve_at : Option ℕ → Option (List ℕ) → State → Call (List ℕ)
unfolding lookup_path is_absolute_path join_path
resolve_at dirfd none s = failed einval
resolve_at none (some path) s = done path
resolve_at (some fd) (some path) s =
    if is_absolute_path path
    then done path
    else elim (lookup_path fd s) [ none ↦ failed ebadf | some base ↦ done (join_path base path) ]

abbrev pub set_offset : ℕ → VirtualFile → ℤ → FileState → FileState
set_offset i f offset s = record s { files = set s.files i (record f { offset = offset }) }

module _ (L : Libc) where
  -- The part of __wrap_write from __real_write on.
  unfoldable pub write_at :
      ℕ → VirtualFile → List ℕ → FileState → L.World → Call ℕ × FileState × L.World
  write_at i f bytes s w =
      let (count, w') = L.real_write (base_at s f.base).real_fd bytes w in
      elim count [
        | none ↦ (failed real_error, s, w')
        | some n ↦ (done n, (if ltb 0 n then set_offset i f (f.offset +ℤ pos n) s else s), w')
      ]

  unfoldable pub write_handle :
      ℕ → VirtualFile → List ℕ → FileState → L.World → Call ℕ × FileState × L.World
  unfolding write_at
  write_handle i f bytes s w =
      let fd = (base_at s f.base).real_fd in
      let (end, w_end) = L.real_lseek fd (pos 0) seek_end w in
      let (at, w_at) = L.real_lseek fd f.offset seek_set w in
      if f.append
      then write_at i (record f { offset = end }) bytes (set_offset i f end s) w_end
      else if is_negative at
      then (failed real_error, s, w_at)
      else write_at i f bytes s w_at

  -- The result of a real write.
  abbrev real_count : Option ℕ → Call ℕ
  real_count none = failed real_error
  real_count (some n) = done n

  unfoldable pub wrap_write : ℕ → List ℕ → FileState → L.World → Call ℕ × FileState × L.World
  unfolding write_handle
  wrap_write fd bytes s w = elim (file_for s fd) [
    | some (i, f) ↦ write_handle i f bytes s w
    | none ↦ let (count, w') = L.real_write fd bytes w in (real_count count, s, w')
  ]

  -- The target of a seek on a handle, or the error.
  unfoldable pub seek_target : VirtualFile → ℤ → Whence → FileState → L.World → Call ℤ
  seek_target f offset seek_set s w = done offset
  seek_target f offset seek_cur s w = done (f.offset +ℤ offset)
  seek_target f offset seek_end s w = elim (L.real_fstat (base_at s f.base).real_fd w) [
    | none ↦ failed real_error
    | some (regular, size) ↦ done (pos size +ℤ offset)
  ]
  seek_target f offset unknown_whence s w = failed einval

  unfoldable pub move_to : ℕ → VirtualFile → Call ℤ → FileState → Call ℤ × FileState
  move_to i f (failed e) s = (failed e, s)
  move_to i f (done target) s =
      if is_negative target then (failed einval, s) else (done target, set_offset i f target s)

  -- The position, or the C library's error.
  abbrev real_position : ℤ → Call ℤ
  real_position at = if is_negative at then failed real_error else done at

  unfoldable pub wrap_lseek : ℕ → ℤ → Whence → FileState → L.World → Call ℤ × FileState × L.World
  unfolding seek_target move_to
  wrap_lseek fd offset whence s w = elim (file_for s fd) [
    | some (i, f) ↦
        let (result, s') = move_to i f (seek_target f offset whence s w) s in (result, s', w)
    | none ↦ let (at, w') = L.real_lseek fd offset whence w in (real_position at, s, w')
  ]

  unfoldable pub wrap_ftruncate : ℕ → ℤ → FileState → L.World → Call ℕ × L.World
  wrap_ftruncate fd size s w = elim (file_for s fd) [
    | some (i, f) ↦ L.real_ftruncate (base_at s f.base).real_fd size w
    | none ↦ L.real_ftruncate fd size w
  ]

  -- After a failed read: the end of a regular file is no error.
  unfoldable pub is_at_end : Option (Bool × ℕ) → ℤ → Bool
  is_at_end none at = false
  is_at_end (some (regular, size)) (negsuc n) = false
  is_at_end (some (regular, size)) (pos n) = regular && leb size n

  unfoldable pub read_with_eof_fix : ℕ → ℕ → L.World → Call (List ℕ) × L.World
  unfolding is_at_end
  read_with_eof_fix fd count w =
      let (got, w') = L.real_read fd count w in
      elim got [
        | some bytes ↦ (done bytes, w')
        | none ↦ elim (L.real_fstat fd w') [
          | some (true, size) ↦
              let (at, w'') = L.real_lseek fd (pos 0) seek_cur w' in
              ((if is_at_end (some (true, size)) at then done [] else failed real_error), w'')
          | some (false, size) ↦ (failed real_error, w')
          | none ↦ (failed real_error, w')
        ]
      ]

  -- What a read of a handle leaves: its offset behind what was read.
  unfoldable pub after_read : ℕ → VirtualFile → Call (List ℕ) → FileState → FileState
  after_read i f (failed e) s = s
  after_read i f (done bytes) s =
      if ltb 0 (length bytes) then set_offset i f (f.offset +ℤ pos (length bytes)) s else s

  unfoldable pub read_handle :
      ℕ → VirtualFile → ℕ → FileState → L.World → Call (List ℕ) × FileState × L.World
  unfolding read_with_eof_fix after_read
  read_handle i f count s w =
      let fd = (base_at s f.base).real_fd in
      let (at, w_at) = L.real_lseek fd f.offset seek_set w in
      let (got, w') = read_with_eof_fix fd count w_at in
      if is_negative at then (failed real_error, s, w_at) else (got, after_read i f got s, w')

  unfoldable pub wrap_read : ℕ → ℕ → FileState → L.World → Call (List ℕ) × FileState × L.World
  unfolding read_handle
  wrap_read fd count s w = elim (file_for s fd) [
    | some (i, f) ↦ read_handle i f count s w
    | none ↦ let (got, w') = read_with_eof_fix fd count w in (got, s, w')
  ]

  -- __wrap_close on the handle at `i`: the last one closes the real descriptor.
  unfoldable pub close_handle : ℕ → VirtualFile → FileState → L.World → Call ℕ × FileState × L.World
  close_handle i f s w =
      let base = base_at s f.base in
      let files = set s.files i (record f { in_use = false }) in
      let closed : BaseFile = record {
        in_use = false;
        path = [];
        real_fd = base.real_fd;
        refs = base.refs - 1;
      } in
      let (rc, w') = L.real_close base.real_fd w in
      if base.refs - 1 == 0
      then (rc, record { bases = set s.bases f.base closed; files = files }, w')
      else (
        done 0,
        record { bases = set s.bases f.base (record base { refs = base.refs - 1 }); files = files },
        w,
      )

  -- __wrap_close on anything else.
  unfoldable pub close_other : ℕ → State → L.World → Call ℕ × State × L.World
  unfolding release_handle is_dir_handle
  close_other fd dirs w =
      let (released, dirs') = release_handle fd dirs in
      let (rc, w') = L.real_close fd w in
      if released
      then (done 0, dirs', w)
      else if is_dir_handle fd
      then (failed ebadf, dirs', w)
      else (rc, dirs', w')

  unfoldable pub wrap_close : ℕ → FileState → State → L.World → Call ℕ × FileState × State × L.World
  unfolding close_handle close_other
  wrap_close fd s dirs w = elim (file_for s fd) [
    | some (i, f) ↦ let (rc, s', w') = close_handle i f s w in (rc, s', dirs, w')
    | none ↦ let (rc, dirs', w') = close_other fd dirs w in (rc, s, dirs', w')
  ]

  unfoldable pub dup_handle : VirtualFile → FileState → Call ℕ × FileState
  unfolding first_index occupy
  dup_handle f s = elim (find_free_file s.files) [
    | none ↦ (failed emfile, s)
    | some i ↦ (done (file_handle_base + i), occupy i f s)
  ]

  unfoldable pub dup_dir : List ℕ → State → Call ℕ × State
  unfolding alloc_handle
  dup_dir path dirs =
      let (handle, dirs') = alloc_handle path dirs in
      elim handle [ none ↦ (failed emfile, dirs') | some fd ↦ (done fd, dirs') ]

  unfoldable pub dup_other : ℕ → State → L.World → Call ℕ × State × L.World
  unfolding dup_dir lookup_path is_dir_handle
  dup_other fd dirs w = elim (lookup_path fd dirs) [
    | some path ↦ let (result, dirs') = dup_dir path dirs in (result, dirs', w)
    | none ↦
        let (rc, w') = L.real_dup fd w in
        if is_dir_handle fd then (failed ebadf, dirs, w) else (rc, dirs, w')
  ]

  unfoldable pub wrap_dup : ℕ → FileState → State → L.World → Call ℕ × FileState × State × L.World
  unfolding dup_handle dup_other
  wrap_dup fd s dirs w = elim (file_for s fd) [
    | some (i, f) ↦ let (result, s') = dup_handle f s in (result, s', dirs, w)
    | none ↦ let (rc, dirs', w') = dup_other fd dirs w in (rc, s, dirs', w')
  ]
