-- ===== src/Posix/Files.antt =====
-- The virtual file handles: one real descriptor for each path, counted, and an offset for each handle.
use flutter_libnx.Prelude.{
  ℕ, ◌+◌, ◌-◌, Bool, true, false, ◌&&◌, not, Option, none, some, List, [], ltb, leb, ◌==◌,
  if◌then◌else◌, ℤ, pos, get_elem?, get_or, set, bytes_eq, replicate,
}
use flutter_libnx.Posix.Directories.{first_index}

pub record BaseFile : Type 0 where
  pub in_use : Bool
  pub path : List ℕ
  pub real_fd : ℕ
  pub refs : ℕ

pub record VirtualFile : Type 0 where
  pub in_use : Bool
  pub base : ℕ
  pub offset : ℤ
  pub append : Bool

pub record FileState : Type 0 where
  pub bases : List BaseFile
  pub files : List VirtualFile

abbrev pub max_base_files : ℕ
max_base_files = 64

abbrev pub max_virtual_files : ℕ
max_virtual_files = 128

-- A slot that was never used; the program's -1 in `real_fd` and `base` is not read from such a one.
abbrev pub free_slot : BaseFile
free_slot = record { in_use = false; path = []; real_fd = 0; refs = 0 }

abbrev pub free_handle : VirtualFile
free_handle = record { in_use = false; base = 0; offset = pos 0; append = false }

abbrev pub initial : FileState
initial = record {
  bases = replicate max_base_files free_slot;
  files = replicate max_virtual_files free_handle;
}

pub data Access : Type 0 where
  rdonly wronly rdwr : Access

-- The bits of `flags` that the program tests or changes.
pub record Flags : Type 0 where
  pub access : Access
  pub creat : Bool
  pub excl : Bool
  pub trunc : Bool
  pub append : Bool

-- An int is its value; -1 with errno is `failed`, and `real_error` an errno that the C library set.
pub data Errno : Type 0 where
  einval eexist emfile ebadf eisdir enotdir real_error : Errno

pub data Call (A : Type 0) : Type 0 where
  done : A → Call A
  failed : Errno → Call A

pub data Whence : Type 0 where
  seek_set seek_cur seek_end unknown_whence : Whence

-- What the wrappers call of the C library and the file service below it.
pub record Libc : Type 1 where
  pub World : Type 0
  pub real_open : List ℕ → Flags → ℕ → World → Option ℕ × World
  -- close, dup and ftruncate of a real descriptor.
  pub real_close : ℕ → World → Call ℕ × World
  pub real_dup : ℕ → World → Call ℕ × World
  pub real_ftruncate : ℕ → ℤ → World → Call ℕ × World
  -- A number below 0 is a failure.
  pub real_lseek : ℕ → ℤ → Whence → World → ℤ × World
  -- How many bytes were written; and the bytes that were read.
  pub real_write : ℕ → List ℕ → World → Option ℕ × World
  pub real_read : ℕ → ℕ → World → Option (List ℕ) × World
  -- fstat: whether the file is a regular one, and its size.
  pub real_fstat : ℕ → World → Option (Bool × ℕ)

abbrev pub file_handle_base : ℕ
file_handle_base = 0x5000_0000

unfoldable pub is_file_handle : ℕ → Bool
is_file_handle fd = leb file_handle_base fd && ltb fd (file_handle_base + max_virtual_files)

abbrev pub names_base : List ℕ → BaseFile → Bool
names_base path b = b.in_use && bytes_eq b.path path

abbrev pub find_base : List ℕ → List BaseFile → Option ℕ
find_base path bs = first_index (names_base path) bs 0

abbrev pub find_free_base : List BaseFile → Option ℕ
find_free_base bs = first_index (λ (b : BaseFile). not b.in_use) bs 0

abbrev pub find_free_file : List VirtualFile → Option ℕ
find_free_file fs = first_index (λ (f : VirtualFile). not f.in_use) fs 0

abbrev pub base_at : FileState → ℕ → BaseFile
base_at s b = get_or s.bases b free_slot

-- FileFor: the index of the handle's entry, and the entry, if it is in use.
unfoldable pub used_entry : ℕ → Option VirtualFile → Option (ℕ × VirtualFile)
used_entry i none = none
used_entry i (some f) = if f.in_use then some (i, f) else none

unfoldable pub file_for : FileState → ℕ → Option (ℕ × VirtualFile)
unfolding is_file_handle used_entry
file_for s fd =
    if is_file_handle fd
    then used_entry (fd - file_handle_base) (get_elem? s.files (fd - file_handle_base))
    else none

-- The entry `i` becomes a handle on base `b`, which counts it.
unfoldable pub occupy : ℕ → VirtualFile → FileState → FileState
occupy i f s =
    let base = base_at s f.base in
    record {
      bases = set s.bases f.base (record base { refs = base.refs + 1 });
      files = set s.files i f;
    }

module _ (L : Libc) where
  -- The last part of __wrap_open: a free entry, or EMFILE.
  unfoldable pub attach : ℕ → Bool → FileState → L.World → Call ℕ × FileState × L.World
  unfolding occupy first_index
  attach b append s w = elim (find_free_file s.files) [
    | some i ↦ (
      done (file_handle_base + i),
      occupy i (record { in_use = true; base = b; offset = pos 0; append = append }) s,
      w,
    )
    | none ↦
        let (rc, w') = L.real_close (base_at s b).real_fd w in
        if (base_at s b).refs == 0
        then (
          failed emfile,
          record s { bases = set s.bases b (record (base_at s b) { in_use = false }) },
          w',
        )
        else (failed emfile, s, w)
  ]

  -- The two attempts at a real descriptor.
  unfoldable pub open_real : List ℕ → Flags → ℕ → L.World → Option ℕ × L.World
  open_real path flags mode w =
      let (first, w') = L.real_open path (record flags { append = false; access = rdwr }) mode w in
      elim first [
        | some fd ↦ (some fd, w')
        | none ↦ L.real_open path (record flags { append = false }) mode w'
      ]

  unfoldable pub open_new : List ℕ → Flags → ℕ → FileState → L.World → Call ℕ × FileState × L.World
  unfolding open_real attach first_index
  open_new path flags mode s w =
      let (opened, w') = open_real path flags mode w in
      elim opened [
        | none ↦ (failed real_error, s, w')
        | some fd ↦ elim (find_free_base s.bases) [
          | none ↦ (failed emfile, s, (L.real_close fd w').1)
          | some b ↦
              let base : BaseFile = record { in_use = true; path = path; real_fd = fd; refs = 0 } in
              attach b flags.append (record s { bases = set s.bases b base }) w'
        ]
      ]

  unfoldable pub open_shared : ℕ → Flags → FileState → L.World → Call ℕ × FileState × L.World
  unfolding attach
  open_shared b flags s w =
      if flags.creat && flags.excl
      then (failed eexist, s, w)
      else attach b flags.append s
          (if flags.trunc then (L.real_ftruncate (base_at s b).real_fd (pos 0) w).1 else w)

  -- __wrap_open; a null path is `none`.
  unfoldable pub wrap_open :
      Option (List ℕ) → Flags → ℕ → FileState → L.World → Call ℕ × FileState × L.World
  unfolding open_shared open_new
  wrap_open none flags mode s w = (failed einval, s, w)
  wrap_open (some path) flags mode s w = elim (find_base path s.bases) [
    | some b ↦ open_shared b flags s w
    | none ↦ open_new path flags mode s w
  ]
