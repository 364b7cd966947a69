-- ===== src/HeapGuard/Wrappers.antt =====
-- The wrappers of malloc, free, memalign, calloc and realloc. A pointer is an address, or `none` for
-- nullptr; addresses do not wrap around, sizes do, as size_t.
use flutter_libnx.Prelude.{
  ℕ, zero, suc, ◌+◌, ◌-◌, ◌*◌, ◌/◌, ◌%◌, ◌^◌, Bool, true, false, not, ◌&&◌, Option, none, some,
  List, [], ◌∷◌, ◌++◌, if◌then◌else◌, ltb, ◌==◌, replicate,
}
use flutter_libnx.HeapGuard.Memory.{Memory, write_bytes, read_bytes, load, store}

-- The allocator below. It keeps its state in the memory.
pub record Allocator : Type 0 where
  pub malloc : ℕ → Memory → Option ℕ × Memory
  pub memalign : ℕ → ℕ → Memory → Option ℕ × Memory
  pub free : ℕ → Memory → Memory

-- What the wrappers log, and the blocks given back, with the pointer that the allocator got.
pub data When : Type 0 where
  on_free on_realloc : When

pub data Event : Type 0 where
  malloc_failed : ℕ → ℕ → Event
  overflow : When → ℕ → ℕ → ℕ → List ℕ → Event
  double_free foreign_free foreign_realloc : ℕ → ℕ → Event
  freed : ℕ → Event

pub record World : Type 0 where
  pub memory : Memory
  pub events : List Event

abbrev pub size_t : ℕ → ℕ
size_t n = n % 2 ^ 64

-- sizeof(Header), with its fields size at 0, caller at 8, raw at 16 and magic at 24.
abbrev pub header_size : ℕ
header_size = 32

abbrev pub header_align : ℕ
header_align = 16

abbrev pub guard_bytes : ℕ
guard_bytes = 16

abbrev pub guard_pattern : ℕ
guard_pattern = 90

abbrev pub magic_live : ℕ
magic_live = 3237998081

abbrev pub magic_freed : ℕ
magic_freed = 3735928321

-- The fields of the header before a user pointer.
abbrev pub size_at : ℕ → ℕ
size_at user = user - header_size

abbrev pub caller_at : ℕ → ℕ
caller_at user = user - header_size + 8

abbrev pub raw_at : ℕ → ℕ
raw_at user = user - header_size + 16

abbrev pub magic_at : ℕ → ℕ
magic_at user = user - header_size + 24

unfoldable pub intact_from : ℕ → ℕ → Memory → Bool
intact_from zero a mem = true
intact_from (suc n) a mem =
    if not (mem a == guard_pattern) then false else intact_from n (a + 1) mem

unfoldable pub guard_intact : ℕ → ℕ → Memory → Bool
unfolding intact_from
guard_intact user size mem = intact_from guard_bytes (user + size) mem

-- The report of a damaged guard, and none of an intact one.
unfoldable pub check_guard : When → ℕ → World → World
unfolding guard_intact
check_guard when user w =
    let size = load 8 (size_at user) w.memory in
    if not (guard_intact user size w.memory)
    then record w {
      events =
          w.events
          ++ (overflow when user size (load 8 (caller_at user) w.memory)
                (read_bytes 8 (user + size) w.memory)
              ∷ []);
    }
    else w

-- The header, then the guard.
unfoldable pub prepare_block : ℕ → ℕ → ℕ → ℕ → Memory → Memory
prepare_block caller size raw user mem =
    let m1 = store 8 (size_at user) size mem in
    let m2 = store 8 (caller_at user) caller m1 in
    let m3 = store 4 (magic_at user) magic_live m2 in
    let m4 = store 8 (raw_at user) raw m3 in
    write_bytes (user + size) (replicate guard_bytes guard_pattern) m4

-- calloc's memset of the data.
unfoldable pub clear_block : ℕ → Option ℕ × World → Option ℕ × World
clear_block total (none, w) = (none, w)
clear_block total (some user, w) =
    (some user, record w { memory = write_bytes user (replicate total 0) w.memory })

-- What the wrapper does with the result of the real malloc.
unfoldable pub malloc_in : ℕ → ℕ → List Event → Option ℕ × Memory → Option ℕ × World
unfolding prepare_block
malloc_in caller size events (none, mem) =
    (none, record { memory = mem; events = events ++ (malloc_failed size caller ∷ []) })
malloc_in caller size events (some raw, mem) =
    let user = raw + header_size in
    (some user, record { memory = prepare_block caller size raw user mem; events = events })

unfoldable pub memalign_in : ℕ → ℕ → ℕ → List Event → Option ℕ × Memory → Option ℕ × World
unfolding prepare_block
memalign_in caller alignment size events (none, mem) =
    (none, record { memory = mem; events = events })
memalign_in caller alignment size events (some raw, mem) =
    let user = raw + alignment in
    (some user, record { memory = prepare_block caller size raw user mem; events = events })

module _ (A : Allocator) where
  unfoldable pub wrap_malloc : ℕ → ℕ → World → Option ℕ × World
  unfolding malloc_in
  wrap_malloc caller size w =
      malloc_in caller size w.events (A.malloc (size_t (header_size + size + guard_bytes)) w.memory)

  unfoldable pub free_live : ℕ → World → World
  unfolding check_guard
  free_live user w =
      let checked = check_guard on_free user w in
      let mem = store 4 (magic_at user) magic_freed checked.memory in
      let raw = load 8 (raw_at user) mem in
      record { memory = A.free raw mem; events = checked.events ++ (freed raw ∷ []) }

  unfoldable pub wrap_free : Option ℕ → World → World
  unfolding free_live
  wrap_free none w = w
  wrap_free (some user) w =
      let magic = load 4 (magic_at user) w.memory in
      if magic == magic_freed
      then record w {
        events = w.events ++ (double_free user (load 8 (caller_at user) w.memory) ∷ []);
      }
      else if not (magic == magic_live)
      then record w { events = w.events ++ (foreign_free user magic ∷ []) }
      else free_live user w

  unfoldable pub wrap_memalign : ℕ → ℕ → ℕ → World → Option ℕ × World
  unfolding memalign_in
  wrap_memalign caller alignment size w =
      let aligned = if ltb alignment header_align then header_align else alignment in
      memalign_in caller aligned size w.events
        (A.memalign aligned (size_t (aligned + size + guard_bytes)) w.memory)

  unfoldable pub wrap_calloc : ℕ → ℕ → ℕ → World → Option ℕ × World
  unfolding wrap_malloc clear_block
  wrap_calloc caller count size w =
      let total = size_t (count * size) in
      if not (count == 0) && not (total / count == size)
      then (none, w)
      else clear_block total (wrap_malloc caller total w)

  unfoldable pub move_block : ℕ → ℕ → Option ℕ × World → Option ℕ × World
  unfolding wrap_free
  move_block user size (none, w) = (none, w)
  move_block user size (some fresh, w) =
      let old = load 8 (size_at user) w.memory in
      let kept = if ltb old size then old else size in
      let copied = record w {
        memory = write_bytes fresh (read_bytes kept user w.memory) w.memory;
      } in
      (some fresh, wrap_free (some user) copied)

  unfoldable pub wrap_realloc : ℕ → Option ℕ → ℕ → World → Option ℕ × World
  unfolding wrap_malloc wrap_free check_guard move_block
  wrap_realloc caller none size w = wrap_malloc caller size w
  wrap_realloc caller (some user) zero w = (none, wrap_free (some user) w)
  wrap_realloc caller (some user) (suc n) w =
      let magic = load 4 (magic_at user) w.memory in
      if not (magic == magic_live)
      then (none, record w { events = w.events ++ (foreign_realloc user magic ∷ []) })
      else move_block user (suc n) (wrap_malloc caller (suc n) (check_guard on_realloc user w))
