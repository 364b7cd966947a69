-- ===== src/HeapLayout/Layout.antt =====
-- __libnx_initheap. A u64 wraps around at 2^64.
use flutter_libnx.Prelude.{
  ℕ, ◌+◌, ◌-◌, ◌*◌, ◌/◌, ◌%◌, ◌^◌, Bool, true, false, Option, none, some, if◌then◌else◌, ltb,
}

abbrev pub reserve_outside_heap : ℕ
reserve_outside_heap = 2 ^ 28

abbrev pub minimum_heap : ℕ
minimum_heap = 2 ^ 26

-- libnx' own reserve, and the granularity of a heap: 0x200000.
abbrev pub two_mb : ℕ
two_mb = 2 ^ 21

abbrev pub add64 : ℕ → ℕ → ℕ
add64 a b = (a + b) % 2 ^ 64

abbrev pub sub64 : ℕ → ℕ → ℕ
sub64 a b = (a + 2 ^ 64 - b) % 2 ^ 64

-- `n & ~0x1FFFFF`
abbrev pub align_down : ℕ → ℕ
align_down n = n / 2 ^ 21 * 2 ^ 21

unfoldable pub reserve_of : ℕ → ℕ
reserve_of mem_available =
    if ltb mem_available (reserve_outside_heap * 4)
    then (if ltb (mem_available / 8) two_mb then two_mb else mem_available / 8)
    else reserve_outside_heap

-- What is left besides the reserve, or 0.
unfoldable pub size_beside : ℕ → ℕ → ℕ → ℕ
size_beside reserve mem_available mem_used =
    if ltb (add64 mem_used reserve) mem_available
    then align_down (sub64 (sub64 mem_available mem_used) reserve)
    else 0

unfoldable pub heap_size : ℕ → ℕ → ℕ
unfolding reserve_of size_beside
heap_size mem_available mem_used =
    let size = size_beside (reserve_of mem_available) mem_available mem_used in
    if ltb size minimum_heap then size_beside two_mb mem_available mem_used else size

-- fake_heap_start, fake_heap_end and g_heap_from_loader; or the abort.
pub data Heap : Type 0 where
  heap : ℕ → ℕ → Bool → Heap
  aborts : Heap

unfoldable pub set_heap : ℕ → Option ℕ → Heap
set_heap size none = aborts
set_heap size (some addr) = heap addr (addr + size) false

-- The loader's heap, if it gives one; the two answers of svcGetInfo; and svcSetHeapSize, which gives
-- an address if it succeeds.
unfoldable pub init_heap : Option (ℕ × ℕ) → ℕ → ℕ → (ℕ → Option ℕ) → Heap
unfolding heap_size set_heap
init_heap (some (addr, size)) mem_available mem_used set_heap_size = heap addr (addr + size) true
init_heap none mem_available mem_used set_heap_size =
    let size = heap_size mem_available mem_used in set_heap size (set_heap_size size)
