-- ===== src/VirtualMemory/Guards.antt =====
-- The guards behind the blocks, the list of live blocks, and VirtualMemory itself.
use flutter_libnx.Prelude.{
  ℕ, zero, suc, ◌+◌, ◌%◌, Bool, true, false, Option, none, some, List, [], ◌∷◌, ◌++◌, if◌then◌else◌,
  ◌==◌, replicate,
}
use flutter_libnx.HeapGuard.Memory.{Memory, write_bytes, read_bytes}

-- The allocator: memalign, malloc of an entry of the list, and free of a block and of an entry. What it
-- keeps for itself is its Heap, and no part of the memory that is read here.
pub record Allocator : Type 1 where
  pub Heap : Type 0
  pub memalign : ℕ → ℕ → Heap → Option ℕ × Heap
  pub malloc_entry : Heap → Bool × Heap
  pub free : ℕ → Heap → Heap
  pub free_entry : Heap → Heap

pub record LiveBlock : Type 0 where
  pub address : ℕ
  pub size : ℕ
  pub name : List ℕ

-- What ReportBroken logs: the block, and the first eight bytes of its guard.
pub record Broken : Type 0 where
  pub block : LiveBlock
  pub guard : List ℕ

-- g_live, g_alloc_count, the memory, the allocator, and the reports.
pub record Vm (A : Allocator) : Type 0 where
  pub live : List LiveBlock
  pub alloc_count : ℕ
  pub memory : Memory
  pub heap : A.Heap
  pub reports : List Broken

abbrev pub guard_size : ℕ
guard_size = 64

abbrev pub guard_pattern : ℕ
guard_pattern = 165

abbrev pub sweep_every : ℕ
sweep_every = 64

unfoldable pub guard_loop : ℕ → ℕ → Memory → Bool
guard_loop zero a mem = true
guard_loop (suc n) a mem =
    (let rest = guard_loop n (a + 1) mem in if mem a == guard_pattern then rest else false)

unfoldable pub guard_intact : LiveBlock → Memory → Bool
unfolding guard_loop
guard_intact b mem = guard_loop guard_size (b.address + b.size) mem

-- The check of one block, and of all.
unfoldable pub check_block : LiveBlock → Memory → List Broken
unfolding guard_intact
check_block b mem =
    if guard_intact b mem
    then []
    else record { block = b; guard = read_bytes 8 (b.address + b.size) mem } ∷ []

unfoldable pub sweep : List LiveBlock → Memory → List Broken
unfolding check_block
sweep [] mem = []
sweep (b ∷ bs) mem = check_block b mem ++ sweep bs mem

-- The first block at the address, and the list without it.
unfoldable pub find_block : ℕ → List LiveBlock → Option LiveBlock
find_block a [] = none
find_block a (b ∷ bs) = (let rest = find_block a bs in if b.address == a then some b else rest)

unfoldable pub drop_block : ℕ → List LiveBlock → List LiveBlock
drop_block a [] = []
drop_block a (b ∷ bs) = (let rest = drop_block a bs in if b.address == a then bs else b ∷ rest)

module _ (A : Allocator) where
  -- The entry, the count and the sweep of GuardWrite.
  unfoldable pub add_block : LiveBlock → Vm A → Vm A
  unfolding sweep
  add_block b v =
      let live = b ∷ v.live in
      let n = v.alloc_count + 1 in
      record v {
        live = live;
        alloc_count = n;
        reports = if n % sweep_every == 0 then v.reports ++ sweep live v.memory else v.reports;
      }

  unfoldable pub guard_write : ℕ → ℕ → List ℕ → Vm A → Vm A
  unfolding add_block
  guard_write a size name v =
      let (ok, h) = A.malloc_entry v.heap in
      let v' : Vm A = record v {
        memory = write_bytes (a + size) (replicate guard_size guard_pattern) v.memory;
        heap = h;
      } in
      if ok then add_block (record { address = a; size = size; name = name }) v' else v'

  -- GuardCheckAndForget
  unfoldable pub forget_block : ℕ → Vm A → Vm A
  unfolding check_block find_block drop_block
  forget_block a v = elim (find_block a v.live) [
    | none ↦ v
    | some b ↦ record v {
      live = drop_block a v.live;
      heap = A.free_entry v.heap;
      reports = v.reports ++ check_block b v.memory;
    }
  ]

  -- VirtualMemory::AllocateAligned: the region, if there is one. That it is asked for executable memory
  -- is only logged.
  unfoldable pub allocate_aligned : ℕ → ℕ → Bool → List ℕ → Vm A → Option (ℕ × ℕ) × Vm A
  unfolding guard_write
  allocate_aligned size alignment is_executable name v =
      let (address, h) = A.memalign alignment (size + guard_size) v.heap in
      elim address [
        | none ↦ (none, record v { heap = h })
        | some a ↦ (some (a, size), guard_write a size name (record v { heap = h }))
      ]

  -- VirtualMemory::~VirtualMemory
  unfoldable pub destroy : Bool → ℕ → Vm A → Vm A
  unfolding forget_block
  destroy owns_region a v =
      let v' = forget_block a v in if owns_region then record v' { heap = A.free a v'.heap } else v

-- FreeSubSegment: a block is not divided.
unfoldable pub free_sub_segment : ℕ → ℕ → Bool
free_sub_segment a size = false
