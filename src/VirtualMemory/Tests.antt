-- ===== src/VirtualMemory/Tests.antt =====
-- Blocks over an allocator that counts addresses up.
use flutter_libnx.Prelude.{ℕ, ◌+◌, ◌≡◌, refl, true, false, some, [], ◌∷◌, arith, codes, inl}
use mathlib.Core.List.{Mem}
use flutter_libnx.HeapGuard.Memory.{write_bytes, read_bytes}
use flutter_libnx.VirtualMemory.Guards.{
  Allocator, LiveBlock, Vm, find_block, allocate_aligned, destroy,
}
use flutter_libnx.VirtualMemory.Runs.{
  at_start, and_then, allocated, written, destroyed, IsQuiet, Turns-IsQuiet, destroy_reports,
}

abbrev counting : Allocator
counting = record {
  Heap = ℕ;
  memalign = λ alignment size h. (some h, h + size);
  malloc_entry = λ h. (true, h);
  free = λ a h. h;
  free_entry = λ h. h;
}

abbrev unused : Vm counting
unused = record { live = []; alloc_count = 0; memory = λ x. 0; heap = 4096; reports = [] }

abbrev with_block : Vm counting
with_block = (allocate_aligned counting 4096 4096 false (codes "heap") unused).1

abbrev block : LiveBlock
block = record { address = 4096; size = 4096; name = codes "heap" }

abbrev overrun : Vm counting
overrun = record with_block { memory = write_bytes 8192 (0 ∷ []) with_block.memory }

nothing_reported : (destroy counting true 4096 with_block).reports ≡ []
unfolding destroy allocate_aligned
nothing_reported = refl

Turns-IsQuiet_example : IsQuiet (
    destroy counting true 4096
      (record with_block { memory = write_bytes 8191 (7 ∷ []) with_block.memory }))
unfolding allocate_aligned
Turns-IsQuiet_example =
    Turns-IsQuiet
      (and_then
        (and_then
          (and_then at_start (allocated {v = unused} 4096 4096 false (codes "heap") (λ a e. tt)))
          (written {v = with_block} 8191 7 (inl (omega arith), tt)))
        (destroyed true 4096))
      (tt, refl)

destroy_reports_example :
    Mem
      (record { block = block; guard = read_bytes 8 8192 overrun.memory })
      (destroy counting true 4096 overrun).reports
unfolding allocate_aligned find_block
destroy_reports_example =
    destroy_reports 4096 0 block overrun refl (omega arith) (λ e. omega (arith, e))
