-- ===== src/ThreadDiag/Tests.antt =====
-- The scan and the healing over a small address space.
use flutter_libnx.Prelude.{
  ℕ, ◌≡◌, refl, Bool, true, false, Option, none, some, List, [], ◌∷◌, if◌then◌else◌, ltb,
}
use flutter_libnx.ThreadDiag.Pages.{
  MemoryInfo, MemoryType, heap, mapped, Kernel, finished, scan_heap, heal_heap,
}
use flutter_libnx.ThreadDiag.Walks.{Ends}
use flutter_libnx.ThreadDiag.Spared.{IsSparing, heal_heap-Ends}

abbrev region : MemoryType → ℕ → Bool → MemoryInfo
region kind addr borrowed = record {
  kind = kind;
  addr = addr;
  size = 4096;
  borrowed = borrowed;
  attr = if borrowed then 1 else 0;
  perm = if borrowed then 0 else 3;
}

-- Pages of the heap, a hole in it, the stack that runs, and the mirror of the hole.
abbrev info_at : ℕ → Option MemoryInfo
info_at addr =
    if ltb addr 4096
    then some (region heap 0 false)
    else if ltb addr 8192
    then some (region heap 4096 true)
    else if ltb addr 12288
    then some (region mapped 8192 false)
    else if ltb addr 16384
    then some (region mapped 12288 false)
    else none

-- The world is the mirrors that were unmapped.
abbrev kernel : Kernel
kernel = record {
  World = List ℕ;
  query = λ addr w. info_at addr;
  unmap = λ mirror hole size w. (true, mirror ∷ w);
}

anomalies_seen :
    scan_heap kernel [] 0 8192
    ≡ finished (record {
      regions = 2;
      anomalies = 1;
      anomaly_bytes = 4096;
      reported = region heap 4096 true ∷ [];
    })
unfolding scan_heap
anomalies_seen = refl

-- The mirror of the hole is unmapped, and the stack is left alone, which comes first.
mirror_unmapped :
    heal_heap kernel 0 8192 9000 []
    ≡ finished (record {
      healed = 1;
      calls =
          record { mirror = region mapped 12288 false; hole = record { addr = 4096; size = 4096 } }
          ∷ [];
      world = 12288 ∷ [];
    })
unfolding heal_heap
mirror_unmapped = refl

heal_heap-Ends_example :
    Ends (IsSparing kernel [] (kernel.query 9000 [])) (heal_heap kernel 0 8192 9000 [])
heal_heap-Ends_example = heal_heap-Ends kernel [] 0 8192 9000
