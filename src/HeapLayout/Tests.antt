-- ===== src/HeapLayout/Tests.antt =====
-- Heaps of some machines, and the witness.
use flutter_libnx.Prelude.{ℕ, ◌+◌, ◌*◌, ◌≡◌, refl, ◌⊎◌, Option, none, some, arith, true, false}
use flutter_libnx.HeapLayout.Layout.{heap_size, heap, aborts, init_heap}
use flutter_libnx.HeapLayout.Bounds.{IsFit, init_heap-IsFit}

abbrev mb : ℕ
mb = 1048576

-- 3 GB with 101 MB in use: the whole reserve, and what is left, cut to 2 MB.
plenty : heap_size (3072 * mb) (101 * mb) ≡ 2714 * mb
unfolding heap_size
plenty = refl

-- 380 MB, as an applet: an eighth in reserve.
applet : heap_size (380 * mb) (40 * mb) ≡ 292 * mb
unfolding heap_size
applet = refl

-- Less than 64 MB beside the reserve: the reserve of libnx.
tight : heap_size (80 * mb) (40 * mb) ≡ 38 * mb
unfolding heap_size
tight = refl

from_loader : init_heap (some (4096, 8192)) 0 0 (λ s. none) ≡ heap 4096 12288 true
unfolding init_heap
from_loader = refl

refused : init_heap none (380 * mb) (40 * mb) (λ s. none) ≡ aborts
unfolding init_heap
refused = refl

abbrev given : ℕ → Option ℕ
given s = some 4096

init_heap-IsFit_example :
    (s : ℕ) × IsFit (380 * mb) (40 * mb) s
    × (((given s ≡ none) × (init_heap none (380 * mb) (40 * mb) given ≡ aborts))
        ⊎ ((addr : ℕ) × (given s ≡ some addr)
            × (init_heap none (380 * mb) (40 * mb) given ≡ heap addr (addr + s) false)))
init_heap-IsFit_example = init_heap-IsFit (380 * mb) (40 * mb) given (omega arith) (omega arith)
