-- ===== src/HeapGuard/Tests.antt =====
-- Runs of the wrappers over an allocator that always gives the same block, and the witnesses.
use flutter_libnx.Prelude.{
  ℕ, ◌+◌, ◌-◌, ◌*◌, ◌%◌, ◌^◌, ◌≤◌, ◌<◌, ◌≡◌, refl, sym, ◌⊎◌, inl, inr, Option, none, some, [], ◌∷◌,
  arith,
}
use flutter_libnx.HeapGuard.Memory.{write_bytes, read_bytes, load, store, write_bytes-Outside}
use flutter_libnx.HeapGuard.Wrappers.{
  Allocator, on_free, overflow, double_free, foreign_free, freed, World, prepare_block, wrap_malloc,
  wrap_free, wrap_memalign, wrap_calloc, wrap_realloc,
}
use flutter_libnx.HeapGuard.Blocks.{Headed, Headed-Agree, prepare_block-Headed}
use flutter_libnx.HeapGuard.Freeing.{Served, wrap_free-wrap_malloc, wrap_free-wrap_memalign}
use flutter_libnx.HeapGuard.Reallocated.{Moved, wrap_realloc-Moved}
use flutter_libnx.HeapGuard.Products.{Zeroed, wrap_calloc-Zeroed}

abbrev allocator : Allocator
allocator = record {
  malloc = λ n mem. (some 1024, mem);
  memalign = λ a n mem. (some (a * 16), mem);
  free = λ raw mem. mem;
}

abbrev empty : World
empty = record { memory = λ x. 0; events = [] }

abbrev written : World → ℕ → ℕ → World
written w a b = record w { memory = write_bytes a (b ∷ []) w.memory }

-- Four bytes of data, then a write one behind them.
abbrev overrun : World
overrun = written (wrap_malloc allocator 7 4 empty).1 1060 1

freed_after_overrun :
    (wrap_free allocator (some 1056) overrun).events
    ≡ overflow on_free 1056 4 7 (1 ∷ 90 ∷ 90 ∷ 90 ∷ 90 ∷ 90 ∷ 90 ∷ 90 ∷ []) ∷ freed 1024 ∷ []
unfolding wrap_free load wrap_malloc store
freed_after_overrun = refl

freed_twice :
    (wrap_free allocator
      (some 1056)
      (wrap_free allocator (some 1056) (wrap_malloc allocator 7 4 empty).1)).events
    ≡ freed 1024 ∷ double_free 1056 7 ∷ []
unfolding wrap_free load wrap_malloc store
freed_twice = refl

freed_foreign : (wrap_free allocator (some 512) empty).events ≡ foreign_free 512 0 ∷ []
unfolding wrap_free load
freed_foreign = refl

-- With an alignment of 16 the header begins 16 bytes before the block, which is at 256.
memalign_header : load 8 240 (wrap_memalign allocator 7 16 4 empty).1.memory ≡ 4
unfolding load wrap_memalign store
memalign_header = refl

-- The sum in malloc wraps around: a size near 2^64 asks for 31 bytes.
malloc_wraps :
    (wrap_malloc (record allocator { malloc = λ n mem. (some n, mem) }) 7 (2 ^ 64 - 17) empty).0
    ≡ some 63
unfolding wrap_malloc
malloc_wraps = refl

calloc_wraps : (wrap_calloc allocator 7 (2 ^ 32) (2 ^ 32) empty).0 ≡ none
unfolding wrap_calloc
calloc_wraps = refl

abbrev block : World
block = written (record empty { memory = prepare_block 7 4 4096 4128 empty.memory }) 4130 5

abbrev grown : Option ℕ × World
grown = wrap_realloc allocator 7 (some 4128) 8 block

grown_bytes : read_bytes 8 1056 grown.1.memory ≡ 0 ∷ 0 ∷ 5 ∷ 0 ∷ 0 ∷ 0 ∷ 0 ∷ 0 ∷ []
unfolding wrap_realloc load store
grown_bytes = refl

wrap_free-wrap_malloc_example :
    Served allocator 7 4 1024 1056 empty empty.memory overrun.memory 2000
      (wrap_malloc allocator 7 4 empty)
wrap_free-wrap_malloc_example =
    wrap_free-wrap_malloc allocator 7 4 1024 empty empty.memory overrun.memory 2000 (omega arith)
      (omega arith) (omega arith) refl (inr (omega arith))
      (λ x low high. sym (
        write_bytes-Outside 1060 (1 ∷ []) (wrap_malloc allocator 7 4 empty).1.memory x
          (inl (omega arith))))

wrap_free-wrap_memalign_example :
    ((1024 + 64) % 64 ≡ 0)
    × Served allocator 7 4 1024 1088 empty empty.memory
        (wrap_memalign allocator 7 64 4 empty).1.memory
        2000
        (wrap_memalign allocator 7 64 4 empty)
wrap_free-wrap_memalign_example =
    wrap_free-wrap_memalign allocator 7 64 4 1024 empty empty.memory
      (wrap_memalign allocator 7 64 4 empty).1.memory 2000 (omega arith) (omega arith) (omega arith)
      (omega arith) refl refl (inr (omega arith)) (λ x low high. refl)

block-Headed : Headed 4 7 4096 4128 block.memory
block-Headed =
    Headed-Agree 4 7 4096 4128 (prepare_block 7 4 4096 4128 empty.memory) block.memory (omega arith)
      (λ x low high. sym (
        write_bytes-Outside 4130 (5 ∷ []) (prepare_block 7 4 4096 4128 empty.memory) x
          (inl (omega arith))))
      (prepare_block-Headed 7 4 4096 4128 empty.memory (omega arith) (omega arith) (omega arith)
        (omega arith))

wrap_realloc-Moved_example : Moved 4 8 7 4096 4128 1024 block grown
wrap_realloc-Moved_example =
    wrap_realloc-Moved allocator 7 4 7 4096 4128 7 1024 block block.memory (omega arith)
      (omega arith) (omega arith) (omega arith) block-Headed refl (λ x low high. refl)
      (inr (omega arith)) (λ m x low high. refl)

wrap_calloc-Zeroed_example :
    ((2 ^ 64 ≤ 3 * 4) × (wrap_calloc allocator 7 3 4 empty ≡ (none, empty)))
    ⊎ ((3 * 4 < 2 ^ 64)
        × Zeroed
            (3 * 4)
            (wrap_malloc allocator 7 (3 * 4) empty)
            (wrap_calloc allocator 7 3 4 empty))
wrap_calloc-Zeroed_example = wrap_calloc-Zeroed allocator 7 3 4 empty
