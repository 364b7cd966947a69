-- ===== src/VirtualMemory/Runs.antt =====
-- Runs of the VM: blocks are allocated, written and destroyed.
use flutter_libnx.Prelude.{
  ℕ, ◌+◌, ◌%◌, ◌<◌, ◌≡◌, ◌≢◌, refl, sym, inl, inr, Bool, true, some, List, [], ◌∷◌, if-both,
  Bool-cases, Option-cases, ◌==◌, replicate, All,
}
use mathlib.Core.List.{Mem, mem-cons_self, mem-append_right}
use flutter_libnx.HeapGuard.Memory.{write_bytes, read_bytes, Outside}
use flutter_libnx.VirtualMemory.Guards.{
  Allocator, LiveBlock, Broken, Vm, guard_size, guard_pattern, sweep_every, guard_intact,
  check_block, find_block, drop_block, add_block, guard_write, forget_block, allocate_aligned,
  destroy,
}
use flutter_libnx.VirtualMemory.Quiet.{
  IsIntact, guard_loop-changed, check_block-quiet, sweep-quiet, agree-IsIntact, Apart, Apart-agree,
  Outside-agree, replicate-IsIntact,
}

find_block-All :
    (P : LiveBlock → Type 0) (a : ℕ) (bs : List LiveBlock) (b : LiveBlock)
    → find_block a bs ≡ some b
    → All P bs
    → P b × All P (drop_block a bs)
unfolding find_block drop_block
find_block-All P a [] b e h = cc
find_block-All P a (c ∷ bs) b e (h, hs) = elim (Bool-cases (c.address == a)) [
  | inl here ↦
      let q : some c ≡ some b = rw here at e in
      let same : c ≡ b = cc in rw here (rw (sym same) h, hs)
  | inr there ↦
      let (found, rest) = find_block-All P a bs b (rw there at e) hs in rw there (found, (h, rest))
]

module _ {A : Allocator} where
  -- All guards are whole, and nothing was reported.
  abbrev pub IsQuiet : Vm A → Type 0
  IsQuiet v = All (IsIntact v.memory) v.live × (v.reports ≡ [])

  add_block-IsQuiet :
      (b : LiveBlock) (v : Vm A) → IsIntact v.memory b → IsQuiet v → IsQuiet (add_block A b v)
  unfolding add_block
  add_block-IsQuiet b v whole (all, none_yet) =
      let live = b ∷ v.live in
      let swept = sweep-quiet live v.memory (whole, all) in
      (
        (whole, all),
        if-both (λ (xs : List Broken). xs ≡ []) ((v.alloc_count + 1) % sweep_every == 0) _ _
            (rw (none_yet, swept) refl) none_yet,
      )

  guard_write-IsQuiet :
      (a size : ℕ) (name : List ℕ) (v : Vm A)
      → All (Apart (a + size)) v.live
      → IsQuiet v
      → IsQuiet (guard_write A a size name v)
  unfolding guard_write
  guard_write-IsQuiet a size name v apart (all, none_yet) =
      let (ok, h) = A.malloc_entry v.heap in
      let mem = write_bytes (a + size) (replicate guard_size guard_pattern) v.memory in
      let v' : Vm A = record v { memory = mem; heap = h } in
      let old =
        agree-IsIntact v.memory mem v.live (Apart-agree (a + size) v.memory v.live apart) all in
      let whole = replicate-IsIntact guard_size (a + size) v.memory in
      if-both IsQuiet ok _ _
        (add_block-IsQuiet (record { address = a; size = size; name = name }) v' whole
          (old, none_yet))
        (old, none_yet)

  forget_block-IsQuiet : (a : ℕ) (v : Vm A) → IsQuiet v → IsQuiet (forget_block A a v)
  unfolding forget_block
  forget_block-IsQuiet a v (all, none_yet) = elim (Option-cases (find_block a v.live)) [
    | inl e ↦ rw (e, forget_block) (all, none_yet)
    | inr (b, e) ↦
        let (whole, rest) = find_block-All (IsIntact v.memory) a v.live b e all in
        let quiet = check_block-quiet b v.memory whole in
        rw (e, forget_block, none_yet, quiet) (rest, refl)
  ]

  -- A block is allocated, where the allocator keeps its guard apart from those of the live blocks; a byte
  -- is written outside of every guard; or a block is destroyed.
  pub data Turn : Vm A → Vm A → Type 0 where
    allocated :
        {v : Vm A} (size alignment : ℕ) (is_executable : Bool) (name : List ℕ)
        → ((a : ℕ)
            → (A.memalign alignment (size + guard_size) v.heap).0 ≡ some a
            → All (Apart (a + size)) v.live)
        → Turn v (allocate_aligned A size alignment is_executable name v).1
    written :
        {v : Vm A} (x byte : ℕ)
        → All (λ b. Outside (b.address + b.size) guard_size x) v.live
        → Turn v (record v { memory = write_bytes x (byte ∷ []) v.memory })
    destroyed : {v : Vm A} (owns_region : Bool) (a : ℕ) → Turn v (destroy A owns_region a v)

  pub data Turns (v : Vm A) : Vm A → Type 0 where
    at_start : Turns v v
    and_then : {t u : Vm A} → Turns v t → Turn t u → Turns v u

  Turn-IsQuiet : {v u : Vm A} → Turn v u → IsQuiet v → IsQuiet u
  unfolding allocate_aligned destroy
  Turn-IsQuiet (allocated {v} size alignment is_executable name apart) h =
      elim (Option-cases (A.memalign alignment (size + guard_size) v.heap).0) [
        | inl e ↦ rw (e, allocate_aligned) h
        | inr (a, e) ↦
            let v' : Vm A = record v {
              heap = (A.memalign alignment (size + guard_size) v.heap).1;
            } in
            rw (e, allocate_aligned) (guard_write-IsQuiet a size name v' (apart a e) h)
      ]
  Turn-IsQuiet (written {v} x byte outside) (all, none_yet) = (
    agree-IsIntact v.memory (write_bytes x (byte ∷ []) v.memory) v.live
        (Outside-agree x byte v.memory v.live outside) all,
    none_yet,
  )
  Turn-IsQuiet (destroyed {v} owns_region a) h =
      if-both IsQuiet owns_region _ _ (forget_block-IsQuiet a v h) h

  -- However blocks are allocated, written and destroyed: as long as no write touches a guard, no block
  -- is ever reported, by a sweep or when it is freed.
  pub Turns-IsQuiet : {v u : Vm A} → Turns v u → IsQuiet v → IsQuiet u
  Turns-IsQuiet at_start h = h
  Turns-IsQuiet (and_then before last) h = Turn-IsQuiet last (Turns-IsQuiet before h)

  -- A guard with any byte changed, in whatever way, is reported when its block is destroyed.
  pub destroy_reports :
      (a i : ℕ) (b : LiveBlock) (v : Vm A)
      → find_block a v.live ≡ some b
      → i < guard_size
      → v.memory (b.address + b.size + i) ≢ guard_pattern
      → Mem
          (record { block = b; guard = read_bytes 8 (b.address + b.size) v.memory })
          (destroy A true a v).reports
  unfolding destroy forget_block check_block guard_intact
  destroy_reports a i b v found below changed =
      let broken = guard_loop-changed guard_size (b.address + b.size) i v.memory below changed in
      rw (found, forget_block, broken) (mem-append_right v.reports mem-cons_self)
