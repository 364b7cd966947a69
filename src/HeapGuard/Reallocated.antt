-- ===== src/HeapGuard/Reallocated.antt =====
-- realloc, from the check of the old block to its end.
use flutter_libnx.Prelude.{
  ℕ, suc, ◌+◌, ◌-◌, ◌^◌, ◌≤◌, ◌<◌, ◌≡◌, refl, sym, ap, ◌∙◌, inl, inr, Option, some, List, [], ◌∷◌,
  ◌++◌, arith, ltb, min, Bool-cases,
}
use flutter_libnx.HeapGuard.Memory.{Memory}
use flutter_libnx.HeapGuard.Wrappers.{
  Allocator, on_realloc, Event, freed, World, check_guard, prepare_block, move_block, wrap_realloc,
}
use flutter_libnx.HeapGuard.Blocks.{
  Headed, Agree, Headed-Agree, prepare_block-Headed, prepare_block-Guarded, prepare_block-Outside,
}
use flutter_libnx.HeapGuard.Freeing.{malloc_lem}
use flutter_libnx.HeapGuard.Resizing.{
  Apart, Prepared, kept_size, check_guard-memory, move_block_lem,
}
use mathlib.Core.Path.{subst}

-- The new block at `raw'` is prepared, its bytes are those of the old one of size `old`, as far as both
-- reach, and the old was freed last.
abbrev pub Moved : ℕ → ℕ → ℕ → ℕ → ℕ → ℕ → World → Option ℕ × World → Type 0
Moved old size caller raw user raw' w (p, moved) =
    (p ≡ some (raw' + 32))
    × ((i : ℕ) → i < min old size → moved.memory (raw' + 32 + i) ≡ w.memory (user + i))
    × Prepared size caller raw' moved.memory
    × ((before : List Event) × (moved.events ≡ before ++ (freed raw ∷ [])))

kept_size-min : (i old size : ℕ) → i < min old size → i < kept_size old size
kept_size-min i old size h = elim (Bool-cases (ltb old size)) [
  | inl e ↦ rw e (omega arith)
  | inr e ↦ rw e (omega arith)
]

module _ (A : Allocator) (caller old old_caller raw user size raw' : ℕ) (w : World) (mem : Memory)
    (far : 32 ≤ user) (small : 32 + suc size + 16 < 2 ^ 64) (hc : caller < 2 ^ 64)
    (hr : raw' < 2 ^ 64) (block : Headed old old_caller raw user w.memory)
    (given : A.malloc (32 + suc size + 16) w.memory ≡ (some raw', mem))
    (kept : Agree (32 + old + 16) (user - 32) w.memory mem)
    (apart : Apart (32 + old + 16) (user - 32) (32 + suc size + 16) raw')
    (leaves : (m : Memory) → Agree (32 + suc size + 16) raw' m (A.free raw m)) where
  abbrev prepared : Memory
  prepared = prepare_block caller (suc size) raw' (raw' + 32) mem

  prepared-kept : Agree (32 + old + 16) (user - 32) w.memory prepared
  prepared-kept x low high =
      kept x low high
      ∙ sym (
          prepare_block-Outside caller (suc size) raw' (raw' + 32) mem x (omega arith)
            (omega arith))

  prepared-Headed : Headed old old_caller raw user prepared
  prepared-Headed =
      Headed-Agree old old_caller raw user w.memory prepared far
        (λ x low high. prepared-kept x (omega arith) (omega arith)) block

  -- The world after the check of the guard and malloc.
  abbrev served : World
  served = record { memory = prepared; events = (check_guard on_realloc user w).events }

  wrap_realloc-malloc :
      wrap_realloc A caller (some user) (suc size) w
      ≡ move_block A user (suc size) (some (raw' + 32), served)
  unfolding wrap_realloc
  wrap_realloc-malloc =
      let checked : (check_guard on_realloc user w).memory ≡ w.memory =
        check_guard-memory on_realloc old old_caller raw user w block in
      rw (block.is_live) (
        ap (move_block A user (suc size)) (
          malloc_lem A caller (suc size) raw' (check_guard on_realloc user w) mem small
            (rw checked given)))

  move_block-Moved :
      Moved old
        (suc size)
        caller
        raw
        user
        raw'
        w
        (move_block A user (suc size) (some (raw' + 32), served))
  unfolding move_block
  move_block-Moved =
      let (bytes, whole, last) =
        move_block_lem A old old_caller raw user (suc size) caller raw' prepared served.events far
          apart leaves prepared-Headed
          (
            prepare_block-Headed caller (suc size) raw' (raw' + 32) mem (omega arith) hc
                (omega arith) hr,
            prepare_block-Guarded caller (suc size) raw' (raw' + 32) mem,
          ) in
      rw (prepared-Headed.has_size) (
        refl,
        λ i below.
            bytes i (kept_size-min i old (suc size) below)
            ∙ sym (prepared-kept (user + i) (omega arith) (omega arith)),
        whole,
        last,
      )

-- realloc of a live block, of whatever size, to a size other than 0 whose block does not reach 2^64,
-- over an allocator that gives a block apart from the old one and leaves the old one as it is, and
-- whose free leaves the new one as it is: the program gets the address behind the new header, every
-- byte of the data that both sizes hold is there, header and guard are whole, and the old block was given
-- back last, by the address that the allocator had given.
pub wrap_realloc-Moved :
    (A : Allocator) (caller old old_caller raw user size raw' : ℕ) (w : World) (mem : Memory)
    → 32 ≤ user
    → 32 + suc size + 16 < 2 ^ 64
    → caller < 2 ^ 64
    → raw' < 2 ^ 64
    → Headed old old_caller raw user w.memory
    → A.malloc (32 + suc size + 16) w.memory ≡ (some raw', mem)
    → Agree (32 + old + 16) (user - 32) w.memory mem
    → Apart (32 + old + 16) (user - 32) (32 + suc size + 16) raw'
    → ((m : Memory) → Agree (32 + suc size + 16) raw' m (A.free raw m))
    → Moved old (suc size) caller raw user raw' w (wrap_realloc A caller (some user) (suc size) w)
wrap_realloc-Moved A caller old oc raw user size raw' w mem far s hc hr block given k a l =
    subst (Moved old (suc size) caller raw user raw' w)
      (sym (
        wrap_realloc-malloc A caller old oc raw user size raw' w mem far s hc hr block given k a l))
      (move_block-Moved A caller old oc raw user size raw' w mem far s hc hr block given k a l)
