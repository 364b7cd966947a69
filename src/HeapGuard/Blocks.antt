-- ===== src/HeapGuard/Blocks.antt =====
-- A block with its header and its guard, and what free does with it.
use flutter_libnx.Prelude.{
  ℕ, zero, suc, ◌+◌, ◌-◌, ◌^◌, ◌≤◌, ◌<◌, ◌≡◌, refl, ◌≢◌, ◌⊎◌, inl, inr, true, false, some, List, [],
  ◌∷◌, ◌++◌, arith, Bool-cases, ◌==◌, replicate, append_assoc, ap, ◌∙◌, sym,
}
use flutter_libnx.HeapGuard.Memory.{
  Memory, write_bytes, read_bytes, load, store, Outside, write_bytes-Outside, store-Outside,
  load-agree, load-store_other, load-store32, load-store64,
}
use flutter_libnx.HeapGuard.Wrappers.{
  Allocator, When, on_free, Event, overflow, freed, World, guard_pattern, magic_live, magic_freed,
  size_at, caller_at, raw_at, magic_at, intact_from, guard_intact, check_guard, prepare_block,
  free_live, wrap_free,
}

-- The header before `user` says this of the block.
pub record Headed (size caller raw user : ℕ) (mem : Memory) : Type 0 where
  pub has_size : load 8 (size_at user) mem ≡ size
  pub has_caller : load 8 (caller_at user) mem ≡ caller
  pub is_live : load 4 (magic_at user) mem ≡ magic_live
  pub has_raw : load 8 (raw_at user) mem ≡ raw

abbrev pub Guarded : ℕ → ℕ → Memory → Type 0
Guarded n a mem = (i : ℕ) → i < n → mem (a + i) ≡ guard_pattern

-- A byte of the guard was changed.
abbrev pub Damaged : ℕ → ℕ → Memory → Type 0
Damaged n a mem = (i : ℕ) × (i < n) × (mem (a + i) ≢ guard_pattern)

-- The memories agree on the `n` addresses from `a` on.
abbrev pub Agree : ℕ → ℕ → Memory → Memory → Type 0
Agree n a mem mem' = (x : ℕ) → a ≤ x → x < a + n → mem x ≡ mem' x

pub load-Agree :
    (k b n a : ℕ) (mem mem' : Memory)
    → Agree n a mem mem'
    → a ≤ b
    → b + k ≤ a + n
    → load k b mem ≡ load k b mem'
load-Agree k b n a mem mem' same low high =
    load-agree k b mem mem' (λ x l u. same x (omega arith) (omega arith))

pub Headed-Agree :
    (size caller raw user : ℕ) (mem mem' : Memory)
    → 32 ≤ user
    → Agree 32 (user - 32) mem mem'
    → Headed size caller raw user mem
    → Headed size caller raw user mem'
Headed-Agree size caller raw user mem mem' far same h = record {
  has_size =
      sym (load-Agree 8 (size_at user) 32 (user - 32) mem mem' same (omega arith) (omega arith))
      ∙ h.has_size;
  has_caller =
      sym (load-Agree 8 (caller_at user) 32 (user - 32) mem mem' same (omega arith) (omega arith))
      ∙ h.has_caller;
  is_live =
      sym (load-Agree 4 (magic_at user) 32 (user - 32) mem mem' same (omega arith) (omega arith))
      ∙ h.is_live;
  has_raw =
      sym (load-Agree 8 (raw_at user) 32 (user - 32) mem mem' same (omega arith) (omega arith))
      ∙ h.has_raw;
}

Guarded-next :
    (n a : ℕ) (mem : Memory) → mem a ≡ guard_pattern → Guarded n (a + 1) mem → Guarded (suc n) a mem
Guarded-next n a mem good g zero h = ap mem (omega arith) ∙ good
Guarded-next n a mem good g (suc i) h = ap mem (omega arith) ∙ g i (omega arith)

intact_from_lem :
    (n a : ℕ) (mem : Memory)
    → (Guarded n a mem × (intact_from n a mem ≡ true))
      ⊎ (Damaged n a mem × (intact_from n a mem ≡ false))
unfolding intact_from
intact_from_lem zero a mem = inl ((λ i h. absurd (omega arith)), refl)
intact_from_lem (suc n) a mem = elim (Bool-cases (mem a == guard_pattern)) [
  | inr bad ↦
      let same : mem (a + 0) ≡ mem a = ap mem (omega arith) in
      inr ((0, omega arith, λ e. ground (arith, sym same ∙ e)), rw bad refl)
  | inl good ↦
      let here : mem a ≡ guard_pattern = ground arith in
      elim (intact_from_lem n (a + 1) mem) [
        | inl (g, e) ↦ inl (Guarded-next n a mem here g, rw good e)
        | inr ((i, small, ne), e) ↦
            inr ((i + 1, omega arith, λ e'. ne (ap mem (omega arith) ∙ e')), rw good e)
      ]
]

abbrev header_stored : ℕ → ℕ → ℕ → ℕ → Memory → Memory
header_stored caller size raw user mem = store 8 (raw_at user) raw (
    store 4 (magic_at user) magic_live
      (store 8 (caller_at user) caller (store 8 (size_at user) size mem)))

-- Nothing is written outside of the header, the data and the guard.
pub prepare_block-Outside :
    (caller size raw user : ℕ) (mem : Memory) (x : ℕ)
    → 32 ≤ user
    → Outside (user - 32) (32 + size + 16) x
    → prepare_block caller size raw user mem x ≡ mem x
unfolding prepare_block
prepare_block-Outside caller size raw user mem x far out =
    let m1 = store 8 (size_at user) size mem in
    let m2 = store 8 (caller_at user) caller m1 in
    let m3 = store 4 (magic_at user) magic_live m2 in
    write_bytes-Outside (user + size) (replicate 16 90) (store 8 (raw_at user) raw m3) x
      (omega arith)
    ∙ store-Outside 8 (raw_at user) raw m3 x (omega arith)
    ∙ store-Outside 4 (magic_at user) magic_live m2 x (omega arith)
    ∙ store-Outside 8 (caller_at user) caller m1 x (omega arith)
    ∙ store-Outside 8 (size_at user) size mem x (omega arith)

header_stored-Headed :
    (caller size raw user : ℕ) (mem : Memory)
    → 32 ≤ user
    → caller < 2 ^ 64
    → size < 2 ^ 64
    → raw < 2 ^ 64
    → Headed size caller raw user (header_stored caller size raw user mem)
header_stored-Headed caller size raw user mem far hc hs hr =
    let m1 = store 8 (size_at user) size mem in
    let m2 = store 8 (caller_at user) caller m1 in
    let m3 = store 4 (magic_at user) magic_live m2 in
    record {
      has_size =
          load-store_other 8 (size_at user) 8 (raw_at user) raw m3 (omega arith)
          ∙ load-store_other 8 (size_at user) 4 (magic_at user) magic_live m2 (omega arith)
          ∙ load-store_other 8 (size_at user) 8 (caller_at user) caller m1 (omega arith)
          ∙ load-store64 (size_at user) size mem hs;
      has_caller =
          load-store_other 8 (caller_at user) 8 (raw_at user) raw m3 (omega arith)
          ∙ load-store_other 8 (caller_at user) 4 (magic_at user) magic_live m2 (omega arith)
          ∙ load-store64 (caller_at user) caller m1 hc;
      is_live =
          load-store_other 4 (magic_at user) 8 (raw_at user) raw m3 (omega arith)
          ∙ load-store32 (magic_at user) magic_live m2 (omega arith);
      has_raw = load-store64 (raw_at user) raw m3 hr;
    }

pub prepare_block-Headed :
    (caller size raw user : ℕ) (mem : Memory)
    → 32 ≤ user
    → caller < 2 ^ 64
    → size < 2 ^ 64
    → raw < 2 ^ 64
    → Headed size caller raw user (prepare_block caller size raw user mem)
unfolding prepare_block
prepare_block-Headed caller size raw user mem far hc hs hr =
    Headed-Agree size caller raw user (header_stored caller size raw user mem)
      (prepare_block caller size raw user mem) far
      (λ x low high. sym (
        write_bytes-Outside (user + size) (replicate 16 90) (header_stored caller size raw user mem)
          x (omega arith)))
      (header_stored-Headed caller size raw user mem far hc hs hr)

pub write_bytes-replicate :
    (n a v i : ℕ) (mem : Memory) → i < n → write_bytes a (replicate n v) mem (a + i) ≡ v
write_bytes-replicate zero a v i mem h = absurd (omega arith)
write_bytes-replicate (suc n) a v zero mem h =
    let here : (a + 0 == a) ≡ true = ground arith in rw here
write_bytes-replicate (suc n) a v (suc i) mem h =
    let later : (a + suc i == a) ≡ false = ground arith in
    let step : a + suc i ≡ a + 1 + i = omega arith in
    rw (later, step) (write_bytes-replicate n (a + 1) v i mem (omega arith))

pub prepare_block-Guarded :
    (caller size raw user : ℕ) (mem : Memory)
    → Guarded 16 (user + size) (prepare_block caller size raw user mem)
unfolding prepare_block
prepare_block-Guarded caller size raw user mem i h =
    write_bytes-replicate 16 (user + size) 90 i (header_stored caller size raw user mem) h

-- What is left of a block that was freed over `mem`: its start went to the allocator, the header was
-- marked, and a report was made if and only if the guard was damaged.
abbrev pub Freed : Allocator → List Event → ℕ → ℕ → ℕ → ℕ → Memory → World → Type 0
Freed A events size caller raw user mem after =
    (after.memory ≡ A.free raw (store 4 (magic_at user) magic_freed mem))
    × ((Guarded 16 (user + size) mem × (after.events ≡ events ++ (freed raw ∷ [])))
        ⊎ (Damaged 16 (user + size) mem
            × (after.events
                ≡ events
                  ++ (overflow on_free user size caller (read_bytes 8 (user + size) mem)
                      ∷ freed raw
                      ∷ []))))

pub check_guard_lem :
    (when : When) (size caller raw user : ℕ) (w : World)
    → Headed size caller raw user w.memory
    → (Guarded 16 (user + size) w.memory × (check_guard when user w ≡ w))
      ⊎ (Damaged 16 (user + size) w.memory
          × (check_guard when user w ≡ record w {
            events =
                w.events
                ++ (overflow when user size caller (read_bytes 8 (user + size) w.memory) ∷ []);
          }))
unfolding check_guard guard_intact
check_guard_lem when size caller raw user w h = elim (intact_from_lem 16 (user + size) w.memory) [
  | inl (g, e) ↦ inl (g, rw (h.has_size, e) refl)
  | inr (d, e) ↦ inr (d, rw (h.has_size, e, h.has_caller) refl)
]

module _ (A : Allocator) (size caller raw user : ℕ) (mem : Memory) (events : List Event) where
  abbrev world : World
  world = record { memory = mem; events = events }

  free_live-Freed :
      32 ≤ user
      → Headed size caller raw user mem
      → Freed A events size caller raw user mem (free_live A user world)
  unfolding free_live
  free_live-Freed far h =
      let start : load 8 (raw_at user) (store 4 (magic_at user) magic_freed mem) ≡ raw =
        load-store_other 8 (raw_at user) 4 (magic_at user) magic_freed mem (omega arith)
        ∙ h.has_raw in
      elim (check_guard_lem on_free size caller raw user world h) [
        | inl (g, e) ↦ rw (e, start) (refl, inl (g, refl))
        | inr (d, e) ↦ rw (e, start) (refl, inr (d, append_assoc events _ _))
      ]

  pub wrap_free-Freed :
      32 ≤ user
      → Headed size caller raw user mem
      → Freed A events size caller raw user mem (wrap_free A (some user) world)
  unfolding wrap_free
  wrap_free-Freed far h = rw (h.is_live) (free_live-Freed far h)
