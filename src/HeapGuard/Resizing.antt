-- ===== src/HeapGuard/Resizing.antt =====
-- realloc moves a block, and calloc checks the product of its sizes.
use flutter_libnx.Prelude.{
  ℕ, zero, suc, ◌+◌, ◌-◌, ◌≤◌, ◌<◌, ◌≡◌, refl, sym, ap, ◌∙◌, ◌⊎◌, inl, inr, true, false, some, List,
  [], ◌∷◌, ◌++◌, arith, ltb, ◌==◌, if◌then◌else◌, Bool-cases, length, append_assoc,
}
use flutter_libnx.HeapGuard.Memory.{
  Memory, write_bytes, read_bytes, store, Outside, write_bytes-Outside, store-Outside,
}
use flutter_libnx.HeapGuard.Wrappers.{
  Allocator, When, Event, freed, World, magic_at, magic_freed, check_guard, wrap_free,
}
use flutter_libnx.HeapGuard.Blocks.{
  Headed, Guarded, Agree, Headed-Agree, Freed, wrap_free-Freed, check_guard_lem,
}

length-read_bytes : (n a : ℕ) (mem : Memory) → length (read_bytes n a mem) ≡ n
length-read_bytes zero a mem = refl
length-read_bytes (suc n) a mem = ap suc (length-read_bytes n (a + 1) mem)

write_bytes-read_bytes :
    (n to from i : ℕ) (mem source : Memory)
    → i < n
    → write_bytes to (read_bytes n from source) mem (to + i) ≡ source (from + i)
write_bytes-read_bytes zero to from i mem source h = absurd (omega arith)
write_bytes-read_bytes (suc n) to from zero mem source h =
    let here : (to + 0 == to) ≡ true = ground arith in rw here (ap source (omega arith))
write_bytes-read_bytes (suc n) to from (suc i) mem source h =
    let later : (to + suc i == to) ≡ false = ground arith in
    let step : to + suc i ≡ to + 1 + i = omega arith in
    rw (later, step)
      (write_bytes-read_bytes n (to + 1) (from + 1) i mem source (omega arith)
        ∙ ap source (omega arith))

-- `k` bytes from `a` on and `n` from `b` on do not overlap.
abbrev pub Apart : ℕ → ℕ → ℕ → ℕ → Type 0
Apart k a n b = (a + k ≤ b) ⊎ (b + n ≤ a)

Freed-leaves :
    (A : Allocator) (events : List Event) (size caller raw user : ℕ) (mem : Memory) (after : World)
    → Freed A events size caller raw user mem after
    → (before : List Event) × (after.events ≡ before ++ (freed raw ∷ []))
Freed-leaves A events size caller raw user mem after (e, inl (g, es)) = (events, es)
Freed-leaves A events size caller raw user mem after (e, inr (d, es)) =
    (events ++ (_ ∷ []), es ∙ sym (append_assoc events _ _))

pub check_guard-memory :
    (when : When) (size caller raw user : ℕ) (w : World)
    → Headed size caller raw user w.memory
    → (check_guard when user w).memory ≡ w.memory
check_guard-memory when size caller raw user w h =
    elim (check_guard_lem when size caller raw user w h) [
      | inl (g, e) ↦ ap (λ (v : World). v.memory) e
      | inr (d, e) ↦ ap (λ (v : World). v.memory) e
    ]

abbrev pub kept_size : ℕ → ℕ → ℕ
kept_size old size = if ltb old size then old else size

kept_size_le : (old size : ℕ) → (kept_size old size ≤ old) × (kept_size old size ≤ size)
kept_size_le old size = elim (Bool-cases (ltb old size)) [
  | inl less ↦ rw less (omega arith, ground arith)
  | inr more ↦ rw more (ground arith, omega arith)
]

-- The block of `size` at `raw` is prepared in memory.
abbrev pub Prepared : ℕ → ℕ → ℕ → Memory → Type 0
Prepared size caller raw mem =
    Headed size caller raw (raw + 32) mem × Guarded 16 (raw + 32 + size) mem

Prepared-Agree :
    (size caller raw : ℕ) (mem mem' : Memory)
    → ((x : ℕ)
        → raw ≤ x
        → x < raw + (32 + size + 16)
        → x < raw + 32 ⊎ (raw + 32 + size ≤ x)
        → mem x ≡ mem' x)
    → Prepared size caller raw mem
    → Prepared size caller raw mem'
Prepared-Agree size caller raw mem mem' same (h, g) = (
  Headed-Agree size caller raw (raw + 32) mem mem' (omega arith)
      (λ x low high. same x (omega arith) (omega arith) (omega arith)) h,
  λ i lt. sym (same (raw + 32 + size + i) (omega arith) (omega arith) (omega arith)) ∙ g i lt,
)

module _ (A : Allocator) (old old_caller raw user size caller raw' : ℕ) (mem : Memory)
    (events : List Event) (far : 32 ≤ user)
    (apart : Apart (32 + old + 16) (user - 32) (32 + size + 16) raw')
    (leaves : (m : Memory) → Agree (32 + size + 16) raw' m (A.free raw m))
    (block : Headed old old_caller raw user mem) where
  abbrev copied : Memory
  copied = write_bytes (raw' + 32) (read_bytes (kept_size old size) user mem) mem

  abbrev given_back : World
  given_back = wrap_free A (some user) (record { memory = copied; events = events })

  copied-Outside : (x : ℕ) → Outside (raw' + 32) size x → copied x ≡ mem x
  copied-Outside x out =
      write_bytes-Outside (raw' + 32) (read_bytes (kept_size old size) user mem) mem x (
        rw (length-read_bytes (kept_size old size) user mem)
          (let (l, s) = kept_size_le old size in omega arith))

  given_back-Freed : Freed A events old old_caller raw user copied given_back
  given_back-Freed = wrap_free-Freed A old old_caller raw user copied events far (
      Headed-Agree old old_caller raw user mem copied far
        (λ x low high. sym (copied-Outside x (omega arith))) block)

  -- The new block is not touched by the end of the old one.
  given_back-Agree : Agree (32 + size + 16) raw' copied given_back.memory
  given_back-Agree x low high =
      let marked = store 4 (magic_at user) magic_freed copied in
      sym (store-Outside 4 (magic_at user) magic_freed copied x (omega arith))
      ∙ leaves marked x low high
      ∙ sym (ap (λ (m : Memory). m x) given_back-Freed.0)

  pub move_block_lem :
      Prepared size caller raw' mem
      → ((i : ℕ) → i < kept_size old size → given_back.memory (raw' + 32 + i) ≡ mem (user + i))
        × Prepared size caller raw' given_back.memory
        × ((before : List Event) × (given_back.events ≡ before ++ (freed raw ∷ [])))
  move_block_lem new =
      let (l, s) = kept_size_le old size in
      (
        λ i small.
            sym (given_back-Agree (raw' + 32 + i) (omega arith) (omega arith))
            ∙ write_bytes-read_bytes (kept_size old size) (raw' + 32) user i mem mem small,
        Prepared-Agree size caller raw' mem given_back.memory
            (λ x low high out. sym (copied-Outside x (omega arith)) ∙ given_back-Agree x low high)
            new,
        Freed-leaves A events old old_caller raw user copied given_back given_back-Freed,
      )
