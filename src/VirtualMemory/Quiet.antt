-- ===== src/VirtualMemory/Quiet.antt =====
-- While no write touches a guard, nothing is reported; a guard that was touched is.
use flutter_libnx.Prelude.{
  ℕ, zero, suc, ◌+◌, ◌≤◌, ◌<◌, ◌≡◌, ◌≢◌, refl, ap, ◌∙◌, ◌⊎◌, Bool, true, false, List, [], ◌∷◌,
  if-both, ◌==◌, replicate, length-replicate, arith, All,
}
use flutter_libnx.HeapGuard.Memory.{Memory, write_bytes, Outside, write_bytes-Outside}
use flutter_libnx.VirtualMemory.Guards.{
  LiveBlock, guard_size, guard_pattern, guard_loop, guard_intact, check_block, sweep,
}

-- The guard of a block holds the pattern.
abbrev pub IsIntact : Memory → LiveBlock → Type 0
IsIntact mem b = (i : ℕ) → i < guard_size → mem (b.address + b.size + i) ≡ guard_pattern

guard_loop-whole :
    (n a : ℕ) (mem : Memory)
    → ((i : ℕ) → i < n → mem (a + i) ≡ guard_pattern)
    → guard_loop n a mem ≡ true
unfolding guard_loop
guard_loop-whole zero a mem h = refl
guard_loop-whole (suc n) a mem h =
    let here : mem a ≡ guard_pattern =
      ap mem (let e : a ≡ a + 0 = omega arith in e) ∙ h 0 (omega arith) in
    let match : (mem a == guard_pattern) ≡ true = ground arith in
    let rest = guard_loop-whole n (a + 1) mem (λ i below.
      ap mem (let e : a + 1 + i ≡ a + (i + 1) = omega arith in e) ∙ h (i + 1) (omega arith)) in
    rw (match, rest) refl

pub guard_loop-changed :
    (n a i : ℕ) (mem : Memory) → i < n → mem (a + i) ≢ guard_pattern → guard_loop n a mem ≡ false
unfolding guard_loop
guard_loop-changed zero a i mem below h = elim below [ ]
guard_loop-changed (suc n) a zero mem below h =
    let ne : mem a ≢ guard_pattern = λ e. h (ap mem (let q : a + 0 ≡ a = omega arith in q) ∙ e) in
    let other : (mem a == guard_pattern) ≡ false = ground arith in rw other refl
guard_loop-changed (suc n) a (suc i) mem below h =
    let rest =
      guard_loop-changed n (a + 1) i mem (omega arith)
        (λ e. h (ap mem (let q : a + suc i ≡ a + 1 + i = omega arith in q) ∙ e)) in
    if-both (λ (b : Bool). b ≡ false) (mem a == guard_pattern) _ _ rest refl

pub check_block-quiet : (b : LiveBlock) (mem : Memory) → IsIntact mem b → check_block b mem ≡ []
unfolding check_block guard_intact
check_block-quiet b mem h = rw (guard_loop-whole guard_size (b.address + b.size) mem h) refl

pub sweep-quiet : (bs : List LiveBlock) (mem : Memory) → All (IsIntact mem) bs → sweep bs mem ≡ []
unfolding sweep
sweep-quiet [] mem h = refl
sweep-quiet (b ∷ bs) mem (h, hs) = rw (check_block-quiet b mem h, sweep-quiet bs mem hs) refl

-- Writes elsewhere leave the guards alone.
pub agree-IsIntact :
    (mem mem' : Memory) (bs : List LiveBlock)
    → All
        (λ b.
          (i : ℕ) → i < guard_size → mem' (b.address + b.size + i) ≡ mem (b.address + b.size + i))
        bs
    → All (IsIntact mem) bs
    → All (IsIntact mem') bs
agree-IsIntact mem mem' [] same h = tt
agree-IsIntact mem mem' (b ∷ bs) (same, later) (h, hs) =
    (λ i below. same i below ∙ h i below, agree-IsIntact mem mem' bs later hs)

-- The guard of a block does not meet the one at `g`.
abbrev pub Apart : ℕ → LiveBlock → Type 0
Apart g b = (g + guard_size ≤ b.address + b.size) ⊎ (b.address + b.size + guard_size ≤ g)

pub Apart-agree :
    (g : ℕ) (mem : Memory) (bs : List LiveBlock)
    → All (Apart g) bs
    → All
        (λ b.
          (i : ℕ)
          → i < guard_size
          → write_bytes g (replicate guard_size guard_pattern) mem (b.address + b.size + i)
            ≡ mem (b.address + b.size + i))
        bs
Apart-agree g mem [] h = tt
Apart-agree g mem (b ∷ bs) (h, hs) = (
  λ i below.
      write_bytes-Outside g (replicate guard_size guard_pattern) mem (b.address + b.size + i)
        (omega (arith, length-replicate guard_size guard_pattern)),
  Apart-agree g mem bs hs,
)

pub Outside-agree :
    (x v : ℕ) (mem : Memory) (bs : List LiveBlock)
    → All (λ b. Outside (b.address + b.size) guard_size x) bs
    → All
        (λ b.
          (i : ℕ)
          → i < guard_size
          → write_bytes x (v ∷ []) mem (b.address + b.size + i) ≡ mem (b.address + b.size + i))
        bs
Outside-agree x v mem [] h = tt
Outside-agree x v mem (b ∷ bs) (h, hs) = (
  λ i below. write_bytes-Outside x (v ∷ []) mem (b.address + b.size + i) (omega arith),
  Outside-agree x v mem bs hs,
)

-- A new guard is whole.
pub replicate-IsIntact :
    (n g : ℕ) (mem : Memory) (i : ℕ)
    → i < n
    → write_bytes g (replicate n guard_pattern) mem (g + i) ≡ guard_pattern
replicate-IsIntact zero g mem i below = elim below [ ]
replicate-IsIntact (suc n) g mem zero below =
    let e : (g + 0 == g) ≡ true = ground arith in rw e refl
replicate-IsIntact (suc n) g mem (suc i) below =
    let e : (g + suc i == g) ≡ false = ground arith in
    let q : g + suc i ≡ g + 1 + i = omega arith in
    rw (e, q) (replicate-IsIntact n (g + 1) mem i (omega arith))
