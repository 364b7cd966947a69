-- ===== src/HeapGuard/Memory.antt =====
-- The memory as a function from addresses to bytes, and little-endian words in it.
use flutter_libnx.Prelude.{
  ℕ, zero, suc, ◌+◌, ◌^◌, ◌≤◌, ◌<◌, ◌≡◌, refl, ap, ◌∙◌, ◌⊎◌, true, false, List, [], ◌∷◌, arith,
  if◌then◌else◌, ◌==◌, length, word_bytes, from_bytes,
}

abbrev pub Memory : Type 0
Memory = ℕ → ℕ

abbrev pub write_bytes : ℕ → List ℕ → Memory → Memory
write_bytes a [] mem = mem
write_bytes a (b ∷ bs) mem = λ x. if x == a then b else write_bytes (a + 1) bs mem x

abbrev pub read_bytes : ℕ → ℕ → Memory → List ℕ
read_bytes zero a mem = []
read_bytes (suc n) a mem = mem a ∷ read_bytes n (a + 1) mem

-- A word of `n` bytes at `a`.
unfoldable pub load : ℕ → ℕ → Memory → ℕ
load n a mem = from_bytes (read_bytes n a mem)

unfoldable pub store : ℕ → ℕ → ℕ → Memory → Memory
store n a v mem = write_bytes a (word_bytes n 0 v) mem

-- `x` is none of the `n` addresses from `a` on.
abbrev pub Outside : ℕ → ℕ → ℕ → Type 0
Outside a n x = (x < a) ⊎ (a + n ≤ x)

pub write_bytes-Outside :
    (a : ℕ) (bs : List ℕ) (mem : Memory) (x : ℕ)
    → Outside a (length bs) x
    → write_bytes a bs mem x ≡ mem x
write_bytes-Outside a [] mem x h = refl
write_bytes-Outside a (b ∷ bs) mem x h =
    let ne : (x == a) ≡ false = ground arith in
    let rest : Outside (a + 1) (length bs) x = omega arith in
    rw ne (write_bytes-Outside (a + 1) bs mem x rest)

pub read_bytes_agree :
    (n a : ℕ) (mem mem' : Memory)
    → ((x : ℕ) → a ≤ x → x < a + n → mem x ≡ mem' x)
    → read_bytes n a mem ≡ read_bytes n a mem'
read_bytes_agree zero a mem mem' same = refl
read_bytes_agree (suc n) a mem mem' same = rw (
  same a (omega arith) (omega arith),
  read_bytes_agree n (a + 1) mem mem' (λ x l u. same x (omega arith) (omega arith)),
)

pub read_bytes-write_bytes :
    (a : ℕ) (bs : List ℕ) (mem : Memory) → read_bytes (length bs) a (write_bytes a bs mem) ≡ bs
read_bytes-write_bytes a [] mem = refl
read_bytes-write_bytes a (b ∷ bs) mem =
    let here : (a == a) ≡ true = ground arith in
    let behind : (x : ℕ)
        → a + 1 ≤ x
        → x < a + 1 + length bs
        → write_bytes a (b ∷ bs) mem x ≡ write_bytes (a + 1) bs mem x =
      λ x l u. let ne : (x == a) ≡ false = ground arith in rw ne in
    rw (
      here,
      read_bytes_agree (length bs) (a + 1) (write_bytes a (b ∷ bs) mem) (write_bytes (a + 1) bs mem)
          behind,
      read_bytes-write_bytes (a + 1) bs mem,
    )

length-word_bytes : (n i w : ℕ) → length (word_bytes n i w) ≡ n
length-word_bytes zero i w = refl
length-word_bytes (suc n) i w = omega (arith, length-word_bytes n (i + 1) w)

pub store-Outside : (n a v : ℕ) (mem : Memory) (x : ℕ) → Outside a n x → store n a v mem x ≡ mem x
unfolding store
store-Outside n a v mem x h =
    write_bytes-Outside a (word_bytes n 0 v) mem x (rw (length-word_bytes n 0 v) h)

pub load-store_other :
    (n a k b v : ℕ) (mem : Memory)
    → (b + k ≤ a) ⊎ (a + n ≤ b)
    → load n a (store k b v mem) ≡ load n a mem
unfolding load
load-store_other n a k b v mem apart =
    rw (
      read_bytes_agree n a (store k b v mem) mem (λ x l u. store-Outside k b v mem x (omega arith)))

from_bytes-word32 : (w : ℕ) → w < 2 ^ 32 → from_bytes (word_bytes 4 0 w) ≡ w
from_bytes-word32 w h = omega arith

from_bytes-word64 : (w : ℕ) → w < 2 ^ 64 → from_bytes (word_bytes 8 0 w) ≡ w
from_bytes-word64 w h = omega arith

pub load-store32 : (a v : ℕ) (mem : Memory) → v < 2 ^ 32 → load 4 a (store 4 a v mem) ≡ v
unfolding load store
load-store32 a v mem h =
    ap from_bytes (read_bytes-write_bytes a (word_bytes 4 0 v) mem) ∙ from_bytes-word32 v h

pub load-store64 : (a v : ℕ) (mem : Memory) → v < 2 ^ 64 → load 8 a (store 8 a v mem) ≡ v
unfolding load store
load-store64 a v mem h =
    ap from_bytes (read_bytes-write_bytes a (word_bytes 8 0 v) mem) ∙ from_bytes-word64 v h

pub load-agree :
    (n a : ℕ) (mem mem' : Memory)
    → ((x : ℕ) → a ≤ x → x < a + n → mem x ≡ mem' x)
    → load n a mem ≡ load n a mem'
unfolding load
load-agree n a mem mem' same = ap from_bytes (read_bytes_agree n a mem mem' same)
