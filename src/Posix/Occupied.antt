-- ===== src/Posix/Occupied.antt =====
-- A free entry of the table becomes a handle.
use flutter_libnx.Prelude.{ℕ, ◌+◌, ◌<◌, ◌≡◌, ◌≢◌, true, false, List, arith, length, set}
use flutter_libnx.Posix.Files.{BaseFile, VirtualFile, FileState, base_at, occupy}
use flutter_libnx.Posix.Counted.{
  IsCounted, IsWellFormed, IsCounted-next, IsHeld-next, file_at, holds, refs_of, refs_of-set,
  holds_free, holds_used, holds_ne, used_slot, count_used, used_count,
}

-- Replacing an entry leaves the count of a base that neither the old nor the new one is on.
pub refs_of-set_ne :
    (c : ℕ) (fs : List VirtualFile) (i : ℕ) (f : VirtualFile)
    → i < length fs
    → holds c (file_at fs i) ≡ 0
    → holds c f ≡ 0
    → refs_of c (set fs i f) ≡ refs_of c fs
refs_of-set_ne c fs i f h before after = omega (arith, refs_of-set c fs i f h)

module _ (s : FileState) (i : ℕ) (f : VirtualFile) (counted : IsCounted s)
    (inside : i < length s.files) (free : (file_at s.files i).in_use ≡ false)
    (used : f.in_use ≡ true) (open_base : (base_at s f.base).in_use ≡ true) where
  one_more : (base_at s f.base).refs + 1 ≡ refs_of f.base (set s.files i f)
  one_more =
      let changed = refs_of-set f.base s.files i f inside in
      let before : holds f.base (file_at s.files i) ≡ 0 =
        holds_free f.base (file_at s.files i) free in
      let after : holds f.base f ≡ 1 = holds_used f used in
      let refs : (base_at s f.base).refs ≡ refs_of f.base s.files =
        count_used (base_at s f.base) (refs_of f.base s.files) (counted.counted f.base) open_base in
      omega arith

  -- A free entry becomes a handle on a base in use.
  pub occupy-IsWellFormed :
      ((c : ℕ) → f.base ≢ c → (base_at s c).in_use ≡ true → 0 < (base_at s c).refs)
      → IsWellFormed (occupy i f s)
  unfolding occupy
  occupy-IsWellFormed held =
      let base = base_at s f.base in
      let new_base : BaseFile = record base { refs = base.refs + 1 } in
      let files = set s.files i f in
      let b_in = used_slot s.bases f.base open_base in
      (
        IsCounted-next s f.base new_base files b_in counted
            (λ c ne. refs_of-set_ne c s.files i f inside (holds_free c _ free) (holds_ne c f ne))
            (used_count new_base (refs_of f.base files) open_base one_more)
            (λ u c ne used_c. counted.distinct f.base c ne open_base used_c),
        IsHeld-next s f.base new_base files b_in counted (λ u. omega arith) held,
      )
