-- ===== src/Posix/Reached.antt =====
-- The handle tables over any sequence of opens, closes and dups.
use flutter_libnx.Prelude.{ℕ, zero, suc, ◌≡◌, refl, Option, List, [], ◌∷◌, arith, replicate, get_or}
use flutter_libnx.Posix.Directories.{State, no_directories}
use flutter_libnx.Posix.Files.{
  FileState, Flags, Libc, free_slot, free_handle, initial, wrap_open, max_base_files,
  max_virtual_files,
}
use flutter_libnx.Posix.Access.{wrap_close, wrap_dup}
use flutter_libnx.Posix.Counted.{IsWellFormed, refs_of, holds_free}
use flutter_libnx.Posix.Opened.{wrap_open-IsWellFormed}
use flutter_libnx.Posix.Closed.{wrap_close-IsWellFormed, wrap_dup-IsWellFormed}

refs_of-replicate : (b n : ℕ) → refs_of b (replicate n free_handle) ≡ 0
unfolding refs_of
refs_of-replicate b zero = refl
refs_of-replicate b (suc n) = omega (arith, holds_free b free_handle refl, refs_of-replicate b n)

slot-replicate : (b n : ℕ) → get_or (replicate n free_slot) b free_slot ≡ free_slot
slot-replicate b zero = refl
slot-replicate zero (suc n) = refl
slot-replicate (suc b) (suc n) = slot-replicate b n

pub initial-IsWellFormed : IsWellFormed initial
initial-IsWellFormed = (
  record {
    counted = λ b. rw (slot-replicate b max_base_files) (refs_of-replicate b max_virtual_files);
    distinct = λ b c ne. rw (slot-replicate b max_base_files) (λ used. cc);
  },
  λ b. rw (slot-replicate b max_base_files) (λ used. cc),
)

-- What the program calls.
pub data Operation : Type 0 where
  open_path : Option (List ℕ) → Flags → ℕ → Operation
  close_fd dup_fd : ℕ → Operation

module _ (L : Libc) where
  abbrev pub Tables : Type 0
  Tables = FileState × State × L.World

  unfoldable pub operate : Operation → Tables → Tables
  operate (open_path path flags mode) (s, dirs, w) =
      let (r, s', w') = wrap_open L path flags mode s w in (s', dirs, w')
  operate (close_fd fd) (s, dirs, w) =
      let (r, s', dirs', w') = wrap_close L fd s dirs w in (s', dirs', w')
  operate (dup_fd fd) (s, dirs, w) =
      let (r, s', dirs', w') = wrap_dup L fd s dirs w in (s', dirs', w')

  unfoldable pub operate_all : List Operation → Tables → Tables
  unfolding operate
  operate_all [] t = t
  operate_all (o ∷ os) t = operate_all os (operate o t)

  operate-IsWellFormed :
      (o : Operation) (t : Tables) → IsWellFormed t.0 → IsWellFormed (operate o t).0
  unfolding operate
  operate-IsWellFormed (open_path path flags mode) (s, dirs, w) h =
      wrap_open-IsWellFormed L path flags mode s w h
  operate-IsWellFormed (close_fd fd) (s, dirs, w) h = wrap_close-IsWellFormed L fd s dirs w h
  operate-IsWellFormed (dup_fd fd) (s, dirs, w) h = wrap_dup-IsWellFormed L fd s dirs w h

  operate_all-IsWellFormed :
      (os : List Operation) (t : Tables) → IsWellFormed t.0 → IsWellFormed (operate_all os t).0
  unfolding operate_all
  operate_all-IsWellFormed [] t h = h
  operate_all-IsWellFormed (o ∷ os) t h =
      operate_all-IsWellFormed os (operate o t) (operate-IsWellFormed o t h)

  -- After any sequence of opens, closes and dups, with whatever results, from the tables at start on:
  -- every base in use counts exactly the open handles on it and has at least one, a base that is free
  -- has none, and no path has two bases in use.
  pub reachable-IsWellFormed :
      (os : List Operation) (w : L.World)
      → IsWellFormed (operate_all os (initial, no_directories, w)).0
  reachable-IsWellFormed os w =
      operate_all-IsWellFormed os (initial, no_directories, w) initial-IsWellFormed
