-- ===== src/Posix/Directories.antt =====
-- Directory handles, and the paths that the `...at` functions build from them.
use flutter_libnx.Prelude.{
  ℕ, ◌+◌, ◌-◌, Bool, true, false, Option, none, some, List, [], ◌∷◌, ◌++◌, ltb, leb, ◌==◌, ◌&&◌,
  ◌||◌, not, if◌then◌else◌, get_elem?, set, replicate,
}

pub record DirEntry : Type 0 where
  pub in_use : Bool
  pub path : List ℕ

pub record State : Type 0 where
  pub entries : List DirEntry
  pub open_count : ℕ
  pub peak_count : ℕ
  pub exhausted : ℕ

abbrev pub dir_handle_base : ℕ
dir_handle_base = 0x4000_0000

abbrev pub max_open_directories : ℕ
max_open_directories = 64

abbrev pub no_directories : State
no_directories = record {
  entries = replicate max_open_directories (record { in_use = false; path = [] });
  open_count = 0;
  peak_count = 0;
  exhausted = 0;
}

unfoldable pub is_dir_handle : ℕ → Bool
is_dir_handle fd = leb dir_handle_base fd && ltb fd (dir_handle_base + max_open_directories)

-- The first index from `i` on whose element passes the test.
unfoldable pub first_index {ℓ} : {A : Type ℓ} → (A → Bool) → List A → ℕ → Option ℕ
first_index test [] i = none
first_index test (x ∷ xs) i = if test x then some i else first_index test xs (i + 1)

abbrev pub used_dir : Option DirEntry → Option DirEntry
used_dir none = none
used_dir (some e) = if e.in_use then some e else none

unfoldable pub entry_for : State → ℕ → Option DirEntry
unfolding is_dir_handle
entry_for s fd =
    if is_dir_handle fd then used_dir (get_elem? s.entries (fd - dir_handle_base)) else none

-- AllocHandle; -1 is `none`.
unfoldable pub alloc_handle : List ℕ → State → Option ℕ × State
unfolding first_index
alloc_handle path s = elim (first_index (λ (e : DirEntry). not e.in_use) s.entries 0) [
  | none ↦ (none, record s { exhausted = s.exhausted + 1 })
  | some i ↦
      let count = s.open_count + 1 in
      (
        some (dir_handle_base + i),
        record {
          entries = set s.entries i (record { in_use = true; path = path });
          open_count = count;
          peak_count = if ltb s.peak_count count then count else s.peak_count;
          exhausted = s.exhausted;
        },
      )
]

unfoldable pub release_handle : ℕ → State → Bool × State
unfolding entry_for
release_handle fd s = elim (entry_for s fd) [
  | none ↦ (false, s)
  | some e ↦ (
    true,
    record s {
      entries = set s.entries (fd - dir_handle_base) (record { in_use = false; path = [] });
      open_count = s.open_count - 1;
    },
  )
]

unfoldable pub lookup_path : ℕ → State → Option (List ℕ)
unfolding entry_for
lookup_path fd s = elim (entry_for s fd) [ none ↦ none | some e ↦ some e.path ]

-- Whether a ':' stands before the first '/'.
unfoldable pub has_device : List ℕ → Bool
has_device [] = false
has_device (c ∷ cs) = if c == b':' then true else if c == b'/' then false else has_device cs

unfoldable pub is_absolute_path : List ℕ → Bool
unfolding has_device
is_absolute_path [] = false
is_absolute_path (c ∷ cs) = c == b'/' || has_device (c ∷ cs)

-- The last character of a path that begins with `c`.
abbrev pub last_char : ℕ → List ℕ → ℕ
last_char c [] = c
last_char c (d ∷ cs) = last_char d cs

unfoldable pub join_path : List ℕ → List ℕ → List ℕ
join_path [] leaf = leaf
join_path (c ∷ cs) leaf =
    let last = last_char c cs in
    if last == b'/' || last == b':' then (c ∷ cs) ++ leaf else ((c ∷ cs) ++ (b'/' ∷ [])) ++ leaf
