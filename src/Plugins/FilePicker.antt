-- ===== src/Plugins/FilePicker.antt =====
-- HandleFilePicker and what it calls. A directory, stat and std::to_string are parameters.
use flutter_libnx.Prelude.{
  ℕ, ◌+◌, Bool, true, false, not, ◌&&◌, ◌||◌, Option, none, some, List, [], ◌∷◌, ◌++◌, map,
  if◌then◌else◌, leb, ltb, ◌==◌, codes, bytes_eq, find, contains, ℤ, pos, negsuc,
}
use flutter_libnx.Plugins.Disk.{Disk}
use flutter_libnx.Plugins.Storage.{ensure_dir}
use flutter_libnx.Plugins.Handlers.{Plugins, base_dir}

-- What stat tells of a path.
pub record Stat : Type 0 where
  pub is_regular : Bool
  pub size : ℤ
  pub mtime : ℤ

pub record Folders (D : Disk) : Type 0 where
  -- opendir and readdir until nullptr: the names in that order, or `none` if it cannot be opened.
  pub read_dir : List ℕ → D.World → Option (List (List ℕ))
  pub stat : List ℕ → D.World → Option Stat
  pub to_string : ℤ → List ℕ

pub record Candidate : Type 0 where
  pub name : List ℕ
  pub size : ℤ
  pub mtime : ℤ

-- `a < b`
unfoldable pub int_lt : ℤ → ℤ → Bool
int_lt (pos a) (pos b) = ltb a b
int_lt (pos a) (negsuc b) = false
int_lt (negsuc a) (pos b) = true
int_lt (negsuc a) (negsuc b) = ltb b a

abbrev pub import_dir : List ℕ → List ℕ
import_dir app_id = base_dir app_id ++ codes "/import"

unfoldable pub to_lower : ℕ → ℕ
to_lower c = if leb b'A' c && leb c b'Z' then c + 32 else c

-- What stands behind the last dot: name.rfind('.') and name.substr(dot + 1).
unfoldable pub extension : List ℕ → Option (List ℕ)
extension [] = none
extension (c ∷ rest) =
    let later = extension rest in
    elim later [ some ext ↦ some ext | none ↦ (if c == b'.' then some rest else none) ]

unfoldable pub is_allowed : List ℕ → List (List ℕ) → Bool
is_allowed ext [] = false
is_allowed ext (allowed ∷ rest) = let later = is_allowed ext rest in bytes_eq ext allowed || later

unfoldable pub has_allowed_extension : List ℕ → List (List ℕ) → Bool
unfolding extension is_allowed to_lower
has_allowed_extension name [] = true
has_allowed_extension name (e ∷ es) = elim (extension name) [
  | none ↦ false
  | some ext ↦ is_allowed (map to_lower ext) (e ∷ es)
]

unfoldable pub json_escape_minimal : List ℕ → List ℕ
json_escape_minimal [] = []
json_escape_minimal (c ∷ s) =
    let rest = json_escape_minimal s in
    if c == b'"' || c == b'\\' then b'\\' ∷ c ∷ rest else c ∷ rest

-- The loop over allowedExtensions, from behind the bracket on: between the names, or in one, of which
-- `ext` was read. A name that does not end gives nothing.
unfoldable pub scan_extensions : Option (List ℕ) → List ℕ → List (List ℕ)
unfolding to_lower
scan_extensions state [] = []
scan_extensions none (c ∷ rest) = elim (c == b']') [
  | true ↦ []
  | false ↦ elim (c == b'"') [
    | true ↦ scan_extensions (some []) rest
    | false ↦ scan_extensions none rest
  ]
]
scan_extensions (some ext) (c ∷ rest) = elim (c == b'"') [
  | true ↦ map to_lower ext ∷ scan_extensions none rest
  | false ↦ scan_extensions (some (ext ++ (c ∷ []))) rest
]

unfoldable pub allowed_extensions : List ℕ → List (List ℕ)
unfolding scan_extensions
allowed_extensions msg = elim (find (codes "\"allowedExtensions\":[") msg) [
  | none ↦ []
  | some rest ↦ scan_extensions none rest
]

-- The newest file; the first of those that are equally new.
unfoldable pub newest : Candidate → List Candidate → Candidate
unfolding int_lt
newest best [] = best
newest best (c ∷ cs) = newest (if int_lt best.mtime c.mtime then c else best) cs

unfoldable pub select : Bool → List Candidate → List Candidate
unfolding newest
select allow_multiple [] = []
select true (c ∷ cs) = c ∷ cs
select false (c ∷ cs) = newest c cs ∷ []

unfoldable pub method_is : List ℕ → List ℕ → Bool
method_is m msg = contains (codes "\"method\":\"" ++ (m ++ codes "\"")) msg

module _ (D : Disk) (F : Folders D) (dir : List ℕ) where
  unfoldable pub regular_file : List ℕ → Option Stat → Option Candidate
  regular_file name none = none
  regular_file name (some st) =
      if st.is_regular
      then some (record { name = name; size = st.size; mtime = st.mtime })
      else none

  -- What becomes of an entry of the directory.
  unfoldable pub candidate : List (List ℕ) → List ℕ → D.World → Option Candidate
  unfolding regular_file has_allowed_extension
  candidate extensions name w =
      if bytes_eq name (codes ".") || bytes_eq name (codes "..")
      then none
      else if not (has_allowed_extension name extensions)
      then none
      else regular_file name (F.stat (dir ++ (codes "/" ++ name)) w)

  unfoldable pub collect : List (List ℕ) → List (List ℕ) → D.World → List Candidate
  unfolding candidate
  collect extensions [] w = []
  collect extensions (name ∷ names) w =
      let rest = collect extensions names w in
      elim (candidate extensions name w) [ none ↦ rest | some c ↦ c ∷ rest ]

  unfoldable pub found_files : List (List ℕ) → Option (List (List ℕ)) → D.World → List Candidate
  unfolding collect
  found_files extensions none w = []
  found_files extensions (some names) w = collect extensions names w

  unfoldable pub file_json : Candidate → List ℕ
  unfolding json_escape_minimal
  file_json file =
      codes "{\"path\":\""
      ++ (json_escape_minimal (dir ++ (codes "/" ++ file.name))
          ++ (codes "\",\"name\":\""
              ++ (json_escape_minimal file.name
                  ++ (codes "\",\"size\":"
                      ++ (F.to_string file.size ++ codes ",\"bytes\":null,\"identifier\":null}")))))

  unfoldable pub list_json : List Candidate → List ℕ
  unfolding file_json
  list_json [] = []
  list_json (file ∷ []) = file_json file
  list_json (file ∷ next ∷ files) =
      let rest = list_json (next ∷ files) in file_json file ++ (codes "," ++ rest)

  unfoldable pub files_json : List Candidate → List ℕ
  unfolding list_json
  files_json [] = codes "[null]"
  files_json (file ∷ files) = codes "[[" ++ (list_json (file ∷ files) ++ codes "]]")

-- RespondJson
unfoldable pub respond_json : (D : Disk) → List ℕ → Plugins D → Plugins D
respond_json D payload s = if s.has_handle then record s { sent = s.sent ++ (payload ∷ []) } else s

module _ (D : Disk) (F : Folders D) (app_id : List ℕ) where
  -- The answer to the methods that pick files.
  unfoldable pub picked : List ℕ → D.World → List ℕ
  unfolding files_json select found_files allowed_extensions
  picked msg w =
      let dir = import_dir app_id in
      let found = found_files D F dir (allowed_extensions msg) (F.read_dir dir w) w in
      files_json D F dir (select (contains (codes "\"allowMultipleSelection\":true") msg) found)

  unfoldable pub handle_file_picker : List ℕ → Plugins D → Bool × Plugins D
  unfolding picked respond_json method_is
  handle_file_picker msg s =
      let dir = import_dir app_id in
      let made = ensure_dir D dir s.world in
      let s' = record s { world = made.1 } in
      if method_is (codes "clear") msg
      then (true, respond_json D (codes "[true]") s)
      else if method_is (codes "dir") msg
      then (true, respond_json D (codes "[\"" ++ (dir ++ codes "\"]")) s')
      else (true, respond_json D (picked msg made.1) s')
