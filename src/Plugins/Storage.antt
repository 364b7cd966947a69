-- ===== src/Plugins/Storage.antt =====
-- EnsureDir, LoadPrefs/LoadSecure and SavePrefs/SaveSecure over a file system `D`.
use flutter_libnx.Prelude.{
  ℕ, ◌≡◌, ◌≢◌, Bool, true, false, Option, none, some, List, [], ◌∷◌, ◌++◌, arith, length,
  if◌then◌else◌, codes, ◌==◌, ◌⊎◌, inl, inr, Bool-cases, ==_iff, ◌∙◌, ap, sym, length-append,
}
use flutter_libnx.Codec.Value.{StdValue, map, Entries, no_entries, IsEncodable}
use flutter_libnx.Codec.Encode.{encode}
use flutter_libnx.Codec.Decode.{Decoded, ok, decode_std_value}
use flutter_libnx.Codec.RoundTrip.{decode-encode_within}
use flutter_libnx.Codec.Extends.{Extends-refl}
use flutter_libnx.Plugins.Disk.{Disk, IsLawful, Mkdir, failed}

-- What a file holds: its map, or nothing if it is missing, cannot be decoded, or is no map.
unfoldable pub decoded_entries : Decoded (StdValue × ℕ) → Entries
decoded_entries (ok (map es, cursor)) = es
decoded_entries r = no_entries

unfoldable pub file_entries : Option (List ℕ) → Entries
unfolding decoded_entries
file_entries none = no_entries
file_entries (some bytes) = decoded_entries (decode_std_value bytes 0)

-- g_prefs with g_prefs_loaded, and g_secure with g_secure_loaded. The value is a map at all times, so
-- its entries stand for it.
pub record Store : Type 0 where
  pub entries : Entries
  pub loaded : Bool

abbrev pub unloaded : Store
unloaded = record { entries = no_entries; loaded = false }

unfoldable pub mkdir_ok : Mkdir → Bool
mkdir_ok failed = false
mkdir_ok m = true

-- path + ".neu"
abbrev pub side_name : List ℕ → List ℕ
side_name path = path ++ codes ".neu"

module _ (D : Disk) where
  -- The loop of EnsureDir: `partial` is path.substr(0, i) and `rest` what follows it.
  unfoldable pub ensure_loop : List ℕ → List ℕ → D.World → Bool × D.World
  unfolding mkdir_ok
  ensure_loop partial [] w = let (m, w') = D.mkdir partial w in (mkdir_ok m, w')
  ensure_loop partial (c ∷ rest) w =
      let (m, w') = D.mkdir partial w in
      let after = ensure_loop (partial ++ (c ∷ [])) rest w' in
      let on = ensure_loop (partial ++ (c ∷ [])) rest w in
      if c == b'/' then (if mkdir_ok m then after else (false, w')) else on

  unfoldable pub ensure_dir : List ℕ → D.World → Bool × D.World
  unfolding ensure_loop
  ensure_dir [] w = (true, w)
  ensure_dir (c ∷ rest) w = ensure_loop (c ∷ []) rest w

  -- LoadPrefs and LoadSecure
  unfoldable pub load_store : List ℕ → D.World → Store → Store
  unfolding file_entries
  load_store path w s =
      if s.loaded then s else record { entries = file_entries (D.read_file path w); loaded = true }

  -- SavePrefs and SaveSecure from the opened side file on.
  unfoldable pub replace_file : List ℕ → List ℕ → D.World → Bool × D.World
  replace_file path bytes w =
      let (count, w') = D.write (side_name path) bytes w in
      let (flushed, w'') = D.close (side_name path) w' in
      if count == length bytes
      then D.rename (side_name path) path (D.remove path w'')
      else (false, D.remove (side_name path) w'')

  unfoldable pub save_store : List ℕ → List ℕ → Entries → D.World → Bool × D.World
  unfolding ensure_dir replace_file
  save_store base path es w =
      let (made, w') = ensure_dir base w in
      let (opened, w'') = D.create (side_name path) w' in
      if made
      then (if opened then replace_file path (encode (map es) []) w'' else (false, w''))
      else (false, w')

  -- Whether the side file's buffer reached the card, a result that the program does not look at.
  unfoldable pub save_flushed : List ℕ → List ℕ → Entries → D.World → Bool
  save_flushed base path es w =
      let w' = (D.create (side_name path) (ensure_dir base w).1).1 in
      let w'' = (D.write (side_name path) (encode (map es) []) w').1 in
      (D.close (side_name path) w'').0

-- A file that holds an encoded map is loaded as that map.
pub file_entries-encode :
    (es : Entries) → IsEncodable (map es) → file_entries (some (encode (map es) [])) ≡ es
unfolding file_entries
file_entries-encode es h =
    rw (decode-encode_within (map es) [] (encode (map es) []) h (Extends-refl (encode (map es) [])))

side_name-ne : (path : List ℕ) → side_name path ≢ path
side_name-ne path e = omega (arith, ap (length {A = ℕ}) e, length-append path (codes ".neu"))

module _ (D : Disk) (law : IsLawful D) (path bytes : List ℕ) (w : D.World) where
  abbrev pub side : List ℕ
  side = side_name path

  abbrev pub opened_world : D.World
  opened_world = (D.create side w).1

  abbrev pub closed : Bool × D.World
  closed = D.close side (D.write side bytes opened_world).1

  pub replace_file_done :
      (D.create side w).0 ≡ true
      → closed.0 ≡ true
      → (replace_file D path bytes opened_world).0 ≡ true
      → D.read_file path (replace_file D path bytes opened_world).1 ≡ some bytes
  unfolding replace_file
  replace_file_done opened flushed =
      elim (Bool-cases ((D.write side bytes opened_world).0 == length bytes)) [
        | inl all ↦ rw all (λ done.
            law.renamed side path (D.remove path closed.1) done
            ∙ law.remove_keeps path side closed.1 (side_name-ne path)
            ∙ law.written side bytes w opened ((==_iff _ _).0 all) flushed)
        | inr part ↦ rw part (λ done. cc)
      ]

  -- Unless the side file has replaced it, the file is as it was or gone.
  pub replace_file_not_done :
      (replace_file D path bytes opened_world).0 ≡ false
      → (D.read_file path (replace_file D path bytes opened_world).1 ≡ none)
        ⊎ (D.read_file path (replace_file D path bytes opened_world).1 ≡ D.read_file path w)
  unfolding replace_file
  replace_file_not_done = elim (Bool-cases ((D.write side bytes opened_world).0 == length bytes)) [
    | inl all ↦ rw all (λ lost. elim (law.removed path closed.1) [
      | inl gone ↦ inl (law.rename_failed side path path (D.remove path closed.1) lost ∙ gone)
      | inr kept ↦
          inr (law.rename_failed side path path (D.remove path closed.1) lost ∙ kept ∙ untouched)
    ])
    | inr part ↦ rw part (λ lost. inr (law.remove_keeps side path closed.1 other ∙ untouched))
  ]
    where
      other : path ≢ side
      other = λ e. side_name-ne path (sym e)

      untouched : D.read_file path closed.1 ≡ D.read_file path w
      untouched =
          law.close_keeps side path (D.write side bytes opened_world).1 other
          ∙ law.write_keeps side path bytes opened_world other
          ∙ law.create_keeps side path w other
