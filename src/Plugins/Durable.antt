-- ===== src/Plugins/Durable.antt =====
-- What a save leaves on the card, and what a restart finds there.
use flutter_libnx.Prelude.{
  ℕ, ◌≡◌, refl, true, false, none, List, [], ◌∷◌, ◌++◌, ◌==◌, ◌⊎◌, inl, inr, Bool-cases, ◌∙◌,
}
use flutter_libnx.Codec.Value.{map, Entries, IsEncodable}
use flutter_libnx.Codec.Encode.{encode}
use flutter_libnx.Plugins.Disk.{Disk, IsLawful}
use flutter_libnx.Plugins.Storage.{
  unloaded, side_name, mkdir_ok, ensure_loop, ensure_dir, load_store, save_store, save_flushed,
  file_entries-encode, replace_file_done, replace_file_not_done,
}

module _ (D : Disk) (law : IsLawful D) where
  ensure_loop-keeps :
      (partial rest p : List ℕ) (w : D.World)
      → D.read_file p (ensure_loop D partial rest w).1 ≡ D.read_file p w
  unfolding ensure_loop
  ensure_loop-keeps partial [] p w = law.mkdir_keeps partial p w
  ensure_loop-keeps partial (c ∷ rest) p w = elim (Bool-cases (c == b'/')) [
    | inl slash ↦ rw slash (elim (Bool-cases (mkdir_ok (D.mkdir partial w).0)) [
      | inl made ↦ rw made (
          ensure_loop-keeps (partial ++ (c ∷ [])) rest p (D.mkdir partial w).1
          ∙ law.mkdir_keeps partial p w)
      | inr not_made ↦ rw not_made (law.mkdir_keeps partial p w)
    ])
    | inr other ↦ rw other (ensure_loop-keeps (partial ++ (c ∷ [])) rest p w)
  ]

  -- EnsureDir touches no file.
  ensure_dir-keeps :
      (base p : List ℕ) (w : D.World) → D.read_file p (ensure_dir D base w).1 ≡ D.read_file p w
  unfolding ensure_dir
  ensure_dir-keeps [] p w = refl
  ensure_dir-keeps (c ∷ rest) p w = ensure_loop-keeps (c ∷ []) rest p w

  module _ (base path : List ℕ) (es : Entries) (w : D.World) where
    -- A save that reports success, and whose buffer reached the card, is durable: a process that
    -- starts afterwards loads the entries that were saved, if the format can carry them and the file
    -- system is lawful.
    pub save_store_durable :
        IsEncodable (map es)
        → save_flushed D base path es w ≡ true
        → (save_store D base path es w).0 ≡ true
        → load_store D path (save_store D base path es w).1 unloaded
          ≡ record { entries = es; loaded = true }
    unfolding save_store save_flushed load_store
    save_store_durable ok_entries flushed =
        let made_world = (ensure_dir D base w).1 in
        elim (Bool-cases (ensure_dir D base w).0) [
          | inl made ↦ rw made (elim (Bool-cases (D.create (side_name path) made_world).0) [
            | inl opened ↦ rw opened (λ done.
                let file =
                  replace_file_done D law path (encode (map es) []) made_world opened flushed
                    done in
                rw (file, file_entries-encode es ok_entries))
            | inr closed ↦ rw closed (λ done. cc)
          ])
          | inr not_made ↦ rw not_made (λ done. cc)
        ]

    -- After a save that reports failure the file holds what it held before, or is gone, on a lawful
    -- file system.
    pub save_store_failed :
        (save_store D base path es w).0 ≡ false
        → (D.read_file path (save_store D base path es w).1 ≡ none)
          ⊎ (D.read_file path (save_store D base path es w).1 ≡ D.read_file path w)
    unfolding save_store
    save_store_failed =
        let made_world = (ensure_dir D base w).1 in
        let kept = ensure_dir-keeps base path w in
        elim (Bool-cases (ensure_dir D base w).0) [
          | inl made ↦ rw made (elim (Bool-cases (D.create (side_name path) made_world).0) [
            | inl opened ↦ rw opened (λ lost.
                elim (replace_file_not_done D law path (encode (map es) []) made_world lost) [
                  | inl gone ↦ inl gone
                  | inr same ↦ inr (same ∙ kept)
                ])
            | inr closed ↦
                rw closed
                  (λ lost. inr (law.create_failed (side_name path) path made_world closed ∙ kept))
          ])
          | inr not_made ↦ rw not_made (λ lost. inr kept)
        ]
