-- ===== src/Plugins/Prefs.antt =====
-- shared_preferences and secure storage: what a method does to the entries and to the card.
use flutter_libnx.Prelude.{
  ℕ, ◌≡◌, refl, Bool, true, false, some, List, if◌then◌else◌, ap, ◌∙◌, codes, bytes_eq, bytes_eq→eq,
  inl, inr, Bool-cases,
}
use flutter_libnx.Codec.Value.{StdValue, null, bool, string, map, Entries, as_map, IsEncodable}
use flutter_libnx.Codec.Call.{encode_success}
use flutter_libnx.Plugins.Disk.{Disk, IsLawful}
use flutter_libnx.Plugins.Table.{map_get, map_set, map_get-map_set}
use flutter_libnx.Plugins.Storage.{Store, unloaded, save_store, save_flushed}
use flutter_libnx.Plugins.Replies.{sent_once, sent-respond}
use flutter_libnx.Plugins.Durable.{save_store_durable}
use flutter_libnx.Plugins.Handlers.{
  Plugins, respond, base_dir, prefs_path, is_setter, string_of, set_pref, save_prefs,
  handle_shared_preferences, load_prefs, load_secure, secure_write, save_secure, secure_method,
  handle_secure_storage,
}

setter-ne-get_all :
    (method : List ℕ) → is_setter method ≡ true → bytes_eq method (codes "getAll") ≡ false
unfolding is_setter bytes_eq
setter-ne-get_all method h = elim (Bool-cases (bytes_eq method (codes "getAll"))) [
  | inl e ↦ (let h' = rw (bytes_eq→eq method _ e) at h in cc)
  | inr n ↦ n
]

respond_keeps :
    (D : Disk) (payload : List ℕ) (s : Plugins D)
    → ((respond D payload s).prefs ≡ s.prefs)
      × ((respond D payload s).secure ≡ s.secure)
      × ((respond D payload s).world ≡ s.world)
unfolding respond
respond_keeps D payload s = elim (Bool-cases s.has_handle) [
  | inl handle ↦ rw handle (refl, refl, refl)
  | inr none_asked ↦ rw none_asked (refl, refl, refl)
]

-- A new process over the same card.
abbrev pub restart : (D : Disk) → Plugins D → Plugins D
restart D s = record s { prefs = unloaded; secure = unloaded }

module _ (D : Disk) (app_id method k : List ℕ) (args v : StdValue) (s : Plugins D) where
  -- The preferences before the method, the new entries, and what saving them does.
  abbrev pub new_entries : Entries
  new_entries = map_set k v (load_prefs D app_id s).prefs.entries

  abbrev pub saved : Bool × D.World
  saved = save_store D (base_dir app_id) (prefs_path app_id) new_entries s.world

  -- The state with the new entries and the world after the save, before the answer.
  abbrev stored : Plugins D
  stored = record s {
    prefs = record { entries = new_entries; loaded = (load_prefs D app_id s).prefs.loaded };
    world = saved.1;
  }

  set_lem :
      is_setter method ≡ true
      → map_get (codes "key") (as_map args) ≡ some (string k)
      → map_get (codes "value") (as_map args) ≡ some v
      → handle_shared_preferences D app_id method args s
        ≡ save_prefs D app_id new_entries (load_prefs D app_id s)
  unfolding handle_shared_preferences set_pref string_of
  set_lem setter key value = rw (setter-ne-get_all method setter, setter, key, value)

  -- A setter of shared_preferences with a string for its key and with a value puts the value under
  -- the key, saves the entries, and answers whether the save succeeded.
  pub setter_stores :
      is_setter method ≡ true
      → map_get (codes "key") (as_map args) ≡ some (string k)
      → map_get (codes "value") (as_map args) ≡ some v
      → let r = handle_shared_preferences D app_id method args s in
        (r.0 ≡ true)
        × (r.1.prefs.entries ≡ new_entries)
        × (r.1.world ≡ saved.1)
        × (r.1.sent ≡ sent_once s.has_handle s.sent (encode_success (bool saved.0)))
  setter_stores setter key value =
      let payload = encode_success (bool saved.0) in
      let kept = respond_keeps D payload stored in
      rw (set_lem setter key value) (
        unfold save_prefs load_prefs in
        (refl, ap (λ (p : Store). p.entries) kept.0, kept.2, sent-respond D payload stored))

  -- After a setter of shared_preferences whose save succeeded and whose buffer reached the card, a
  -- new process over the same card finds the value under its key, and under every other key what the
  -- setter had found there; the entries are such as the format can carry and the file system is
  -- lawful.
  pub setter_survives :
      IsLawful D
      → is_setter method ≡ true
      → map_get (codes "key") (as_map args) ≡ some (string k)
      → map_get (codes "value") (as_map args) ≡ some v
      → IsEncodable (map new_entries)
      → save_flushed D (base_dir app_id) (prefs_path app_id) new_entries s.world ≡ true
      → saved.0 ≡ true
      → (j : List ℕ)
      → map_get j
          (load_prefs D app_id
            (restart D (handle_shared_preferences D app_id method args s).1)).prefs.entries
        ≡ (if bytes_eq k j then some v else map_get j (load_prefs D app_id s).prefs.entries)
  setter_survives law setter key value fits flushed done j = rw (set_lem setter key value) (
      unfold save_prefs load_prefs in
      rw ((respond_keeps D (encode_success (bool saved.0)) stored).2) (
        ap (λ (p : Store). map_get j p.entries)
          (save_store_durable D law (base_dir app_id) (prefs_path app_id) new_entries s.world fits
            flushed done)
        ∙ map_get-map_set j k v (load_prefs D app_id s).prefs.entries))

module _ (D : Disk) (app_id k : List ℕ) (args v : StdValue) (s : Plugins D) where
  -- `write` of secure storage, with a string for its key and with a value, answers null whatever
  -- became of the save; the value stands under its key from then on, in this process.
  pub secure_write_answers_null :
      map_get (codes "key") (as_map args) ≡ some (string k)
      → map_get (codes "value") (as_map args) ≡ some v
      → let r = handle_secure_storage D app_id (codes "write") args s in
        (r.1.sent ≡ sent_once s.has_handle s.sent (encode_success null))
        × ((j : List ℕ)
            → map_get j r.1.secure.entries ≡ (
                if bytes_eq k j then some v else map_get j (load_secure D app_id s).secure.entries))
  unfolding handle_secure_storage secure_method secure_write save_secure string_of bytes_eq
  secure_write_answers_null key value =
      rw (key, value)
        (
          sent-respond D _ _,
          λ j.
              ap (λ (p : Store). map_get j p.entries) (respond_keeps D _ _).1
              ∙ map_get-map_set j k v (load_secure D app_id s).secure.entries,
        )
