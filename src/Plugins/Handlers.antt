-- ===== src/Plugins/Handlers.antt =====
-- The handlers of the plugin channels and their dispatcher, except file_picker's, whose channel
-- speaks JSON. `app_id` is the build's FLUTTER_LIBNX_APP_ID; the engine's send of a response and the
-- browser applet are the lists `sent` and `opened` of what they were given.
use flutter_libnx.Prelude.{
  ℕ, Bool, true, false, Option, none, some, List, [], ◌∷◌, ◌++◌, if◌then◌else◌, codes, bytes_eq,
  begins_with, ◌||◌,
}
use flutter_libnx.Codec.Value.{
  StdValue, null, bool, string, list, map, no_items, Entries, no_entries, as_map,
}
use flutter_libnx.Codec.Call.{encode_success, encode_error}
use flutter_libnx.Plugins.Disk.{Disk}
use flutter_libnx.Plugins.Table.{map_get, map_set, map_erase, map_clear}
use flutter_libnx.Plugins.Storage.{Store, ensure_dir, load_store, save_store}

-- What path_provider answers to a method.
pub data PathReply : Type 0 where
  subdir : List ℕ → PathReply
  no_path no_paths unknown : PathReply

unfoldable pub path_reply : List ℕ → PathReply
path_reply method =
    if bytes_eq method (codes "getTemporaryDirectory")
    then subdir (codes "tmp")
    else if bytes_eq method (codes "getApplicationDocumentsDirectory")
    then subdir (codes "documents")
    else if bytes_eq method (codes "getApplicationSupportDirectory")
    then subdir (codes "support")
    else if bytes_eq method (codes "getLibraryDirectory")
    then subdir (codes "library")
    else if bytes_eq method (codes "getDownloadsDirectory")
    then subdir (codes "downloads")
    else if bytes_eq method (codes "getApplicationCachePath")
        || bytes_eq method (codes "getApplicationCacheDirectory")
    then subdir (codes "cache")
    else if bytes_eq method (codes "getExternalStorageDirectory")
    then no_path
    else if bytes_eq method (codes "getExternalCacheDirectories")
        || bytes_eq method (codes "getExternalStorageDirectories")
    then no_paths
    else unknown

-- The five methods that set a preference.
unfoldable pub is_setter : List ℕ → Bool
is_setter method =
    bytes_eq method (codes "setBool")
    || bytes_eq method (codes "setInt")
    || bytes_eq method (codes "setDouble")
    || bytes_eq method (codes "setString")
    || bytes_eq method (codes "setStringList")

-- `value != nullptr && value->type == kString`, with the string.
unfoldable pub string_of : Option StdValue → Option (List ℕ)
string_of (some (string s)) = some s
string_of v = none

unfoldable pub is_web_url : List ℕ → Bool
is_web_url url = begins_with (codes "http://") url || begins_with (codes "https://") url

-- The state behind the handlers. `has_handle` is whether the message carries a response handle.
pub record Plugins (D : Disk) : Type 0 where
  pub prefs : Store
  pub secure : Store
  pub world : D.World
  pub has_handle : Bool
  pub sent : List (List ℕ)
  pub opened : List (List ℕ)

-- Respond
unfoldable pub respond : (D : Disk) → List ℕ → Plugins D → Plugins D
respond D payload s = if s.has_handle then record s { sent = s.sent ++ (payload ∷ []) } else s

abbrev pub base_dir : List ℕ → List ℕ
base_dir app_id = codes "/switch/flutter_apps/" ++ app_id

abbrev pub prefs_path : List ℕ → List ℕ
prefs_path app_id = base_dir app_id ++ codes "/shared_preferences.std"

abbrev pub secure_path : List ℕ → List ℕ
secure_path app_id = base_dir app_id ++ codes "/secure_storage.std"

module _ (D : Disk) (app_id : List ℕ) where
  -- An answer that the handler takes for its own.
  abbrev pub answer : List ℕ → Plugins D → Bool × Plugins D
  answer payload s = (true, respond D payload s)

  unfoldable pub provide_dir : List ℕ → Plugins D → Bool × Plugins D
  provide_dir path s =
      let (made, w) = ensure_dir D path s.world in
      let s' = record s { world = w } in
      if made
      then answer (encode_success (string path)) s'
      else answer (encode_error (codes "io") (codes "Verzeichnis nicht anlegbar: " ++ path)) s'

  unfoldable pub provide : PathReply → Plugins D → Bool × Plugins D
  unfolding provide_dir
  provide (subdir d) s = provide_dir (base_dir app_id ++ (codes "/" ++ d)) s
  provide no_path s = answer (encode_success null) s
  provide no_paths s = answer (encode_success (list no_items)) s
  provide unknown s = (false, s)

  unfoldable pub handle_path_provider : List ℕ → Plugins D → Bool × Plugins D
  unfolding provide path_reply
  handle_path_provider method s = provide (path_reply method) s

  -- LoadPrefs
  unfoldable pub load_prefs : Plugins D → Plugins D
  load_prefs s = record s { prefs = load_store D (prefs_path app_id) s.world s.prefs }

  -- `EncodeStdSuccess(StdValue::Bool(SavePrefs()))`, after the entries have become `es`.
  unfoldable pub save_prefs : Entries → Plugins D → Bool × Plugins D
  save_prefs es s =
      let (saved, w) = save_store D (base_dir app_id) (prefs_path app_id) es s.world in
      answer (encode_success (bool saved))
        (record s { prefs = record s.prefs { entries = es }; world = w })

  unfoldable pub set_pref :
      List ℕ → Option (List ℕ) → Option StdValue → Plugins D → Bool × Plugins D
  unfolding save_prefs
  set_pref method (some k) (some v) s = save_prefs (map_set k v s.prefs.entries) s
  set_pref method key value s =
      answer (encode_error (codes "argument") (codes "key/value fehlt bei " ++ method)) s

  unfoldable pub erase_key : Option (List ℕ) → Entries → Entries
  erase_key (some k) es = map_erase k es
  erase_key none es = es

  -- The chain of tests on the method, after LoadPrefs.
  unfoldable pub prefs_method : List ℕ → StdValue → Plugins D → Bool × Plugins D
  unfolding set_pref erase_key is_setter string_of
  prefs_method method args s =
      let key = string_of (map_get (codes "key") (as_map args)) in
      if bytes_eq method (codes "getAll")
      then answer (encode_success (map s.prefs.entries)) s
      else if is_setter method
      then set_pref method key (map_get (codes "value") (as_map args)) s
      else if bytes_eq method (codes "remove")
      then save_prefs (erase_key key s.prefs.entries) s
      else if bytes_eq method (codes "clear")
      then save_prefs (map_clear s.prefs.entries) s
      else if bytes_eq method (codes "commit")
      then answer (encode_success (bool true)) s
      else (false, s)

  unfoldable pub handle_shared_preferences : List ℕ → StdValue → Plugins D → Bool × Plugins D
  unfolding prefs_method load_prefs
  handle_shared_preferences method args s = prefs_method method args (load_prefs s)

  unfoldable pub load_secure : Plugins D → Plugins D
  load_secure s = record s { secure = load_store D (secure_path app_id) s.world s.secure }

  -- SaveSecure, whose result no caller looks at, and then the answer null.
  unfoldable pub save_secure : Entries → Plugins D → Bool × Plugins D
  save_secure es s =
      let (saved, w) = save_store D (base_dir app_id) (secure_path app_id) es s.world in
      answer (encode_success null)
        (record s { secure = record s.secure { entries = es }; world = w })

  abbrev pub lookup_key : Option (List ℕ) → Entries → Option StdValue
  lookup_key (some k) es = map_get k es
  lookup_key none es = none

  abbrev pub value_or_null : Option StdValue → StdValue
  value_or_null (some v) = v
  value_or_null none = null

  abbrev pub is_found : Option StdValue → Bool
  is_found (some v) = true
  is_found none = false

  unfoldable pub secure_write : Option (List ℕ) → Option StdValue → Plugins D → Bool × Plugins D
  unfolding save_secure
  secure_write (some k) (some v) s = save_secure (map_set k v s.secure.entries) s
  secure_write key value s = answer (encode_success null) s

  unfoldable pub secure_delete : Option (List ℕ) → Plugins D → Bool × Plugins D
  unfolding save_secure
  secure_delete (some k) s = save_secure (map_erase k s.secure.entries) s
  secure_delete none s = answer (encode_success null) s

  unfoldable pub secure_method : List ℕ → StdValue → Plugins D → Bool × Plugins D
  unfolding secure_write secure_delete string_of
  secure_method method args s =
      let key = string_of (map_get (codes "key") (as_map args)) in
      let found = lookup_key key s.secure.entries in
      if bytes_eq method (codes "read")
      then answer (encode_success (value_or_null found)) s
      else if bytes_eq method (codes "containsKey")
      then answer (encode_success (bool (is_found found))) s
      else if bytes_eq method (codes "readAll")
      then answer (encode_success (map s.secure.entries)) s
      else if bytes_eq method (codes "write")
      then secure_write key (map_get (codes "value") (as_map args)) s
      else if bytes_eq method (codes "delete")
      then secure_delete key s
      else if bytes_eq method (codes "deleteAll")
      then save_secure no_entries s
      else (false, s)

  unfoldable pub handle_secure_storage : List ℕ → StdValue → Plugins D → Bool × Plugins D
  unfolding secure_method load_secure
  handle_secure_storage method args s = secure_method method args (load_secure s)
