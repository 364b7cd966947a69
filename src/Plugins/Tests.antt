-- ===== src/Plugins/Tests.antt =====
-- A file system in memory, and the theorems about the plugins at concrete inputs.
use flutter_libnx.Prelude.{
  ℕ, ◌≡◌, ◌≢◌, refl, Bool, true, false, Option, none, some, List, [], ◌∷◌, if◌then◌else◌, arith,
  length, codes, bytes_eq, bytes_eq_refl, bytes_eq_iff, inl, ◌⊎◌, contains, pos,
}
use flutter_libnx.Codec.Value.{
  StdValue, null, bool, int, string, map, Entries, no_entries, entry, as_map,
}
use flutter_libnx.Codec.Encode.{encode, encode_int, write_size}
use flutter_libnx.Codec.Call.{encode_success}
use flutter_libnx.Plugins.Replies.{sent_once, handle_plugin_message_answers}
use flutter_libnx.Plugins.Dispatch.{handle_plugin_message}
use flutter_libnx.Plugins.FilePicker.{Folders, Candidate, select, picked}
use flutter_libnx.Plugins.Selected.{IsNewest, select-IsNewest}
use flutter_libnx.Plugins.Table.{map_get, map_set, is_key, HasUniqueKeys}
use flutter_libnx.Plugins.Storage.{unloaded, file_entries, load_store, save_store, save_flushed}
use flutter_libnx.Plugins.Durable.{save_store_durable, save_store_failed}
use flutter_libnx.Plugins.Handlers.{
  Plugins, load_prefs, load_secure, handle_secure_storage, handle_shared_preferences, is_setter,
}
use flutter_libnx.Plugins.Prefs.{restart, setter_survives, secure_write_answers_null}
use flutter_libnx.Plugins.Disk.{Disk, IsLawful, created}

abbrev Files : Type 0
Files = List ℕ → Option (List ℕ)

put : List ℕ → Option (List ℕ) → Files → Files
put p content w = λ q. if bytes_eq p q then content else w q

put_self : (p : List ℕ) (content : Option (List ℕ)) (w : Files) → put p content w p ≡ content
unfolding put
put_self p content w = rw (bytes_eq_refl p)

put_ne : (p q : List ℕ) (content : Option (List ℕ)) (w : Files) → q ≢ p → put p content w q ≡ w q
unfolding put
put_ne p q content w h = ground (arith, bytes_eq_iff p q)

abbrev memory : Disk
memory = record {
  World = Files;
  mkdir = λ d w. (created, w);
  read_file = λ p w. w p;
  create = λ p w. (true, put p (some []) w);
  write = λ p bytes w. (length bytes, put p (some bytes) w);
  close = λ p w. (true, w);
  remove = λ p w. put p none w;
  rename = λ p q w. (true, put q (w p) w);
}

memory-IsLawful : IsLawful memory
memory-IsLawful = record {
  mkdir_keeps = λ d p w. refl;
  create_keeps = λ q p w h. put_ne q p _ w h;
  create_failed = λ q p w h. cc;
  write_keeps = λ q p bytes w h. put_ne q p _ w h;
  close_keeps = λ q p w h. refl;
  written = λ p bytes w _ _ _. put_self p _ _;
  remove_keeps = λ q p w h. put_ne q p _ w h;
  removed = λ p w. inl (put_self p none w);
  renamed = λ p q w _. put_self q (w p) w;
  rename_failed = λ p q r w h. cc;
}

-- {"key": "flutter.a", "value": 7}
abbrev sample_args : StdValue
sample_args = map (
    entry (string (codes "key")) (string (codes "flutter.a"))
      (entry (string (codes "value")) (int 7) no_entries))

abbrev app : List ℕ
app = codes "demo"

abbrev start : Plugins memory
start = record {
  prefs = unloaded;
  secure = unloaded;
  world = λ p. none;
  has_handle = true;
  sent = [];
  opened = [];
}

abbrev table : Entries
table = entry (string (codes "flutter.a")) null (entry (string (codes "b")) (bool true) no_entries)

table-HasUniqueKeys : HasUniqueKeys table
unfolding map_get is_key bytes_eq
table-HasUniqueKeys = (refl, (refl, tt))

save_store_durable_example :
    load_store memory
      (codes "p")
      (save_store memory (codes "d") (codes "p") table (λ p. none)).1
      unloaded
    ≡ record { entries = table; loaded = true }
unfolding save_store save_flushed encode write_size
save_store_durable_example =
    save_store_durable memory memory-IsLawful (codes "d") (codes "p") table (λ p. none)
      (omega arith) refl refl

-- A card on which no file can be renamed.
abbrev no_rename : Disk
no_rename = record memory { rename = λ p q w. (false, w) }

no_rename-IsLawful : IsLawful no_rename
no_rename-IsLawful = record {
  mkdir_keeps = λ d p w. refl;
  create_keeps = λ q p w h. put_ne q p _ w h;
  create_failed = λ q p w h. cc;
  write_keeps = λ q p bytes w h. put_ne q p _ w h;
  close_keeps = λ q p w h. refl;
  written = λ p bytes w _ _ _. put_self p _ _;
  remove_keeps = λ q p w h. put_ne q p _ w h;
  removed = λ p w. inl (put_self p none w);
  renamed = λ p q w h. cc;
  rename_failed = λ p q r w h. refl;
}

save_store_failed_example :
    let w : Files = λ p. some (9 ∷ []) in
    let left = (save_store no_rename (codes "d") (codes "p") table w).1 in
    (left (codes "p") ≡ none) ⊎ (left (codes "p") ≡ some (9 ∷ []))
unfolding save_store encode write_size
save_store_failed_example =
    save_store_failed no_rename no_rename-IsLawful (codes "d") (codes "p") table
      (λ p. some (9 ∷ [])) refl

abbrev after_set : Bool × Plugins memory
after_set = handle_shared_preferences memory app (codes "setInt") sample_args start

setter_survives_example :
    map_get (codes "flutter.a") (load_prefs memory app (restart memory after_set.1)).prefs.entries
    ≡ (if bytes_eq (codes "flutter.a") (codes "flutter.a")
        then some (int 7)
        else map_get (codes "flutter.a") (load_prefs memory app start).prefs.entries)
unfolding is_setter bytes_eq map_get map_set is_key as_map load_prefs load_store save_store
    save_flushed file_entries encode encode_int write_size
setter_survives_example =
    setter_survives memory app (codes "setInt") (codes "flutter.a") sample_args (int 7) start
      memory-IsLawful refl refl refl (omega arith) refl refl (codes "flutter.a")

abbrev after_write : Bool × Plugins memory
after_write = handle_secure_storage memory app (codes "write") sample_args start

secure_write_answers_null_example :
    (after_write.1.sent ≡ sent_once true [] (encode_success null))
    × ((j : List ℕ)
        → map_get j after_write.1.secure.entries ≡ (
            if bytes_eq (codes "flutter.a") j
            then some (int 7)
            else map_get j (load_secure memory app start).secure.entries))
unfolding bytes_eq map_get is_key as_map
secure_write_answers_null_example =
    secure_write_answers_null memory app (codes "flutter.a") sample_args (int 7) start refl refl

abbrev ends_new : List ℕ → Bool
ends_new p = contains (codes "new") p

abbrev folders : Folders memory
folders = record {
  read_dir = λ d w. some (codes "." ∷ codes "old.TXT" ∷ codes "a.pdf" ∷ codes "new.txt" ∷ []);
  stat = λ p w.
      some
        (record { is_regular = true; size = pos 3; mtime = if ends_new p then pos 9 else pos 8 });
  to_string = λ n. codes "3";
}

abbrev unknown_call : List ℕ
unknown_call = codes "plugins.flutter.io/url_launcher"

abbrev dated : ℕ → Candidate
dated n = record { name = codes "a.pdf"; size = pos 3; mtime = pos n }

picked_newest :
    picked memory folders app (codes "\"allowedExtensions\":[\"txt\"]}") start.world
    ≡ codes
        "[[{\"path\":\"/switch/flutter_apps/demo/import/new.txt\",\"name\":\"new.txt\",\"size\":3,\"bytes\":null,\"identifier\":null}]]"
unfolding picked bytes_eq contains
picked_newest = refl

handle_plugin_message_answers_example :
    let r =
      handle_plugin_message memory app
        (λ url. true)
        folders
        unknown_call
        (7 ∷ 1 ∷ 97 ∷ 0 ∷ [])
        start in
    (r.0 ≡ true → (payload : List ℕ) × (r.1.sent ≡ sent_once true [] payload))
    × (r.0 ≡ false → r.1.sent ≡ [])
handle_plugin_message_answers_example =
    handle_plugin_message_answers memory app (λ url. true) folders unknown_call
      (7 ∷ 1 ∷ 97 ∷ 0 ∷ []) start

select-IsNewest_example :
    (c : Candidate) × (select false (dated 3 ∷ dated 5 ∷ dated 4 ∷ []) ≡ c ∷ [])
    × IsNewest c (dated 3 ∷ dated 5 ∷ dated 4 ∷ [])
select-IsNewest_example = select-IsNewest (dated 3) (dated 5 ∷ dated 4 ∷ [])
