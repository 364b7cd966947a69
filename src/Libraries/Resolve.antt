-- ===== src/Libraries/Resolve.antt =====
-- flutter_libnx_dl_open and flutter_libnx_dl_sym. An address is a number.
use flutter_libnx.Prelude.{
  ℕ, ◌==◌, Bool, true, ◌||◌, Option, none, some, List, [], ◌∷◌, ◌++◌, if◌then◌else◌, codes,
  bytes_eq, begins_with,
}
use flutter_libnx.Libraries.Table.{StaticSymbol, Found, found, null, linear, lookup}

-- What the generated files and the linker give: the two generated tables, and the addresses of the C
-- library's allocators and of the shim of this file.
pub record Symbols : Type 0 where
  pub sqlite3 : List StaticSymbol
  pub mpv : List StaticSymbol
  pub calloc : ℕ
  pub free : ℕ
  pub malloc : ℕ
  pub realloc : ℕ
  pub wakeup_shim : ℕ

-- The handles that dl_open gives out, and those that are none of them.
pub data Handle : Type 0 where
  sqlite3_marker mpv_marker unknown_handle : Handle

-- EnsureLocklessDefaultVfs: whether it has run, and which VFS it has made the default, in order.
pub record Vfs : Type 0 where
  pub done : Bool
  pub registered : List ℕ

abbrev pub wakeup_name : List ℕ
wakeup_name = codes "mpv_set_wakeup_callback"

-- The result of the first search, or of the second where the first gave nullptr.
abbrev pub or_next : Found → Found → Found
or_next null next = next
or_next r next = r

-- What follows the last '/', if there is one: `strrchr(path, '/')`.
unfoldable pub base_name : List ℕ → List ℕ → List ℕ
base_name base [] = base
base_name base (c ∷ rest) = if c == b'/' then base_name rest rest else base_name base rest

module _ (S : Symbols) where
  abbrev pub process_symbols : List StaticSymbol
  process_symbols =
      record { name = codes "calloc"; address = S.calloc }
      ∷ record { name = codes "free"; address = S.free }
      ∷ record { name = codes "malloc"; address = S.malloc }
      ∷ record { name = codes "realloc"; address = S.realloc }
      ∷ []

  abbrev pub lookup_process : List ℕ → Found
  lookup_process name = linear process_symbols name

  abbrev pub lookup_sqlite3 : List ℕ → Found
  lookup_sqlite3 name = lookup S.sqlite3 name

  abbrev pub lookup_mpv_raw : List ℕ → Found
  lookup_mpv_raw name = lookup S.mpv name

  unfoldable pub lookup_mpv : List ℕ → Found
  lookup_mpv name = if bytes_eq name wakeup_name then found S.wakeup_shim else lookup_mpv_raw name

  unfoldable pub search_all : List ℕ → Found
  unfolding lookup_mpv
  search_all name = or_next (lookup_process name) (or_next (lookup_sqlite3 name) (lookup_mpv name))

  -- flutter_libnx_dl_sym; a handle or a name that is nullptr is `none`.
  unfoldable pub dl_sym : Option Handle → Option (List ℕ) → Found
  unfolding search_all lookup_mpv
  dl_sym handle none = null
  dl_sym none (some name) = search_all name
  dl_sym (some sqlite3_marker) (some name) = lookup_sqlite3 name
  dl_sym (some mpv_marker) (some name) = lookup_mpv name
  dl_sym (some unknown_handle) (some name) = null

  -- sqlite3_vfs_find, reached through the table, for the name "unix-none".
  module _ (vfs_find : List ℕ → Option ℕ) where
    unfoldable pub register : Option ℕ → Vfs → Vfs
    register none v = v
    register (some vfs) v = record v { registered = v.registered ++ (vfs ∷ []) }

    -- `find == nullptr || reg == nullptr` ends it.
    unfoldable pub register_none : Found → Found → Vfs → Vfs
    unfolding register
    register_none (found find) (found reg) v = register (vfs_find (codes "unix-none")) v
    register_none find reg v = v

    unfoldable pub ensure_lockless_default_vfs : Vfs → Vfs
    unfolding register_none
    ensure_lockless_default_vfs v =
        if v.done
        then v
        else register_none (lookup_sqlite3 (codes "sqlite3_vfs_find"))
            (lookup_sqlite3 (codes "sqlite3_vfs_register")) (record v { done = true })

    unfoldable pub open_base : List ℕ → Vfs → Option Handle × Vfs
    unfolding ensure_lockless_default_vfs
    open_base base v =
        if begins_with (codes "libsqlite3.so") base || begins_with (codes "sqlite3.so") base
        then (some sqlite3_marker, ensure_lockless_default_vfs v)
        else if begins_with (codes "libmpv.so") base || begins_with (codes "mpv.so") base
        then (some mpv_marker, v)
        else (none, v)

    -- flutter_libnx_dl_open; nullptr is `none`.
    unfoldable pub dl_open : Option (List ℕ) → Vfs → Option Handle × Vfs
    unfolding open_base base_name
    dl_open none v = (none, v)
    dl_open (some path) v = open_base (base_name path path) v
