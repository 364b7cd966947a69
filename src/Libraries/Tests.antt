-- ===== src/Libraries/Tests.antt =====
-- Small tables, and the theorems about the libraries at concrete inputs.
use flutter_libnx.Prelude.{
  ◌≡◌, refl, true, false, none, some, List, [], ◌∷◌, ◌++◌, codes, begins_with, bytes_eq,
}
use flutter_libnx.Libraries.Table.{StaticSymbol, linear, lookup, less}
use flutter_libnx.Libraries.Order.{is_ascending}
use flutter_libnx.Libraries.Search.{lookup-linear}
use flutter_libnx.Libraries.Resolve.{
  Symbols, sqlite3_marker, mpv_marker, process_symbols, dl_sym, dl_open, open_base, base_name,
}
use flutter_libnx.Libraries.Spaces.{mpv_space, dl_sym_lem}

abbrev sqlite_table : List StaticSymbol
sqlite_table =
    record { name = codes "sqlite3_close"; address = 11 }
    ∷ record { name = codes "sqlite3_open"; address = 12 }
    ∷ record { name = codes "sqlite3_vfs_find"; address = 13 }
    ∷ record { name = codes "sqlite3_vfs_register"; address = 14 }
    ∷ []

abbrev mpv_table : List StaticSymbol
mpv_table =
    record { name = codes "mpv_create"; address = 21 }
    ∷ record { name = codes "mpv_set_wakeup_callback"; address = 22 }
    ∷ []

abbrev symbols : Symbols
symbols = record {
  sqlite3 = sqlite_table;
  mpv = mpv_table;
  calloc = 1;
  free = 2;
  malloc = 3;
  realloc = 4;
  wakeup_shim = 5;
}

sqlite_ascending : is_ascending sqlite_table ≡ true
unfolding is_ascending less
sqlite_ascending = refl

mpv_ascending : is_ascending mpv_table ≡ true
unfolding is_ascending less
mpv_ascending = refl

lookup-linear_example :
    lookup sqlite_table (codes "sqlite3_open") ≡ linear sqlite_table (codes "sqlite3_open")
lookup-linear_example = lookup-linear sqlite_table (codes "sqlite3_open") sqlite_ascending

dl_sym_lem_example :
    (dl_sym symbols (some sqlite3_marker) (some (codes "mpv_set_wakeup_callback"))
      ≡ linear sqlite_table (codes "mpv_set_wakeup_callback"))
    × (dl_sym symbols (some mpv_marker) (some (codes "mpv_set_wakeup_callback"))
        ≡ linear (mpv_space symbols) (codes "mpv_set_wakeup_callback"))
    × (dl_sym symbols none (some (codes "mpv_set_wakeup_callback"))
        ≡ linear
            (process_symbols symbols ++ (sqlite_table ++ mpv_space symbols))
            (codes "mpv_set_wakeup_callback"))
dl_sym_lem_example =
    dl_sym_lem symbols (codes "mpv_set_wakeup_callback") sqlite_ascending mpv_ascending

-- A path with a version behind the library's name opens sqlite3 and makes its VFS the default.
opens_sqlite :
    dl_open symbols
      (λ name. some 7)
      (some (codes "lib/libsqlite3.so.0"))
      (record { done = false; registered = [] })
    ≡ (some sqlite3_marker, record { done = true; registered = 7 ∷ [] })
unfolding dl_open open_base base_name begins_with lookup bytes_eq
opens_sqlite = refl
