-- ===== src/Libraries/Spaces.antt =====
-- The tables as one name space.
use flutter_libnx.Prelude.{
  ℕ, ◌≡◌, refl, true, none, some, List, [], ◌∷◌, ◌++◌, Bool-cases, inl, inr, bytes_eq,
  bytes_eq_comm,
}
use flutter_libnx.Libraries.Table.{StaticSymbol, linear}
use flutter_libnx.Libraries.Order.{is_ascending}
use flutter_libnx.Libraries.Search.{lookup-linear}
use flutter_libnx.Libraries.Resolve.{
  Symbols, wakeup_name, process_symbols, or_next, lookup_mpv, search_all, dl_sym, sqlite3_marker,
  mpv_marker,
}

module _ (S : Symbols) where
  linear-append :
      (xs ys : List StaticSymbol) (name : List ℕ)
      → linear (xs ++ ys) name ≡ or_next (linear xs name) (linear ys name)
  unfolding linear
  linear-append [] ys name = refl
  linear-append (x ∷ xs) ys name = elim (Bool-cases (bytes_eq x.name name)) [
    | inl hit ↦ rw hit
    | inr miss ↦ rw miss (linear-append xs ys name)
  ]

  -- libmpv's symbols, with the shim in place of mpv_set_wakeup_callback.
  abbrev pub mpv_space : List StaticSymbol
  mpv_space = record { name = wakeup_name; address = S.wakeup_shim } ∷ S.mpv

  module _ (name : List ℕ) (sorted_sqlite3 : is_ascending S.sqlite3 ≡ true)
      (sorted_mpv : is_ascending S.mpv ≡ true) where
    lookup_mpv_lem : lookup_mpv S name ≡ linear mpv_space name
    unfolding lookup_mpv linear
    lookup_mpv_lem = rw (bytes_eq_comm name wakeup_name, lookup-linear S.mpv name sorted_mpv)

    -- With tables whose names ascend strictly, dl_sym resolves a name as a search from the start would:
    -- in sqlite3's symbols or in libmpv's, for their handles, where the shim stands in place of
    -- mpv_set_wakeup_callback; and for the process's handle in the allocators, then sqlite3's symbols,
    -- then libmpv's.
    pub dl_sym_lem :
        (dl_sym S (some sqlite3_marker) (some name) ≡ linear S.sqlite3 name)
        × (dl_sym S (some mpv_marker) (some name) ≡ linear mpv_space name)
        × (dl_sym S none (some name) ≡ linear (process_symbols S ++ (S.sqlite3 ++ mpv_space)) name)
    unfolding dl_sym search_all
    dl_sym_lem =
        let sqlite = lookup-linear S.sqlite3 name sorted_sqlite3 in
        (
          sqlite,
          lookup_mpv_lem,
          rw (
            sqlite,
            lookup_mpv_lem,
            linear-append (process_symbols S) (S.sqlite3 ++ mpv_space) name,
            linear-append S.sqlite3 mpv_space name,
          ),
        )
