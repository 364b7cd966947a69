-- ===== src/Posix/Opened.antt =====
-- open keeps the handle tables well-formed.
use flutter_libnx.Prelude.{
  ℕ, ◌<◌, ◌≡◌, ◌≢◌, refl, sym, ap, Bool, true, false, ◌&&◌, Option, none, some, List, arith, ◌==◌,
  Bool-cases, inl, inr, set, pos,
}
use flutter_libnx.Posix.Files.{
  BaseFile, FileState, Flags, Libc, free_slot, base_at, attach, open_real, open_new, open_shared,
  wrap_open, find_base, find_free_base, find_free_file,
}
use flutter_libnx.Posix.Counted.{
  IsCounted, IsWellFormed, IsCounted-next, refs_of, used_slot, IsWellFormed-freed, get_or-set_self,
  get_or-set_ne, eq_cases, count_used, count_free,
}
use flutter_libnx.Posix.Search.{
  find_free_file_lem, find_free_base_lem, find_base-some, find_base-none, option_cases,
}
use flutter_libnx.Posix.Occupied.{occupy-IsWellFormed}

module _ (L : Libc) where
  -- The end of an open: a handle on the base, or the base is given up if no handle is on it.
  attach-IsWellFormed :
      (b : ℕ) (append : Bool) (s : FileState) (w : L.World)
      → IsCounted s
      → (base_at s b).in_use ≡ true
      → ((c : ℕ) → b ≢ c → (base_at s c).in_use ≡ true → 0 < (base_at s c).refs)
      → IsWellFormed (attach L b append s w).1
  unfolding attach
  attach-IsWellFormed b append s w counted used held =
      elim (option_cases (find_free_file s.files)) [
        | inl (i, e) ↦
            let (inside, free) = find_free_file_lem s i e in
            rw (e, attach)
              (occupy-IsWellFormed s i
                (record { in_use = true; base = b; offset = pos 0; append = append }) counted inside
                free refl used held)
        | inr e ↦
            rw (e, attach)
              (elim (Bool-cases ((base_at s b).refs == 0)) [
                | inl last ↦ rw last (
                    IsWellFormed-freed s b (record (base_at s b) { in_use = false }) s.files
                      (used_slot s.bases b used) counted (λ c ne. refl) refl
                      (let refs =
                          count_used (base_at s b) (refs_of b s.files) (counted.counted b) used in
                        let zero_refs : (base_at s b).refs ≡ 0 = ground arith in omega arith)
                      held)
                | inr more ↦ rw more (
                  counted,
                  λ c used_c. elim (eq_cases b c) [
                    | inl same ↦ rw (← same) (ground arith)
                    | inr ne ↦ held c ne used_c
                  ],
                )
              ])
      ]

  open_shared-IsWellFormed :
      (b : ℕ) (flags : Flags) (s : FileState) (w : L.World)
      → IsWellFormed s
      → (base_at s b).in_use ≡ true
      → IsWellFormed (open_shared L b flags s w).1
  unfolding open_shared
  open_shared-IsWellFormed b flags s w formed used = elim (Bool-cases (flags.creat && flags.excl)) [
    | inl exclusive ↦ rw exclusive formed
    | inr shared ↦
        rw shared (attach-IsWellFormed b flags.append s _ formed.0 used (λ c ne. formed.1 c))
  ]

  open_new-IsWellFormed :
      (path : List ℕ) (flags : Flags) (mode : ℕ) (s : FileState) (w : L.World)
      → IsWellFormed s
      → find_base path s.bases ≡ none
      → IsWellFormed (open_new L path flags mode s w).1
  unfolding open_new
  open_new-IsWellFormed path flags mode s w formed new =
      elim (option_cases (open_real L path flags mode w).0) [
        | inr refused ↦ rw (refused, open_new) formed
        | inl (fd, opened) ↦
            rw (opened, open_new)
              (elim (option_cases (find_free_base s.bases)) [
                | inr full ↦ rw full formed
                | inl (b, e) ↦
                    let (inside, free) = find_free_base_lem s b e in
                    let base : BaseFile = record {
                      in_use = true;
                      path = path;
                      real_fd = fd;
                      refs = 0;
                    } in
                    rw e (
                      attach-IsWellFormed b flags.append (record s { bases = set s.bases b base }) _
                        (IsCounted-next s b base s.files inside formed.0 (λ c ne. refl)
                          (sym (
                            count_free (base_at s b) (refs_of b s.files) (formed.0.counted b) free))
                          (λ u c ne used. find_base-none path s new c used))
                        (ap (λ (x : BaseFile). x.in_use)
                          (get_or-set_self s.bases b base free_slot inside))
                        (λ c ne. rw (get_or-set_ne s.bases b c base free_slot ne) (formed.1 c)))
              ])
      ]

  -- open keeps the tables well-formed, on every outcome.
  pub wrap_open-IsWellFormed :
      (path : Option (List ℕ)) (flags : Flags) (mode : ℕ) (s : FileState) (w : L.World)
      → IsWellFormed s
      → IsWellFormed (wrap_open L path flags mode s w).1
  unfolding wrap_open
  wrap_open-IsWellFormed none flags mode s w formed = formed
  wrap_open-IsWellFormed (some path) flags mode s w formed =
      elim (option_cases (find_base path s.bases)) [
        | inl (b, e) ↦
            rw (e, wrap_open)
              (open_shared-IsWellFormed b flags s w formed (find_base-some path s b e))
        | inr e ↦ rw (e, wrap_open) (open_new-IsWellFormed path flags mode s w formed e)
      ]
