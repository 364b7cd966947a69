-- ===== src/Posix/Restored.antt =====
-- pread leaves the position of its handle.
use flutter_libnx.Prelude.{
  ℕ, ◌+◌, ◌-◌, ◌<◌, ◌≡◌, refl, ap, true, false, some, List, arith, ltb, Bool-cases, inl, inr,
  length, get_elem?, get_elem?-set_self, ℤ, pos, ◌+ℤ◌, is_negative,
}
use flutter_libnx.Posix.Files.{
  VirtualFile, FileState, Libc, Call, done, failed, einval, seek_set, seek_cur, base_at, file_for,
  used_entry, is_file_handle, file_handle_base,
}
use flutter_libnx.Posix.Access.{
  set_offset, move_to, wrap_lseek, seek_target, after_read, read_with_eof_fix, read_handle,
  wrap_read,
}
use flutter_libnx.Posix.At.{read_and_restore, pread}
use flutter_libnx.Posix.Closed.{used_entry_lem, file_for_lem}

module _ (fd i : ℕ) (f : VirtualFile) where
  -- The descriptor is the handle `f` at `i`, with this position.
  abbrev pub Stands : FileState → ℤ → Type 0
  Stands s offset = file_for s fd ≡ some (i, record f { offset = offset })

  Stands-set_offset :
      (s : FileState) (before after : ℤ)
      → Stands s before
      → Stands (set_offset i (record f { offset = before }) after s) after
  unfolding file_for used_entry
  Stands-set_offset s before after h = elim (Bool-cases (is_file_handle fd)) [
    | inr not_handle ↦ (let e = rw not_handle at h in cc)
    | inl handle ↦
        let (at, same, used) =
          used_entry_lem (fd - file_handle_base) i (get_elem? s.files (fd - file_handle_base))
            (record f { offset = before }) (rw handle at h) in
        let inside : i < length s.files =
          (file_for_lem s fd i (record f { offset = before }) h).0 in
        rw
          (
            handle,
            same,
            get_elem?-set_self s.files i (record f { offset = after }) inside,
            used_entry,
            used,
          )
          (ap (λ (k : ℕ). some (k, record f { in_use = true; offset = after })) same)
  ]

  module _ (L : Libc) where
    -- A seek to a position that is not negative.
    lseek-Stands :
        (s : FileState) (w : L.World) (before target : ℤ)
        → Stands s before
        → is_negative target ≡ false
        → (wrap_lseek L fd target seek_set s w).0 ≡ done target
          × Stands (wrap_lseek L fd target seek_set s w).1 target
    unfolding wrap_lseek move_to seek_target
    lseek-Stands s w before target h p =
        (rw (h, wrap_lseek, p) refl, rw (h, wrap_lseek, p) (Stands-set_offset s before target h))

    after_read-Stands :
        (s : FileState) (before : ℤ) (r : Call (List ℕ))
        → Stands s before
        → (after : ℤ) × Stands (after_read L i (record f { offset = before }) r s) after
    unfolding after_read
    after_read-Stands s before (failed e) h = (before, h)
    after_read-Stands s before (done bytes) h = elim (Bool-cases (ltb 0 (length bytes))) [
      | inl some_read ↦
          let after = before +ℤ pos (length bytes) in
          (after, rw some_read (Stands-set_offset s before after h))
      | inr nothing ↦ (before, rw nothing h)
    ]

    read-Stands :
        (s : FileState) (w : L.World) (before : ℤ) (count : ℕ)
        → Stands s before
        → (after : ℤ) × Stands (wrap_read L fd count s w).1 after
    unfolding wrap_read read_handle
    read-Stands s w before count h =
        let fd' = (base_at s f.base).real_fd in
        elim (Bool-cases (is_negative (L.real_lseek fd' before seek_set w).0)) [
          | inl lost ↦ (before, rw (h, wrap_read, lost) h)
          | inr found ↦
              let (after, e) =
                after_read-Stands s before
                  (read_with_eof_fix L fd' count (L.real_lseek fd' before seek_set w).1).0 h in
              (after, rw (h, wrap_read, found) e)
        ]

    tell-Stands :
        (s : FileState) (w : L.World) (n : ℕ)
        → Stands s (pos n)
        → (wrap_lseek L fd (pos 0) seek_cur s w).0 ≡ done (pos n)
          × Stands (wrap_lseek L fd (pos 0) seek_cur s w).1 (pos n)
    unfolding wrap_lseek move_to seek_target
    tell-Stands s w n h =
        let here : n + 0 ≡ n = omega arith in
        (
          rw (h, wrap_lseek, here) refl,
          rw (h, wrap_lseek, here) (Stands-set_offset s (pos n) (pos n) h),
        )

    -- A seek to a position below 0.
    lost-Stands :
        (s : FileState) (w : L.World) (before target : ℤ)
        → Stands s before
        → is_negative target ≡ true
        → (wrap_lseek L fd target seek_set s w).0 ≡ failed einval
          × Stands (wrap_lseek L fd target seek_set s w).1 before
    unfolding wrap_lseek move_to seek_target
    lost-Stands s w before target h p = (rw (h, wrap_lseek, p) refl, rw (h, wrap_lseek, p) h)

    restore-Stands :
        (s : FileState) (w : L.World) (before : ℤ) (count n : ℕ)
        → Stands s before
        → Stands (read_and_restore L fd count (pos n) s w).1 (pos n)
    unfolding read_and_restore
    restore-Stands s w before count n h =
        let (after, e) = read-Stands s w before count h in
        let (bytes, s', w') = wrap_read L fd count s w in
        (lseek-Stands s' w' after (pos n) e refl).1

    -- pread on a file handle whose position is not negative leaves the handle and its position as they
    -- were, whether the seek or the read fails or not, and wherever it reads.
    pub pread-Stands :
        (s : FileState) (w : L.World) (count n : ℕ) (offset : ℤ)
        → Stands s (pos n)
        → Stands (pread L fd count offset s w).1 (pos n)
    unfolding pread
    pread-Stands s w count n offset h =
        let (told, stands) = tell-Stands s w n h in
        let s' = (wrap_lseek L fd (pos 0) seek_cur s w).1 in
        let w' = (wrap_lseek L fd (pos 0) seek_cur s w).2 in
        elim (Bool-cases (is_negative offset)) [
          | inl negative ↦
              let (e, kept) = lost-Stands s' w' (pos n) offset stands negative in
              rw (told, pread, e) kept
          | inr valid ↦
              let (e, moved) = lseek-Stands s' w' (pos n) offset stands valid in
              rw (told, pread, e)
                (restore-Stands (wrap_lseek L fd offset seek_set s' w').1
                  (wrap_lseek L fd offset seek_set s' w').2 offset count n moved)
        ]
