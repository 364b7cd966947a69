-- ===== src/Posix/Positions.antt =====
-- Reads, writes and seeks of one handle leave every other handle's position alone.
use flutter_libnx.Prelude.{
  ℕ, ◌-◌, ◌≡◌, ◌≢◌, refl, ap, ◌∙◌, true, some, List, arith, ltb, if◌then◌else◌, if-both, Bool-cases,
  inl, inr, length, get_elem?, get_elem?-set_ne, ℤ, pos, ◌+ℤ◌, is_negative,
}
use flutter_libnx.Posix.Files.{
  VirtualFile, FileState, Libc, Call, done, failed, real_error, Whence, seek_set, seek_end, base_at,
  file_for, used_entry, is_file_handle, file_handle_base,
}
use flutter_libnx.Posix.Access.{
  set_offset, write_at, write_handle, wrap_write, move_to, wrap_lseek, seek_target, after_read,
  read_with_eof_fix, read_handle, wrap_read,
}
use flutter_libnx.Posix.Search.{option_cases}
use flutter_libnx.Posix.Closed.{file_for_cases, used_entry_lem}

-- The index of a handle.
file_for-index :
    (s : FileState) (fd i : ℕ) (f : VirtualFile)
    → file_for s fd ≡ some (i, f)
    → (is_file_handle fd ≡ true) × (fd - file_handle_base ≡ i)
unfolding file_for
file_for-index s fd i f h = elim (Bool-cases (is_file_handle fd)) [
  | inl handle ↦
      let (at, same, used) =
        used_entry_lem (fd - file_handle_base) i (get_elem? s.files (fd - file_handle_base)) f
          (rw handle at h) in
      (handle, same)
  | inr not_handle ↦ (let e = rw not_handle at h in cc)
]

module _ (fd other i : ℕ) (handle : is_file_handle fd ≡ true) (index : fd - file_handle_base ≡ i)
    (ne : other ≢ fd) where
  file_for-set_offset :
      (s : FileState) (f : VirtualFile) (offset : ℤ)
      → file_for (set_offset i f offset s) other ≡ file_for s other
  unfolding file_for is_file_handle
  file_for-set_offset s f offset = elim (Bool-cases (is_file_handle other)) [
    | inl h ↦
        let apart : i ≢ other - file_handle_base = λ e. ne (ground arith) in
        rw h (
          ap (used_entry (other - file_handle_base))
            (get_elem?-set_ne s.files (record f { offset = offset }) apart))
    | inr n ↦ rw n
  ]

  module _ (L : Libc) (f : VirtualFile) (s : FileState) (w : L.World) where
    write_at-other :
        (bytes : List ℕ) → file_for (write_at L i f bytes s w).1 other ≡ file_for s other
    unfolding write_at
    write_at-other bytes = elim (option_cases (L.real_write (base_at s f.base).real_fd bytes w).0) [
      | inr e ↦ rw (e, write_at)
      | inl (n, e) ↦
          rw (e, write_at)
            (elim (Bool-cases (ltb 0 n)) [
              | inl some_written ↦ rw some_written (file_for-set_offset s f (f.offset +ℤ pos n))
              | inr nothing ↦ rw nothing
            ])
    ]

    move_to-other : (r : Call ℤ) → file_for (move_to L i f r s).1 other ≡ file_for s other
    unfolding move_to
    move_to-other (failed e) = refl
    move_to-other (done target) = elim (Bool-cases (is_negative target)) [
      | inl n ↦ rw n
      | inr p ↦ rw p (file_for-set_offset s f target)
    ]

    after_read-other :
        (r : Call (List ℕ)) → file_for (after_read L i f r s) other ≡ file_for s other
    unfolding after_read
    after_read-other (failed e) = refl
    after_read-other (done bytes) = elim (Bool-cases (ltb 0 (length bytes))) [
      | inl some_read ↦ rw some_read (file_for-set_offset s f (f.offset +ℤ pos (length bytes)))
      | inr nothing ↦ rw nothing
    ]

  module _ (L : Libc) (f : VirtualFile) (s : FileState) (w : L.World) where
    write_handle-other :
        (bytes : List ℕ) → file_for (write_handle L i f bytes s w).1 other ≡ file_for s other
    unfolding write_handle
    write_handle-other bytes =
        let Kept : Call ℕ × FileState × L.World → Type 0 =
          λ r. file_for r.1 other ≡ file_for s other in
        let (end, w_end) = L.real_lseek (base_at s f.base).real_fd (pos 0) seek_end w in
        let (at, w_at) = L.real_lseek (base_at s f.base).real_fd f.offset seek_set w in
        if-both Kept f.append
          (write_at L i (record f { offset = end }) bytes (set_offset i f end s) w_end)
          (if is_negative at then (failed real_error, s, w_at) else write_at L i f bytes s w_at)
          (write_at-other L (record f { offset = end }) (set_offset i f end s) w_end bytes
            ∙ file_for-set_offset s f end)
          (if-both Kept (is_negative at) (failed real_error, s, w_at) (write_at L i f bytes s w_at)
            refl (write_at-other L f s w_at bytes))

    read_handle-other :
        (count : ℕ) → file_for (read_handle L i f count s w).1 other ≡ file_for s other
    unfolding read_handle
    read_handle-other count =
        elim (Bool-cases
          (is_negative (L.real_lseek (base_at s f.base).real_fd f.offset seek_set w).0)) [
            | inl lost ↦ rw lost
            | inr found ↦ rw found (
                after_read-other L f s w
                  (read_with_eof_fix L (base_at s f.base).real_fd count
                    (L.real_lseek (base_at s f.base).real_fd f.offset seek_set w).1).0)
          ]

module _ (L : Libc) (fd other : ℕ) (s : FileState) (w : L.World) (ne : other ≢ fd) where
  -- read, write and lseek on a descriptor leave what every other handle refers to, and its position,
  -- as it was.
  pub positions_lem :
      (count : ℕ) (bytes : List ℕ) (offset : ℤ) (whence : Whence)
      → (file_for (wrap_read L fd count s w).1 other ≡ file_for s other)
        × (file_for (wrap_write L fd bytes s w).1 other ≡ file_for s other)
        × (file_for (wrap_lseek L fd offset whence s w).1 other ≡ file_for s other)
  unfolding wrap_read wrap_write wrap_lseek
  positions_lem count bytes offset whence = elim (file_for_cases (file_for s fd)) [
    | inr e ↦ (rw (e, wrap_read), rw (e, wrap_write), rw (e, wrap_lseek))
    | inl ((i, f), e) ↦
        let (handle, index) = file_for-index s fd i f e in
        (
          rw (e, wrap_read) (read_handle-other fd other i handle index ne L f s w count),
          rw (e, wrap_write) (write_handle-other fd other i handle index ne L f s w bytes),
          rw (e, wrap_lseek)
              (move_to-other fd other i handle index ne L f s w
                (seek_target L f offset whence s w)),
        )
  ]
