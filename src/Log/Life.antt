-- ===== src/Log/Life.antt =====
-- The log from LogInit to LogShutdown, any number of times.
use flutter_libnx.Prelude.{
  ℕ, ◌+◌, ◌≡◌, refl, sym, ap, ◌∙◌, Bool, true, false, not, ◌||◌, Option, none, some, List, [], ◌∷◌,
  if◌then◌else◌, if-both, arith, ltb, length, codes,
}
use flutter_libnx.Log.Sinks.{
  Level, info, warning, rank, LogConfig, System, Log, is_some, ensure_socket, close_socket,
  connect_with_timeout,
}
use flutter_libnx.Log.Lines.{
  Sending, all_sent, broken, out_of_fuel, send_loop, sent_line, send_line, put_line, line_text,
  log_write, open_nxlink, open_remote, open_log_file, log_ready, log_init, trim_line, vm_log,
}
use flutter_libnx.Log.Balance.{
  held, Holds, IsKept, ensure_socket-Ensured, connect_with_timeout-Connects,
}

module _ {S : System} where
  -- A line is written: the sinks stay, or the connection is given up.
  abbrev pub Writes : Log S → Log S → Type 0
  Writes l l' =
      IsKept 0 l'
      × (l'.initialized ≡ l.initialized)
      × (l'.nxlink_fd ≡ l.nxlink_fd)
      × (l.remote_fd ≡ none → l'.remote_fd ≡ none)

  same-Writes : (l : Log S) → IsKept 0 l → Writes l l
  same-Writes l h = (h, refl, refl, λ e. e)

  sent_line-Writes :
      (fd : ℕ) (r : Sending × List ℕ × S.World) (l : Log S)
      → l.remote_fd ≡ some fd
      → IsKept 0 l
      → Writes l (sent_line S fd r l)
  unfolding sent_line close_socket
  sent_line-Writes fd (all_sent, sent, w) l e h = same-Writes l h
  sent_line-Writes fd (broken, sent, w) l e (h, s) =
      let k = h ∙ ap (λ (x : Option ℕ). l.closed + (held l.nxlink_fd + (held x + 0))) e in
      ((omega arith, s), refl, refl, λ q. refl)
  sent_line-Writes fd (out_of_fuel, sent, w) l e h = same-Writes l h

  send_line-Writes :
      (text : List ℕ) (fd : Option ℕ) (l : Log S)
      → l.remote_fd ≡ fd
      → IsKept 0 l
      → Writes l (send_line S text fd l)
  unfolding send_line
  send_line-Writes text none l e h = same-Writes l h
  send_line-Writes text (some fd) l e h =
      sent_line-Writes fd (send_loop S (length text) fd text [] l.world) l e h

  pub log_write-Writes :
      (level : Level) (file : List ℕ) (line : ℕ) (message : List ℕ) (l : Log S)
      → IsKept 0 l
      → Writes l (log_write S level file line message l)
  unfolding log_write put_line
  log_write-Writes level file line message l h =
      let text = line_text S level file line message in
      if-both (Writes l) (not l.initialized || ltb (rank level) (rank l.config.min_level)) _ _
        (same-Writes l h) (send_line-Writes text l.remote_fd (put_line S text l) refl h)

  pub vm_log-Writes : (text : Option (List ℕ)) (l : Log S) → IsKept 0 l → Writes l (vm_log S text l)
  unfolding vm_log
  vm_log-Writes none l h = same-Writes l h
  vm_log-Writes (some text) l h = trimmed (trim_line text)
    where
      trimmed :
          (cs : List ℕ)
          → Writes l (elim cs [ [] ↦ l | c ∷ cs ↦ log_write S info (codes "dart-vm") 0 (c ∷ cs) l ])
      trimmed [] = same-Writes l h
      trimmed (c ∷ cs) = log_write-Writes info (codes "dart-vm") 0 (c ∷ cs) l h

  -- LogInit, from a log that holds nothing.
  abbrev pub IsEmpty : Log S → Type 0
  IsEmpty l = (l.nxlink_fd ≡ none) × (l.remote_fd ≡ none)

  counted :
      (l : Log S) (fd : Option ℕ)
      → l.nxlink_fd ≡ none
      → IsKept 0 l
      → Holds 0 fd l.remote_fd (if is_some fd then l.opened + 1 else l.opened) l.closed
  counted l none e (h, s) =
      h ∙ ap (λ (x : Option ℕ). l.closed + (held x + (held l.remote_fd + 0))) e
  counted l (some fd) e (h, s) =
      let k = h ∙ ap (λ (x : Option ℕ). l.closed + (held x + (held l.remote_fd + 0))) e in
      omega arith

  open_nxlink-IsKept :
      (wanted : Bool) (l : Log S)
      → IsEmpty l
      → IsKept 0 l
      → IsKept 0 (open_nxlink S wanted l) × ((open_nxlink S wanted l).remote_fd ≡ none)
  unfolding open_nxlink
  open_nxlink-IsKept wanted l (bare, free) h =
      let (ok, l') = ensure_socket S l in
      let (kept, same) = ensure_socket-Ensured l h in
      let (fd, w) = S.nxlink_stdio l'.world in
      let P : Log S → Type 0 = λ m. IsKept 0 m × (m.remote_fd ≡ none) in
      if-both P (not wanted) _ _ (h, free)
        (if-both P ok _ _ ((counted l' fd (same.0 ∙ bare) kept, kept.1), same.1 ∙ free)
          (kept, same.1 ∙ free))

  open_remote-IsKept :
      (host : Option (List ℕ)) (port : ℕ) (l : Log S)
      → l.remote_fd ≡ none
      → IsKept 0 l
      → IsKept 0 (open_remote S host port l)
  unfolding open_remote
  open_remote-IsKept none port l free h = h
  open_remote-IsKept (some host) port l free h =
      let (ok, l') = ensure_socket S l in
      let (kept, same) = ensure_socket-Ensured l h in
      let (fd, l'') = connect_with_timeout S host port 2000 l' in
      let (after, same') = connect_with_timeout-Connects host port 2000 l' kept in
      let e : l''.remote_fd ≡ none = same'.1 ∙ same.1 ∙ free in
      let k =
        after.0 ∙ ap (λ (x : Option ℕ). l''.closed + (held l''.nxlink_fd + (held x + held fd))) e in
      if-both (IsKept 0) ok _ _ (omega arith, after.1) kept

  open_log_file-IsKept :
      (path : Option (List ℕ)) (l : Log S) → IsKept 0 l → IsKept 0 (open_log_file S path l)
  unfolding open_log_file
  open_log_file-IsKept none l h = h
  open_log_file-IsKept (some path) l h = h

  -- What holds between the calls: before LogInit there is no sink.
  abbrev pub IsReady : Log S → Type 0
  IsReady l = IsKept 0 l × (l.initialized ≡ false → IsEmpty l)

  pub written-IsReady :
      (l l' : Log S) → Writes l l' → (l.initialized ≡ false → IsEmpty l) → IsReady l'
  written-IsReady l l' (kept, init, nx, re) empty =
      (kept, λ e. (let (bare, free) = empty (sym init ∙ e) in (nx ∙ bare, re free)))

  log_ready-IsReady :
      (ready fallback : List ℕ) (l : Log S)
      → l.initialized ≡ true
      → IsKept 0 l
      → IsReady (log_ready S ready fallback l)
  unfolding log_ready
  log_ready-IsReady ready fallback l on h =
      let l' = log_write S info (codes "log.cpp") 215 ready l in
      let first = log_write-Writes info (codes "log.cpp") 215 ready l h in
      let never : l.initialized ≡ false → IsEmpty l = λ e. cc in
      let after = written-IsReady l l' first never in
      if-both IsReady l.fell_back _ _
        (written-IsReady l' (log_write S warning (codes "log.cpp") 223 fallback l')
          (log_write-Writes warning (codes "log.cpp") 223 fallback l' after.0) after.1)
        after

  pub log_init-IsReady :
      (config : LogConfig) (ready fallback : List ℕ) (l : Log S)
      → l.initialized ≡ false
      → IsReady l
      → IsReady (log_init S config ready fallback l).1
  unfolding log_init
  log_init-IsReady config ready fallback l off (kept, empty) =
      let l' : Log S = record l { config = config } in
      let (first, free) = open_nxlink-IsKept config.to_nxlink l' (empty off) kept in
      let a = open_nxlink S config.to_nxlink l' in
      let second = open_remote-IsKept config.remote_host config.remote_port a free first in
      let b = open_remote S config.remote_host config.remote_port a in
      let third = open_log_file-IsKept config.file_path b second in
      let c = open_log_file S config.file_path b in
      let d : Log S = record c { initialized = true } in
      let never : true ≡ false → IsEmpty d = λ e. cc in
      if-both IsReady _ _ _ (log_ready-IsReady ready fallback d refl third) (third, never)
