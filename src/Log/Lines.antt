-- ===== src/Log/Lines.antt =====
-- The lines of the log: LogWrite and what it calls, LogInit, LogShutdown and flutter_libnx_vm_log.
use flutter_libnx.Prelude.{
  ℕ, zero, suc, ◌+◌, Bool, true, false, not, ◌&&◌, ◌||◌, Option, none, some, List, [], ◌∷◌, ◌++◌,
  if◌then◌else◌, ltb, ◌==◌, take, drop, length, codes,
}
use flutter_libnx.Log.Sinks.{
  Level, debug, info, warning, error, rank, LogConfig, System, Log, is_some, ensure_socket,
  close_socket, connect_with_timeout, slash, make_parent_dirs,
}

abbrev pub level_name : Level → List ℕ
level_name debug = codes "DEBUG"
level_name info = codes "INFO "
level_name warning = codes "WARN "
level_name error = codes "ERROR"

abbrev pub backslash : ℕ
backslash = 92

-- What stands behind the last `c`: strrchr, plus one.
unfoldable pub behind_last : ℕ → List ℕ → Option (List ℕ)
behind_last c [] = none
behind_last c (x ∷ xs) =
    let rest = behind_last c xs in
    elim rest [ some r ↦ some r | none ↦ if x == c then some xs else none ]

unfoldable pub base_name : List ℕ → List ℕ
unfolding behind_last
base_name path = elim (behind_last slash path) [
  | some name ↦ name
  | none ↦ elim (behind_last backslash path) [ some name ↦ name | none ↦ path ]
]

-- The loop around send() is over because all was sent, because the connection is gone, or because its
-- fuel was used up.
pub data Sending : Type 0 where
  all_sent broken out_of_fuel : Sending

-- A string that is no null pointer.
abbrev is_given : Option (List ℕ) → Bool
is_given none = false
is_given (some text) = true

module _ (S : System) where
  -- snprintf into message[1024] and line_buffer[1200].
  unfoldable pub line_text : Level → List ℕ → ℕ → List ℕ → List ℕ
  unfolding base_name
  line_text level file line message = take 1199 (
      codes "[flutter-libnx]["
      ++ (level_name level
          ++ (codes "] "
              ++ (take 1023 message
                  ++ (codes " ("
                      ++ (base_name file
                          ++ (codes ":" ++ (S.decimal line ++ (codes ")" ++ (10 ∷ []))))))))))

  -- The loop: what is left to send, and what was sent.
  unfoldable pub send_loop : ℕ → ℕ → List ℕ → List ℕ → S.World → Sending × List ℕ × S.World
  send_loop fuel fd [] sent w = (all_sent, sent, w)
  send_loop zero fd (b ∷ bs) sent w = (out_of_fuel, sent, w)
  send_loop (suc fuel) fd (b ∷ bs) sent w =
      let (n, w') = S.send fd (b ∷ bs) w in
      elim n [
        | zero ↦ (broken, sent, w')
        | suc k ↦ send_loop fuel fd (drop (suc k) (b ∷ bs)) (sent ++ take (suc k) (b ∷ bs)) w'
      ]

  -- The connection is given up.
  abbrev pub drop_remote : ℕ → Log S → Log S
  drop_remote fd l = (let l' = close_socket S fd l in record l' { remote_fd = none })

  unfoldable pub sent_line : ℕ → Sending × List ℕ × S.World → Log S → Log S
  unfolding close_socket
  sent_line fd (all_sent, sent, w) l = record l { world = w }
  sent_line fd (broken, sent, w) l = drop_remote fd (record l { world = w })
  sent_line fd (out_of_fuel, sent, w) l = record l { world = w }

  unfoldable pub send_line : List ℕ → Option ℕ → Log S → Log S
  unfolding send_loop sent_line
  send_line text none l = l
  send_line text (some fd) l = sent_line fd (send_loop (length text) fd text [] l.world) l

  -- stdout and the file.
  unfoldable pub put_line : List ℕ → Log S → Log S
  put_line text l =
      let w =
        if l.config.to_stdout || is_some l.nxlink_fd then S.puts false text l.world else l.world in
      record l { world = if l.has_file then S.puts true text w else w }

  unfoldable pub log_write : Level → List ℕ → ℕ → List ℕ → Log S → Log S
  unfolding line_text put_line send_line
  log_write level file line message l =
      let text = line_text level file line message in
      if not l.initialized || ltb (rank level) (rank l.config.min_level)
      then l
      else send_line text l.remote_fd (put_line text l)

  -- The sinks of LogInit: nxlink, the remote host, and the file.
  unfoldable pub open_nxlink : Bool → Log S → Log S
  unfolding ensure_socket
  open_nxlink wanted l =
      let (ok, l') = ensure_socket S l in
      let (fd, w) = S.nxlink_stdio l'.world in
      let opened = record l' {
        nxlink_fd = fd;
        world = w;
        opened = if is_some fd then l'.opened + 1 else l'.opened;
      } in
      if not wanted then l else if ok then opened else l'

  unfoldable pub open_remote : Option (List ℕ) → ℕ → Log S → Log S
  unfolding ensure_socket connect_with_timeout
  open_remote none port l = l
  open_remote (some host) port l =
      let (ok, l') = ensure_socket S l in
      let (fd, l'') = connect_with_timeout S host port 2000 l' in
      if ok then record l'' { remote_fd = fd } else l'

  -- The old file is kept under another name.
  unfoldable pub open_log_file : Option (List ℕ) → Log S → Log S
  unfolding make_parent_dirs
  open_log_file none l = l
  open_log_file (some path) l =
      let previous = path ++ codes ".alt" in
      let w = S.rename path previous (S.remove previous (make_parent_dirs S path l.world)) in
      let (ok, w') = S.open_file path w in record l { has_file = ok; world = w' }

  -- The messages of LogInit itself are arguments, the second one for a fallen back configuration.
  unfoldable pub log_ready : List ℕ → List ℕ → Log S → Log S
  unfolding log_write
  log_ready ready fallback l =
      let l' = log_write info (codes "log.cpp") 215 ready l in
      if l.fell_back then log_write warning (codes "log.cpp") 223 fallback l' else l'

  unfoldable pub log_init : LogConfig → List ℕ → List ℕ → Log S → Bool × Log S
  unfolding open_nxlink open_remote open_log_file log_ready ensure_socket
  log_init config ready fallback l =
      let configured : Log S = record l { config = config } in
      let a = open_nxlink config.to_nxlink configured in
      let b = open_remote config.remote_host config.remote_port a in
      let c = open_log_file config.file_path b in
      let nxlink = config.to_nxlink && ((ensure_socket S configured).0 && is_some a.nxlink_fd) in
      let remote = is_given config.remote_host && ((ensure_socket S a).0 && is_some b.remote_fd) in
      let file = is_given config.file_path && c.has_file in
      let any_sink = nxlink || (remote || (config.to_stdout || file)) in
      let d : Log S = record c { initialized = true } in
      (any_sink, if any_sink then log_ready ready fallback d else d)

  -- One descriptor of LogShutdown.
  unfoldable pub close_sink : Option ℕ → Log S → Log S
  unfolding close_socket
  close_sink none l = l
  close_sink (some fd) l = close_socket S fd l

  unfoldable pub log_shutdown : Log S → Log S
  unfolding close_sink
  log_shutdown l =
      let a : Log S = record l {
        has_file = false;
        world = if l.has_file then S.close_file l.world else l.world;
      } in
      let b = close_sink l.remote_fd a in
      let c = close_sink l.nxlink_fd b in
      record c {
        remote_fd = none;
        nxlink_fd = none;
        socket_ready = false;
        initialized = false;
        exits = if l.socket_ready then c.exits + 1 else c.exits;
        world = if l.socket_ready then S.socket_exit c.world else c.world;
      }

-- The line breaks at the end go.
unfoldable pub trim_line : List ℕ → List ℕ
trim_line [] = []
trim_line (c ∷ cs) =
    let rest = trim_line cs in
    elim rest [ [] ↦ if c == 10 || c == 13 then [] else c ∷ [] | d ∷ ds ↦ c ∷ d ∷ ds ]

-- flutter_libnx_vm_log
unfoldable pub vm_log : (S : System) → Option (List ℕ) → Log S → Log S
unfolding trim_line log_write
vm_log S none l = l
vm_log S (some text) l = elim (trim_line text) [
  | [] ↦ l
  | c ∷ cs ↦ log_write S info (codes "dart-vm") 0 (c ∷ cs) l
]
