-- ===== src/Log/Shutdown.antt =====
-- LogShutdown leaves no socket and no session open.
use flutter_libnx.Prelude.{
  ℕ, ◌+◌, ◌≡◌, refl, sym, ap, ◌∙◌, Bool, true, false, Option, none, some, List, if◌then◌else◌,
  arith,
}
use flutter_libnx.Log.Sinks.{Level, LogConfig, System, Log, close_socket}
use flutter_libnx.Log.Lines.{log_write, log_init, close_sink, log_shutdown, vm_log}
use flutter_libnx.Log.Balance.{held, IsKept}
use flutter_libnx.Log.Life.{
  IsReady, log_write-Writes, vm_log-Writes, written-IsReady, log_init-IsReady,
}

exits_once : (b : Bool) (n m : ℕ) → n ≡ m + (if b then 1 else 0) → n ≡ (if b then m + 1 else m)
exits_once true n m h = h
exits_once false n m h = omega arith

none_open : (b : Bool) (n m : ℕ) → b ≡ false → n ≡ m → n ≡ m + (if b then 1 else 0)
none_open true n m e h = cc
none_open false n m e h = omega arith

module _ {S : System} where
  -- LogShutdown leaves nothing open.
  abbrev pub IsShut : Log S → Type 0
  IsShut l =
      (l.opened ≡ l.closed)
      × (l.sessions ≡ l.exits)
      × (l.nxlink_fd ≡ none)
      × (l.remote_fd ≡ none)
      × (l.socket_ready ≡ false)

  closed-1 : (fd : Option ℕ) (l : Log S) → (close_sink S fd l).closed ≡ l.closed + held fd
  unfolding close_sink close_socket
  closed-1 none l = omega arith
  closed-1 (some fd) l = refl

  other-close_sink :
      (fd : Option ℕ) (l : Log S)
      → ((close_sink S fd l).opened ≡ l.opened)
        × ((close_sink S fd l).sessions ≡ l.sessions)
        × ((close_sink S fd l).exits ≡ l.exits)
  unfolding close_sink close_socket
  other-close_sink none l = (refl, refl, refl)
  other-close_sink (some fd) l = (refl, refl, refl)

  log_shutdown-IsShut : (l : Log S) → IsKept 0 l → IsShut (log_shutdown S l)
  unfolding log_shutdown
  log_shutdown-IsShut l (h, s) =
      let a : Log S = record l {
        has_file = false;
        world = if l.has_file then S.close_file l.world else l.world;
      } in
      let b = close_sink S l.remote_fd a in
      let (o, n, x) = other-close_sink l.remote_fd a in
      let (o', n', x') = other-close_sink l.nxlink_fd b in
      let one = closed-1 l.remote_fd a in
      let two = closed-1 l.nxlink_fd b in
      let exits = exits_once l.socket_ready l.sessions l.exits s in
      (
        omega arith,
        n' ∙ n ∙ exits ∙ ap (λ (m : ℕ). if l.socket_ready then m + 1 else m) (sym (x' ∙ x)),
        refl,
        refl,
        refl,
      )

  shut-IsReady : (l : Log S) → IsShut l → IsReady l
  shut-IsReady l (sockets, sessions, bare, free, off) =
      let nx : held l.nxlink_fd ≡ 0 = ap held bare in
      let re : held l.remote_fd ≡ 0 = ap held free in
      ((omega arith, none_open l.socket_ready l.sessions l.exits off sessions), λ e. (bare, free))

  -- A call of the log: LogInit where it is not in use, a line, a line of the VM, or LogShutdown.
  pub data Turn : Log S → Log S → Type 0 where
    init :
        {l : Log S} (config : LogConfig) (ready fallback : List ℕ)
        → l.initialized ≡ false
        → Turn l (log_init S config ready fallback l).1
    write :
        {l : Log S} (level : Level) (file : List ℕ) (line : ℕ) (message : List ℕ)
        → Turn l (log_write S level file line message l)
    vm_line : {l : Log S} (text : Option (List ℕ)) → Turn l (vm_log S text l)
    shutdown : {l : Log S} → Turn l (log_shutdown S l)

  pub data Turns (l : Log S) : Log S → Type 0 where
    at_start : Turns l l
    and_then : {m n : Log S} → Turns l m → Turn m n → Turns l n

  Turn-IsReady : {l m : Log S} → Turn l m → IsReady l → IsReady m
  Turn-IsReady (init {l} config ready fallback off) h =
      log_init-IsReady config ready fallback l off h
  Turn-IsReady (write {l} level file line message) (h, empty) =
      written-IsReady l (log_write S level file line message l)
        (log_write-Writes level file line message l h) empty
  Turn-IsReady (vm_line {l} text) (h, empty) =
      written-IsReady l (vm_log S text l) (vm_log-Writes text l h) empty
  Turn-IsReady (shutdown {l}) (h, empty) = shut-IsReady (log_shutdown S l) (log_shutdown-IsShut l h)

  Turns-IsReady : {l m : Log S} → Turns l m → IsReady l → IsReady m
  Turns-IsReady at_start h = h
  Turns-IsReady (and_then before last) h = Turn-IsReady last (Turns-IsReady before h)

  -- From a log that holds nothing, through any calls in any order, where LogInit is called only while
  -- the log is not in use: LogShutdown then has closed every socket that was opened, nxlink's and
  -- those of connections that failed included, and left every session of the socket service.
  pub turns_closed : {l m : Log S} → Turns l m → IsShut l → IsShut (log_shutdown S m)
  turns_closed {l} {m} run h = log_shutdown-IsShut m (Turns-IsReady run (shut-IsReady l h)).0
