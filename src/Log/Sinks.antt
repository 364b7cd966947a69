-- ===== src/Log/Sinks.antt =====
-- The sinks of the log: EnsureSocket, ConnectWithTimeout, MakeParentDirs, LogInit and LogShutdown.
use flutter_libnx.Prelude.{
  ℕ, ◌+◌, Bool, true, false, not, Option, none, some, List, [], ◌∷◌, ◌++◌, if◌then◌else◌, ◌==◌,
  take,
}

pub data Level : Type 0 where
  debug info warning error : Level

abbrev pub rank : Level → ℕ
rank debug = 0
rank info = 1
rank warning = 2
rank error = 3

pub record LogConfig : Type 0 where
  pub to_stdout : Bool
  pub to_nxlink : Bool
  pub file_path : Option (List ℕ)
  pub remote_host : Option (List ℕ)
  pub remote_port : ℕ
  pub min_level : Level

-- What connect() says.
pub data Connected : Type 0 where
  connected in_progress refused : Connected

-- The system: its sockets, its files, and the forms of a line.
pub record System : Type 1 where
  pub World : Type 0
  pub socket_initialize : Bool → World → Bool × World
  pub socket_exit : World → World
  pub nxlink_stdio : World → Option ℕ × World
  pub open_socket : World → Option ℕ × World
  pub is_address : List ℕ → Bool
  pub connect : ℕ → List ℕ → ℕ → World → Connected × World
  -- select() on the socket for this many milliseconds, and whether SO_ERROR is then 0.
  pub selects : ℕ → ℕ → World → Bool × World
  pub has_no_error : ℕ → World → Bool
  pub set_nonblocking : ℕ → Bool → World → World
  pub close : ℕ → World → World
  -- send(): how many bytes went out, or 0 where it gives no positive number.
  pub send : ℕ → List ℕ → World → ℕ × World
  pub mkdir : List ℕ → World → World
  pub remove : List ℕ → World → World
  pub rename : List ℕ → List ℕ → World → World
  pub open_file : List ℕ → World → Bool × World
  pub close_file : World → World
  pub puts : Bool → List ℕ → World → World
  pub decimal : ℕ → List ℕ

-- The globals, the world, and how many sockets and sessions were opened and closed.
pub record Log (S : System) : Type 0 where
  pub config : LogConfig
  pub has_file : Bool
  pub nxlink_fd : Option ℕ
  pub remote_fd : Option ℕ
  pub socket_ready : Bool
  pub fell_back : Bool
  pub initialized : Bool
  pub world : S.World
  pub opened : ℕ
  pub closed : ℕ
  pub sessions : ℕ
  pub exits : ℕ

abbrev pub is_some : Option ℕ → Bool
is_some none = false
is_some (some n) = true

abbrev pub slash : ℕ
slash = 47

abbrev pub colon : ℕ
colon = 58

-- From the character behind the device's colon, or from the start.
unfoldable pub behind_colon : List ℕ → Option (List ℕ × List ℕ)
behind_colon [] = none
behind_colon (c ∷ cs) =
    let rest = behind_colon cs in
    if c == colon
    then some (c ∷ [], cs)
    else elim rest [ none ↦ none | some (before, after) ↦ some (c ∷ before, after) ]

module _ (S : System) where
  -- First with the program's own configuration, then with the default one.
  unfoldable pub ensure_socket : Log S → Bool × Log S
  ensure_socket l =
      let (big, w) = S.socket_initialize true l.world in
      let (small, w') = S.socket_initialize false w in
      if l.socket_ready
      then (true, l)
      else if big
      then (true, record l { socket_ready = true; sessions = l.sessions + 1; world = w })
      else if small
      then (
        true,
        record l { socket_ready = true; fell_back = true; sessions = l.sessions + 1; world = w' },
      )
      else (false, record l { world = w' })

  -- close() of a socket that was open.
  unfoldable pub close_socket : ℕ → Log S → Log S
  close_socket fd l = record l { closed = l.closed + 1; world = S.close fd l.world }

  abbrev pub connect_failed : ℕ → Log S → Option ℕ × Log S
  connect_failed fd l = (none, close_socket fd l)

  -- The wait for a connection that is in progress, and the end with the old flags.
  unfoldable pub await_connection : ℕ → ℕ → Connected → Log S → Option ℕ × Log S
  unfolding close_socket
  await_connection fd timeout refused l = connect_failed fd l
  await_connection fd timeout connected l =
      (some fd, record l { world = S.set_nonblocking fd false l.world })
  await_connection fd timeout in_progress l =
      let (writable, w) = S.selects fd timeout l.world in
      let l' : Log S = record l { world = w } in
      if not writable
      then connect_failed fd l'
      else if not (S.has_no_error fd w)
      then connect_failed fd l'
      else (some fd, record l' { world = S.set_nonblocking fd false w })

  unfoldable pub connect_socket : List ℕ → ℕ → ℕ → ℕ → Log S → Option ℕ × Log S
  unfolding await_connection close_socket
  connect_socket host port timeout fd l =
      let (c, w) = S.connect fd host port (S.set_nonblocking fd true l.world) in
      if not (S.is_address host)
      then connect_failed fd l
      else await_connection fd timeout c (record l { world = w })

  unfoldable pub connect_with_timeout : List ℕ → ℕ → ℕ → Log S → Option ℕ × Log S
  unfolding connect_socket
  connect_with_timeout host port timeout l =
      let (fd, w) = S.open_socket l.world in
      elim fd [
        | none ↦ (none, record l { world = w })
        | some n ↦
            connect_socket host port timeout n (record l { opened = l.opened + 1; world = w })
      ]

  -- The loop: `before` is what stands before the cursor.
  unfoldable pub make_dirs : List ℕ → List ℕ → S.World → S.World
  make_dirs before [] w = w
  make_dirs before (c ∷ cs) w =
      make_dirs (before ++ (c ∷ [])) cs (if c == slash then S.mkdir before w else w)

  -- A slash at the cursor is passed over first.
  unfoldable pub make_dirs_from : List ℕ → List ℕ → S.World → S.World
  unfolding make_dirs
  make_dirs_from before [] w = w
  make_dirs_from before (c ∷ cs) w =
      if c == slash then make_dirs (before ++ (c ∷ [])) cs w else make_dirs before (c ∷ cs) w

  -- The buffer holds 511 characters.
  unfoldable pub make_parent_dirs : List ℕ → S.World → S.World
  unfolding make_dirs_from behind_colon
  make_parent_dirs path w =
      let buffer = take 511 path in
      elim (behind_colon buffer) [
        | none ↦ make_dirs_from [] buffer w
        | some (before, after) ↦ make_dirs_from before after w
      ]
