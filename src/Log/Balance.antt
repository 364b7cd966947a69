-- ===== src/Log/Balance.antt =====
-- Sockets and sessions of the log: what is opened is closed.
use flutter_libnx.Prelude.{
  ℕ, ◌+◌, ◌≡◌, refl, ap, ◌∙◌, Bool, true, false, not, Option, none, some, List, if◌then◌else◌,
  if-both, arith,
}
use flutter_libnx.Log.Sinks.{
  Connected, connected, in_progress, refused, System, Log, ensure_socket, close_socket,
  connect_failed, await_connection, connect_socket, connect_with_timeout,
}

abbrev pub held : Option ℕ → ℕ
held none = 0
held (some fd) = 1

-- A session is open if the service is ready.
abbrev pub Sessions : Bool → ℕ → ℕ → Type 0
Sessions ready opened closed = opened ≡ closed + (if ready then 1 else 0)

-- All open sockets but `extra` are those of the two sinks.
abbrev pub Holds : ℕ → Option ℕ → Option ℕ → ℕ → ℕ → Type 0
Holds extra nxlink remote opened closed = opened ≡ closed + (held nxlink + (held remote + extra))

module _ {S : System} where
  abbrev pub IsKept : ℕ → Log S → Type 0
  IsKept extra l =
      Holds extra l.nxlink_fd l.remote_fd l.opened l.closed
      × Sessions l.socket_ready l.sessions l.exits

  -- An operation keeps this, and the two sinks.
  abbrev pub Same : Log S → Log S → Type 0
  Same l l' =
      (l'.nxlink_fd ≡ l.nxlink_fd) × (l'.remote_fd ≡ l.remote_fd) × (l'.initialized ≡ l.initialized)

  abbrev pub Ensured : Log S → Bool × Log S → Type 0
  Ensured l (ok, l') = IsKept 0 l' × Same l l'

  ensure_case :
      (l : Log S) (ready big small : Bool) (w w' : S.World)
      → l.socket_ready ≡ ready
      → IsKept 0 l
      → Ensured l (
          if ready
          then (true, l)
          else if big
          then (true, record l { socket_ready = true; sessions = l.sessions + 1; world = w })
          else if small
          then (
            true,
            record l {
              socket_ready = true;
              fell_back = true;
              sessions = l.sessions + 1;
              world = w';
            },
          )
          else (false, record l { world = w' }))
  ensure_case l true big small w w' e h = (h, (refl, refl, refl))
  ensure_case l false big small w w' e (h, s) =
      let closed : l.sessions ≡ l.exits + 0 =
        s ∙ ap (λ (b : Bool). l.exits + (if b then 1 else 0)) e in
      if-both (Ensured l) big _ _ ((h, omega arith), (refl, refl, refl))
        (if-both (Ensured l) small _ _ ((h, omega arith), (refl, refl, refl))
          ((h, s), (refl, refl, refl)))

  pub ensure_socket-Ensured : (l : Log S) → IsKept 0 l → Ensured l (ensure_socket S l)
  unfolding ensure_socket
  ensure_socket-Ensured l h =
      let (big, w) = S.socket_initialize true l.world in
      let (small, w') = S.socket_initialize false w in
      ensure_case l l.socket_ready big small w w' refl h

  -- ConnectWithTimeout: the only socket that it leaves open is the one it returns.
  abbrev pub Connects : Log S → Option ℕ × Log S → Type 0
  Connects l (fd, l') = IsKept (held fd) l' × Same l l'

  failed-Connects : (fd : ℕ) (l : Log S) → IsKept 1 l → Connects l (connect_failed S fd l)
  unfolding close_socket
  failed-Connects fd l (h, s) = ((omega arith, s), (refl, refl, refl))

  await-Connects :
      (fd timeout : ℕ) (c : Connected) (l : Log S)
      → IsKept 1 l
      → Connects l (await_connection S fd timeout c l)
  unfolding await_connection
  await-Connects fd timeout refused l h = failed-Connects fd l h
  await-Connects fd timeout connected l h = (h, (refl, refl, refl))
  await-Connects fd timeout in_progress l h =
      let (writable, w) = S.selects fd timeout l.world in
      let l' : Log S = record l { world = w } in
      if-both (Connects l) (not writable) _ _ (failed-Connects fd l' h) (
        if-both (Connects l) (not (S.has_no_error fd w)) _ _ (failed-Connects fd l' h)
          (h, (refl, refl, refl)))

  connect_socket-Connects :
      (host : List ℕ) (port timeout fd : ℕ) (l : Log S)
      → IsKept 1 l
      → Connects l (connect_socket S host port timeout fd l)
  unfolding connect_socket
  connect_socket-Connects host port timeout fd l h =
      let (c, w) = S.connect fd host port (S.set_nonblocking fd true l.world) in
      if-both (Connects l) (not (S.is_address host)) _ _ (failed-Connects fd l h)
        (await-Connects fd timeout c (record l { world = w }) h)

  pub connect_with_timeout-Connects :
      (host : List ℕ) (port timeout : ℕ) (l : Log S)
      → IsKept 0 l
      → Connects l (connect_with_timeout S host port timeout l)
  unfolding connect_with_timeout
  connect_with_timeout-Connects host port timeout l (h, s) = opened (S.open_socket l.world).0
    where
      opened :
          (fd : Option ℕ)
          → Connects l (elim fd [
            | none ↦ (none, record l { world = (S.open_socket l.world).1 })
            | some n ↦
                connect_socket S host port timeout n
                  (record l { opened = l.opened + 1; world = (S.open_socket l.world).1 })
          ])
      opened none = ((h, s), (refl, refl, refl))
      opened (some n) =
          connect_socket-Connects host port timeout n
            (record l { opened = l.opened + 1; world = (S.open_socket l.world).1 }) (omega arith, s)
