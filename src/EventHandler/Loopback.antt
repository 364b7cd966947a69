-- ===== src/EventHandler/Loopback.antt =====
-- CreateLoopbackPair: a connected pair over 127.0.0.1, or nothing.
use flutter_libnx.Prelude.{
  ℕ, ◌≡◌, refl, Bool, true, false, ◌&&◌, Option, none, some, List, [], ◌∷◌, ◌++◌, if◌then◌else◌,
  ◌⊎◌, inl, inr, if-both,
}

-- What the calls of the socket library return, if they are made: a descriptor or -1 (`none`), or
-- whether they returned 0.
pub record Network : Type 0 where
  pub socket_listener : Option ℕ
  pub bind : Bool
  pub listen : Bool
  pub getsockname : Bool
  pub socket_client : Option ℕ
  pub connect : Bool
  pub accept : Option ℕ

-- The two descriptors that are left behind, if the function returns true, and those that were opened and
-- closed on the way: a descriptor is opened where a call gives it, and closed where close() gets it.
pub record Pair : Type 0 where
  pub fds : Option (Option ℕ × Option ℕ)
  pub opened : List ℕ
  pub closed : List ℕ

-- A descriptor that is not -1.
abbrev to_list : Option ℕ → List ℕ
to_list none = []
to_list (some fd) = fd ∷ []

abbrev is_open : Option ℕ → Bool
is_open none = false
is_open (some fd) = true

-- From close(listener) on: `opened` is what the calls before have opened.
unfoldable pub finish : List ℕ → ℕ → Option ℕ → Option ℕ → Bool → Pair
finish opened listener client server true = record {
  fds = some (server, client);
  opened = opened;
  closed = listener ∷ [];
}
finish opened listener client server false = record {
  fds = none;
  opened = opened;
  closed = (listener ∷ []) ++ to_list client ++ to_list server;
}

-- accept(), and what it gave.
unfoldable pub accepted : List ℕ → ℕ → ℕ → Option ℕ → Pair
unfolding finish
accepted opened listener client server =
    finish (opened ++ to_list server) listener (some client) server (is_open server)

-- Whether the client is connected.
unfoldable pub accept_client : Network → List ℕ → ℕ → ℕ → Bool → Pair
unfolding accepted finish
accept_client n opened listener client true = accepted opened listener client n.accept
accept_client n opened listener client false = finish opened listener (some client) none false

-- The client's socket.
unfoldable pub connect_client : Network → List ℕ → ℕ → Option ℕ → Pair
unfolding accept_client finish
connect_client n opened listener none = finish opened listener none none false
connect_client n opened listener (some client) =
    accept_client n (opened ++ (client ∷ [])) listener client n.connect

-- The listener's socket.
unfoldable pub listen_on : Network → Option ℕ → Pair
unfolding connect_client finish
listen_on n none = record { fds = none; opened = []; closed = [] }
listen_on n (some listener) =
    if n.bind && n.listen && n.getsockname
    then connect_client n (listener ∷ []) listener n.socket_client
    else finish (listener ∷ []) listener none none false

unfoldable pub create_loopback_pair : Network → Pair
unfolding listen_on
create_loopback_pair n = listen_on n n.socket_listener

-- Either there is no pair, and every descriptor that was opened is closed again, each once; or the
-- two ends are left open and only the listener is closed.
abbrev pub LeaksNothing : Pair → Type 0
LeaksNothing p =
    ((p.fds ≡ none) × (p.closed ≡ p.opened))
    ⊎ ((listener : ℕ) × (client : ℕ) × (server : ℕ) × (p.fds ≡ some (some server, some client))
        × (p.opened ≡ listener ∷ client ∷ server ∷ [])
        × (p.closed ≡ listener ∷ []))

accepted-LeaksNothing :
    (listener client : ℕ) (server : Option ℕ)
    → LeaksNothing (accepted (listener ∷ client ∷ []) listener client server)
unfolding accepted finish
accepted-LeaksNothing listener client none = inl (refl, refl)
accepted-LeaksNothing listener client (some server) =
    inr (listener, client, server, refl, refl, refl)

accept_client-LeaksNothing :
    (n : Network) (listener client : ℕ) (connected : Bool)
    → LeaksNothing (accept_client n (listener ∷ client ∷ []) listener client connected)
unfolding accept_client finish
accept_client-LeaksNothing n listener client true = accepted-LeaksNothing listener client n.accept
accept_client-LeaksNothing n listener client false = inl (refl, refl)

connect_client-LeaksNothing :
    (n : Network) (listener : ℕ) (client : Option ℕ)
    → LeaksNothing (connect_client n (listener ∷ []) listener client)
unfolding connect_client finish
connect_client-LeaksNothing n listener none = inl (refl, refl)
connect_client-LeaksNothing n listener (some client) =
    accept_client-LeaksNothing n listener client n.connect

listen_on-LeaksNothing : (n : Network) (o : Option ℕ) → LeaksNothing (listen_on n o)
unfolding listen_on finish
listen_on-LeaksNothing n none = inl (refl, refl)
listen_on-LeaksNothing n (some listener) =
    if-both LeaksNothing (n.bind && n.listen && n.getsockname) _ _
      (connect_client-LeaksNothing n listener n.socket_client) (inl (refl, refl))

-- Whichever of its calls fail, CreateLoopbackPair gives no pair and has closed every descriptor that
-- its calls opened, each once; or it gives the two ends of a pair, which are open, and has closed the
-- listener.
pub create_loopback_pair-LeaksNothing : (n : Network) → LeaksNothing (create_loopback_pair n)
unfolding create_loopback_pair
create_loopback_pair-LeaksNothing n = listen_on-LeaksNothing n n.socket_listener
