-- ===== src/EventHandler/Tests.antt =====
-- A Dart side with one port for each descriptor and one timer, and the theorems about the event
-- handler at concrete inputs.
use flutter_libnx.Prelude.{
  ℕ, ◌≤◌, ◌≡◌, refl, Bool, true, false, Option, none, some, List, [], ◌∷◌, arith, if◌then◌else◌,
  ◌==◌, ℤ, pos, negsuc,
}
use flutter_libnx.EventHandler.Loopback.{
  Network, LeaksNothing, create_loopback_pair, create_loopback_pair-LeaksNothing,
}
use flutter_libnx.EventHandler.Handler.{
  Mask, no_events, Revents, Dart, InterruptMessage, timer, shutdown_message, command, close_command,
  Handler, put_fd,
}
use flutter_libnx.EventHandler.Poll.{
  PollResult, reported, poll_loop, poll_round, timeout_millis, timer_millis, to_int,
}
use flutter_libnx.EventHandler.Buffers.{timeout_millis_bounded}
use flutter_libnx.EventHandler.Alive.{poll_loop_safe}

abbrev single_port : Dart
single_port = record {
  DescriptorInfo = ℕ × Mask;
  new_single = λ fd. (0, no_events);
  new_multiple = λ fd. (0, no_events);
  mask = λ di. di.1;
  is_listening_socket = λ di. false;
  remove_port = λ port di. (0, no_events);
  return_tokens = λ port count di. di;
  set_port_and_mask = λ port m di. (port, m);
  next_notify_dart_port = λ m di. (di.0, di);
  notify_all_dart_ports = λ m di. (di.0 ∷ [], di);
  TimeoutQueue = Option (ℕ × ℤ);
  has_timeout = λ q. elim q [ none ↦ false | some t ↦ true ];
  current_timeout = λ q. elim q [ none ↦ pos 0 | some t ↦ t.1 ];
  current_port = λ q. elim q [ none ↦ 0 | some t ↦ t.0 ];
  remove_current = λ q. none;
  update_timeout = λ port time q. some (port, time);
  close_safe = λ socket. true;
  illegal_port = 0;
}

abbrev reading : Mask
reading = record no_events { in_event = true }

abbrev readable : Revents
readable = record {
  pollin = true;
  pollout = false;
  pollerr = false;
  pollhup = false;
  pollnval = false;
}

-- Socket 8 has descriptor 3, which is read for port 40; its close waits in the queue.
abbrev closing : Bool → Handler single_port
closing has_fds = record {
  socket_map = (3, (40, reading)) ∷ [];
  timeout_queue = none;
  shutdown = false;
  has_interrupt_fds = has_fds;
  pending_messages = command 8 40 false close_command ∷ [];
  socket_fd = λ s. if s == 8 then some 3 else none;
  posts = [];
  closed = [];
  shut = [];
}

abbrev failing : Network
failing = record {
  socket_listener = some 3;
  bind = true;
  listen = true;
  getsockname = true;
  socket_client = some 4;
  connect = false;
  accept = none;
}

create_loopback_pair-LeaksNothing_example : LeaksNothing (create_loopback_pair failing)
create_loopback_pair-LeaksNothing_example = create_loopback_pair-LeaksNothing failing

timeout_millis_bounded_example :
    ((n : ℕ) × (timeout_millis false (some (pos 5000)) ≡ pos n)
      × (n ≤ 5000)
      × (false ≡ false → n ≤ 20))
    × ((past : ℕ) → timeout_millis false (some (negsuc past)) ≡ pos 0)
timeout_millis_bounded_example = timeout_millis_bounded false 5000 (omega arith)

-- A timer in 2^31 milliseconds, which is less than 25 days, makes the limit negative: poll waits for
-- ever.
overslept : timeout_millis true (some (pos 0x8000_0000)) ≡ negsuc 0x7fff_ffff
unfolding timeout_millis timer_millis to_int
overslept = refl

abbrev wakes : List InterruptMessage
wakes = timer 7 (pos 100) ∷ shutdown_message ∷ []

abbrev rounds : List (PollResult × ℤ)
rounds = (reported (readable ∷ readable ∷ []) (command 8 40 false close_command ∷ []), pos 1) ∷ []

poll_loop_safe_example :
    (h' : Handler single_port) × (poll_loop single_port rounds (closing true) ≡ some h')
poll_loop_safe_example = poll_loop_safe single_port rounds (closing true) refl

-- Without an interrupt descriptor the close is processed first, and then the event of the descriptor,
-- whose info is gone.
deleted_info_is_used :
    poll_round single_port (reported (readable ∷ []) []) (pos 1) (closing false) ≡ none
unfolding poll_round put_fd
deleted_info_is_used = refl
