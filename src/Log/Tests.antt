-- ===== src/Log/Tests.antt =====
-- The log over a small system.
use flutter_libnx.Prelude.{
  ℕ, zero, suc, ◌≡◌, refl, true, false, none, some, List, [], ◌∷◌, codes, length,
}
use flutter_libnx.Log.Sinks.{in_progress, info, LogConfig, System, Log, make_parent_dirs}
use flutter_libnx.Log.Lines.{base_name, trim_line, log_init, log_write, log_shutdown}
use flutter_libnx.Log.Shutdown.{at_start, and_then, init, write, IsShut, turns_closed}

-- The world is the paths of the directories that were made, newest first; send() takes two bytes at most.
abbrev two_at_most : ℕ → ℕ
two_at_most zero = 0
two_at_most (suc zero) = 1
two_at_most (suc (suc n)) = 2

abbrev small : System
small = record {
  World = List (List ℕ);
  socket_initialize = λ big w. (true, w);
  socket_exit = λ w. w;
  nxlink_stdio = λ w. (none, w);
  open_socket = λ w. (some 3, w);
  is_address = λ host. true;
  connect = λ fd host port w. (in_progress, w);
  selects = λ fd timeout w. (true, w);
  has_no_error = λ fd w. true;
  set_nonblocking = λ fd b w. w;
  close = λ fd w. w;
  send = λ fd bs w. (two_at_most (length bs), w);
  mkdir = λ path w. path ∷ w;
  remove = λ path w. w;
  rename = λ from to w. w;
  open_file = λ path w. (true, w);
  close_file = λ w. w;
  puts = λ to_file text w. w;
  decimal = λ n. codes "1";
}

abbrev config : LogConfig
config = record {
  to_stdout = false;
  to_nxlink = true;
  file_path = some (codes "sdmc:/a/b.log");
  remote_host = some (codes "10.0.0.1");
  remote_port = 28800;
  min_level = info;
}

abbrev new_log : Log small
new_log = record {
  config = config;
  has_file = false;
  nxlink_fd = none;
  remote_fd = none;
  socket_ready = false;
  fell_back = false;
  initialized = false;
  world = [];
  opened = 0;
  closed = 0;
  sessions = 0;
  exits = 0;
}

dirs_made :
    make_parent_dirs small (codes "sdmc:/a/b/c.log") [] ≡ codes "sdmc:/a/b" ∷ codes "sdmc:/a" ∷ []
unfolding make_parent_dirs
dirs_made = refl

base_of_path : base_name (codes "src/log.cpp") ≡ codes "log.cpp"
unfolding base_name
base_of_path = refl

base_of_backslashes : base_name (codes "src\\log.cpp") ≡ codes "log.cpp"
unfolding base_name
base_of_backslashes = refl

trimmed : trim_line (codes "a\nb\n\r\n") ≡ codes "a\nb"
unfolding trim_line
trimmed = refl

abbrev started : Log small
started = (log_init small config (codes "ready") (codes "fallback") new_log).1

remote_open : started.remote_fd ≡ some 3
unfolding log_init
remote_open = refl

turns_closed_example :
    IsShut (log_shutdown small (log_write small info (codes "a") 1 (codes "b") started))
turns_closed_example =
    turns_closed
      (and_then (and_then at_start (init config (codes "ready") (codes "fallback") refl))
        (write info (codes "a") 1 (codes "b")))
      (refl, refl, refl, refl, refl)
