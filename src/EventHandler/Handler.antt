-- ===== src/EventHandler/Handler.antt =====
-- The state of EventHandlerImplementation.
use flutter_libnx.Prelude.{
  ℕ, Bool, false, Option, none, some, List, [], ◌∷◌, if◌then◌else◌, ◌==◌, ℤ,
}

-- An event mask: the bits kInEvent, kOutEvent, kErrorEvent, kCloseEvent and kDestroyedEvent.
pub record Mask : Type 0 where
  pub in_event : Bool
  pub out_event : Bool
  pub error_event : Bool
  pub close_event : Bool
  pub destroyed_event : Bool

abbrev pub no_events : Mask
no_events = record {
  in_event = false;
  out_event = false;
  error_event = false;
  close_event = false;
  destroyed_event = false;
}

-- The bits that poll reports of a descriptor.
pub record Revents : Type 0 where
  pub pollin : Bool
  pub pollout : Bool
  pub pollerr : Bool
  pub pollhup : Bool
  pub pollnval : Bool

-- What the file uses of the Dart VM: DescriptorInfoSingle and DescriptorInfoMultiple with the methods
-- of their mixins, TimeoutQueue, and ListeningSocketRegistry::CloseSafe for a socket.
pub record Dart : Type 1 where
  pub DescriptorInfo : Type 0
  pub new_single : ℕ → DescriptorInfo
  pub new_multiple : ℕ → DescriptorInfo
  pub mask : DescriptorInfo → Mask
  pub is_listening_socket : DescriptorInfo → Bool
  pub remove_port : ℕ → DescriptorInfo → DescriptorInfo
  pub return_tokens : ℕ → ℕ → DescriptorInfo → DescriptorInfo
  pub set_port_and_mask : ℕ → Mask → DescriptorInfo → DescriptorInfo
  -- The port that is notified; and all of them.
  pub next_notify_dart_port : Mask → DescriptorInfo → ℕ × DescriptorInfo
  pub notify_all_dart_ports : Mask → DescriptorInfo → List ℕ × DescriptorInfo
  pub TimeoutQueue : Type 0
  pub has_timeout : TimeoutQueue → Bool
  pub current_timeout : TimeoutQueue → ℤ
  pub current_port : TimeoutQueue → ℕ
  pub remove_current : TimeoutQueue → TimeoutQueue
  pub update_timeout : ℕ → ℤ → TimeoutQueue → TimeoutQueue
  pub close_safe : ℕ → Bool
  pub illegal_port : ℕ

-- The command in `msg.data`.
pub data Command : Type 0 where
  shutdown_read shutdown_write close_command : Command
  return_token : ℕ → Command
  set_event_mask : Mask → Command

-- An InterruptMessage by its id: kTimerId with the port and the time, kShutdownId, or a socket with
-- the port, the bit of a listening socket, and the command.
pub data InterruptMessage : Type 0 where
  timer : ℕ → ℤ → InterruptMessage
  shutdown_message : InterruptMessage
  command : ℕ → ℕ → Bool → Command → InterruptMessage

-- What is sent to the Dart side: PostInt32 of a mask, and PostNull.
pub data Post : Type 0 where
  post_mask : ℕ → Mask → Post
  post_null : ℕ → Post

module _ (D : Dart) where
  -- The hash map of descriptors, in the order of its walk; a descriptor is listed once.
  abbrev pub SocketMap : Type 0
  SocketMap = List (ℕ × D.DescriptorInfo)

  -- The fields of EventHandlerImplementation, the descriptors of the sockets, by socket, and what was
  -- done: posts, descriptors closed, and calls of shutdown with whether they were for writing.
  pub record Handler : Type 0 where
    pub socket_map : SocketMap
    pub timeout_queue : D.TimeoutQueue
    pub shutdown : Bool
    pub has_interrupt_fds : Bool
    pub pending_messages : List InterruptMessage
    pub socket_fd : ℕ → Option ℕ
    pub posts : List Post
    pub closed : List ℕ
    pub shut : List (ℕ × Bool)

  unfoldable pub lookup_fd : ℕ → SocketMap → Option D.DescriptorInfo
  lookup_fd fd [] = none
  lookup_fd fd ((key, di) ∷ rest) = if key == fd then some di else lookup_fd fd rest

  unfoldable pub remove_fd : ℕ → SocketMap → SocketMap
  remove_fd fd [] = []
  remove_fd fd ((key, di) ∷ rest) = if key == fd then rest else (key, di) ∷ remove_fd fd rest

  -- The object behind an entry changes in place; an entry that is not there is added.
  unfoldable pub put_fd : ℕ → D.DescriptorInfo → SocketMap → SocketMap
  put_fd fd di [] = (fd, di) ∷ []
  put_fd fd di ((key, old) ∷ rest) =
      if key == fd then (key, di) ∷ rest else (key, old) ∷ put_fd fd di rest
