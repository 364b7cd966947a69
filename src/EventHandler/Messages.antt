-- ===== src/EventHandler/Messages.antt =====
-- WakeupHandler, ProcessInterruptMessage and the queue of messages.
use flutter_libnx.Prelude.{
  ℕ, Bool, true, false, Option, none, some, List, [], ◌∷◌, ◌++◌, if◌then◌else◌, ◌==◌,
}
use flutter_libnx.EventHandler.Handler.{
  Mask, no_events, Dart, Command, shutdown_read, shutdown_write, close_command, return_token,
  set_event_mask, InterruptMessage, timer, shutdown_message, command, post_mask, Handler, SocketMap,
  lookup_fd, remove_fd, put_fd,
}

abbrev pub destroyed : Mask
destroyed = record no_events { destroyed_event = true }

module _ (D : Dart) where
  -- WakeupHandler without interrupt descriptors. With them the message goes through the pair.
  unfoldable pub wakeup_handler : InterruptMessage → Handler D → Handler D
  wakeup_handler m h = record h { pending_messages = h.pending_messages ++ (m ∷ []) }

  -- GetDescriptorInfo: the info of the descriptor, made if it is missing.
  unfoldable pub info_or_new : Option D.DescriptorInfo → ℕ → Bool → D.DescriptorInfo
  info_or_new (some di) fd is_listening = di
  info_or_new none fd is_listening = if is_listening then D.new_multiple fd else D.new_single fd

  unfoldable pub get_descriptor_info : ℕ → Bool → SocketMap D → D.DescriptorInfo
  unfolding info_or_new lookup_fd
  get_descriptor_info fd is_listening m = info_or_new (lookup_fd D fd m) fd is_listening

  abbrev set_info : ℕ → D.DescriptorInfo → Handler D → Handler D
  set_info fd di h = record h { socket_map = put_fd D fd di h.socket_map }

  -- `socket_map_.Remove`, `di->Close()` and `delete di`
  unfoldable pub destroy : ℕ → Handler D → Handler D
  unfolding remove_fd
  destroy fd h = record h {
    socket_map = remove_fd D fd h.socket_map;
    closed = h.closed ++ (fd ∷ []);
  }

  -- `socket->CloseFd()`, and the event for the port.
  unfoldable pub close_socket : ℕ → ℕ → Handler D → Handler D
  close_socket socket port h = record h {
    socket_fd = λ s. if s == socket then none else h.socket_fd s;
    posts = h.posts ++ (post_mask port destroyed ∷ []);
  }

  unfoldable pub drop_port : ℕ → D.DescriptorInfo → D.DescriptorInfo
  drop_port port di = if port == D.illegal_port then di else D.remove_port port di

  unfoldable pub run_command : ℕ → ℕ → ℕ → D.DescriptorInfo → Command → Handler D → Handler D
  unfolding destroy close_socket drop_port
  run_command socket port fd di shutdown_read h = record h { shut = h.shut ++ ((fd, false) ∷ []) }
  run_command socket port fd di shutdown_write h = record h { shut = h.shut ++ ((fd, true) ∷ []) }
  run_command socket port fd di close_command h =
      let dropped = set_info fd (drop_port port di) h in
      if D.is_listening_socket di
      then close_socket socket port (if D.close_safe socket then destroy fd dropped else dropped)
      else close_socket socket port (destroy fd dropped)
  run_command socket port fd di (return_token count) h =
      set_info fd (D.return_tokens port count di) h
  run_command socket port fd di (set_event_mask mask) h =
      set_info fd (D.set_port_and_mask port mask di) h

  unfoldable pub socket_command : Option ℕ → ℕ → ℕ → Bool → Command → Handler D → Handler D
  unfolding run_command get_descriptor_info
  socket_command none socket port is_listening c h = h
  socket_command (some fd) socket port is_listening c h =
      let di = get_descriptor_info fd is_listening h.socket_map in
      run_command socket port fd di c (set_info fd di h)

  unfoldable pub process_interrupt_message : InterruptMessage → Handler D → Handler D
  unfolding socket_command
  process_interrupt_message (timer port time) h = record h {
    timeout_queue = D.update_timeout port time h.timeout_queue;
  }
  process_interrupt_message shutdown_message h = record h { shutdown = true }
  process_interrupt_message (command socket port is_listening c) h =
      socket_command (h.socket_fd socket) socket port is_listening c h

  -- HandleInterruptFd, for the messages that its read gave; and the loop of HandleInterruptQueue.
  unfoldable pub process_all : List InterruptMessage → Handler D → Handler D
  unfolding process_interrupt_message
  process_all [] h = h
  process_all (m ∷ ms) h = process_all ms (process_interrupt_message m h)

  unfoldable pub handle_interrupt_queue : Handler D → Handler D
  unfolding process_all
  handle_interrupt_queue h = process_all h.pending_messages (record h { pending_messages = [] })
