-- ===== src/EventHandler/Buffers.antt =====
-- The buffers of the loop, the wait of a round, and the queue of messages.
use flutter_libnx.Prelude.{
  ℕ, ◌+◌, ◌%◌, ◌^◌, ◌≤◌, ◌<◌, ◌≡◌, refl, ◌∙◌, Bool, true, false, Option, none, some, List, [], ◌∷◌,
  ◌++◌, arith, if◌then◌else◌, Bool-cases, inl, inr, length, ltb, pos, negsuc, append-nil,
  append_assoc,
}
use flutter_libnx.EventHandler.Handler.{
  Dart, InterruptMessage, timer, shutdown_message, command, Command, shutdown_read, shutdown_write,
  close_command, return_token, set_event_mask, Handler, SocketMap,
}
use flutter_libnx.EventHandler.Messages.{
  wakeup_handler, run_command, socket_command, process_interrupt_message, process_all,
  handle_interrupt_queue, close_socket, destroy,
}
use flutter_libnx.EventHandler.Poll.{
  is_polled, to_int, timer_millis, cut_millis, timeout_millis, fallback_poll_millis, count_polled,
  needed_entries, grow, polled_entries, poll_entries, interrupt,
}

timer_millis_pos : (r : ℕ) → r < 2 ^ 31 → timer_millis (pos r) ≡ pos r
unfolding timer_millis to_int
timer_millis_pos r h = elim (Bool-cases (ltb 0 r)) [
  | inl later ↦
      let small : r % 2 ^ 32 ≡ r = omega arith in
      let fits : ltb r (2 ^ 31) ≡ true = ground arith in rw (later, small, fits)
  | inr at_once ↦ let z : r ≡ 0 = ground arith in rw z
]

-- A timer that is due in less than 2^31 milliseconds, or is past, is never overslept: poll is given a
-- limit that is no longer than the time that remains, and without an interrupt descriptor none that
-- is longer than 20 milliseconds.
pub timeout_millis_bounded :
    (has_fds : Bool) (remaining : ℕ)
    → remaining < 2 ^ 31
    → ((n : ℕ) × (timeout_millis has_fds (some (pos remaining)) ≡ pos n)
        × (n ≤ remaining)
        × (has_fds ≡ false → n ≤ 20))
      × ((past : ℕ) → timeout_millis has_fds (some (negsuc past)) ≡ pos 0)
unfolding timeout_millis timer_millis cut_millis to_int
timeout_millis_bounded true remaining h =
    ((remaining, timer_millis_pos remaining h, omega arith, λ e. cc), λ past. refl)
timeout_millis_bounded false remaining h =
    let cut : (n : ℕ) × (cut_millis (pos remaining) ≡ pos n) × (n ≤ remaining) × (n ≤ 20) =
      elim (Bool-cases (ltb fallback_poll_millis remaining)) [
        | inl long ↦ (20, rw long, ground arith, omega arith)
        | inr short ↦ (remaining, rw short, omega arith, ground arith)
      ] in
    let (n, e, le, small) = cut in
    ((n, rw (timer_millis_pos remaining h) e, le, λ b. small), λ past. refl)

module _ (D : Dart) where
  count_polled_lem :
      (m : SocketMap D) (n : ℕ) → count_polled D m n ≡ n + length (polled_entries D m)
  unfolding count_polled polled_entries
  count_polled_lem [] n = omega arith
  count_polled_lem ((fd, di) ∷ rest) n = elim (Bool-cases (is_polled (D.mask di))) [
    | inl polled ↦ rw polled (omega (arith, count_polled_lem rest (n + 1)))
    | inr idle ↦ rw idle (count_polled_lem rest n)
  ]

  -- The second walk over the map writes exactly as many elements as the first has counted, so in no
  -- state does it write behind the buffer, which has grown to hold what was counted.
  pub poll_entries-fit :
      (capacity : ℕ) (h : Handler D)
      → (length (poll_entries D h) ≡ needed_entries D h)
        × (length (poll_entries D h) ≤ grow capacity (needed_entries D h))
  unfolding needed_entries poll_entries grow
  poll_entries-fit capacity h =
      let same : length (poll_entries D h) ≡ needed_entries D h =
        elim h.has_interrupt_fds
          as (λ b.
            length (
              if b
              then interrupt ∷ polled_entries D h.socket_map
              else polled_entries D h.socket_map)
            ≡ count_polled D h.socket_map (if b then 1 else 0)) [
              | true ↦ omega (arith, count_polled_lem h.socket_map 1)
              | false ↦ omega (arith, count_polled_lem h.socket_map 0)
            ] in
      (same, rw same (ground arith))

  abbrev pub post_all : List InterruptMessage → Handler D → Handler D
  post_all [] h = h
  post_all (m ∷ ms) h = post_all ms (wakeup_handler D m h)

  post_all_lem :
      (ms : List InterruptMessage) (h : Handler D)
      → post_all ms h ≡ record h { pending_messages = h.pending_messages ++ ms }
  unfolding wakeup_handler
  post_all_lem [] h = rw (append-nil h.pending_messages)
  post_all_lem (m ∷ ms) h = rw (post_all_lem ms, append_assoc h.pending_messages (m ∷ []) ms)

  process_all-append :
      (xs ys : List InterruptMessage) (h : Handler D)
      → process_all D (xs ++ ys) h ≡ process_all D ys (process_all D xs h)
  unfolding process_all
  process_all-append [] ys h = refl
  process_all-append (x ∷ xs) ys h = process_all-append xs ys (process_interrupt_message D x h)

  -- A message leaves the queue and the way of waking alone.
  abbrev pub Keeps : Handler D → Handler D → Type 0
  Keeps h h' =
      (h'.pending_messages ≡ h.pending_messages) × (h'.has_interrupt_fds ≡ h.has_interrupt_fds)

  run_command-Keeps :
      (socket port fd : ℕ) (di : D.DescriptorInfo) (c : Command) (h : Handler D)
      → Keeps h (run_command D socket port fd di c h)
  unfolding run_command close_socket destroy
  run_command-Keeps socket port fd di shutdown_read h = (refl, refl)
  run_command-Keeps socket port fd di shutdown_write h = (refl, refl)
  run_command-Keeps socket port fd di close_command h =
      elim (Bool-cases (D.is_listening_socket di)) [
        | inr plain ↦ rw plain (refl, refl)
        | inl listening ↦ elim (Bool-cases (D.close_safe socket)) [
          | inl last ↦ rw (listening, last) (refl, refl)
          | inr shared ↦ rw (listening, shared) (refl, refl)
        ]
      ]
  run_command-Keeps socket port fd di (return_token n) h = (refl, refl)
  run_command-Keeps socket port fd di (set_event_mask m) h = (refl, refl)

  socket_command-Keeps :
      (o : Option ℕ) (socket port : ℕ) (l : Bool) (c : Command) (h : Handler D)
      → Keeps h (socket_command D o socket port l c h)
  unfolding socket_command
  socket_command-Keeps none socket port l c h = (refl, refl)
  socket_command-Keeps (some fd) socket port l c h = run_command-Keeps socket port fd _ c _

  process_interrupt_message-Keeps :
      (m : InterruptMessage) (h : Handler D) → Keeps h (process_interrupt_message D m h)
  unfolding process_interrupt_message
  process_interrupt_message-Keeps (timer port time) h = (refl, refl)
  process_interrupt_message-Keeps shutdown_message h = (refl, refl)
  process_interrupt_message-Keeps (command s port l c) h =
      socket_command-Keeps (h.socket_fd s) s port l c h

  pub process_all-Keeps :
      (ms : List InterruptMessage) (h : Handler D) → Keeps h (process_all D ms h)
  unfolding process_all
  process_all-Keeps [] h = (refl, refl)
  process_all-Keeps (m ∷ ms) h =
      let (p, i) = process_interrupt_message-Keeps m h in
      let (p', i') = process_all-Keeps ms (process_interrupt_message D m h) in (p' ∙ p, i' ∙ i)

  -- However many messages are posted, HandleInterruptQueue processes them behind those that were
  -- waiting, in the order in which they were posted, each once, and leaves the queue empty.
  pub handle_interrupt_queue-post_all :
      (ms : List InterruptMessage) (h : Handler D)
      → let h' = handle_interrupt_queue D (post_all ms h) in
        (h' ≡ process_all D ms (handle_interrupt_queue D h)) × (h'.pending_messages ≡ [])
  unfolding handle_interrupt_queue
  handle_interrupt_queue-post_all ms h = rw (post_all_lem ms h) (
    process_all-append h.pending_messages ms (record h { pending_messages = [] }),
    (process_all-Keeps (h.pending_messages ++ ms) (record h { pending_messages = [] })).0,
  )
