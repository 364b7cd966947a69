-- ===== src/EventHandler/Alive.antt =====
-- With an interrupt descriptor, no round touches the info of a descriptor that was deleted.
use flutter_libnx.Prelude.{
  ℕ, ◌≡◌, refl, ◌∙◌, Bool, true, false, some, List, [], ◌∷◌, arith, if◌then◌else◌, Bool-cases, inl,
  inr, ℤ, ◌==◌, All, ap, if_true, if_false,
}
use flutter_libnx.EventHandler.Handler.{
  Mask, Revents, Dart, InterruptMessage, Handler, SocketMap, lookup_fd, put_fd,
}
use flutter_libnx.EventHandler.Messages.{process_all, handle_interrupt_queue}
use flutter_libnx.EventHandler.Buffers.{process_all-Keeps}
use flutter_libnx.EventHandler.Poll.{
  is_polled, is_event, is_reported, get_poll_events, PollEntry, interrupt, descriptor, PollResult,
  poll_failed, timed_out, reported, polled_entries, poll_entries, expire, notify, notify_entry,
  handle_entry, handle_entries, interrupt_seen, after_entries, after_poll, poll_round, poll_loop,
}

module _ (D : Dart) where
  -- The descriptor has an info in the map.
  abbrev IsKnown : SocketMap D → ℕ → Type 0
  IsKnown m fd = (di : D.DescriptorInfo) × (lookup_fd D fd m ≡ some di)

  put_fd-IsKnown :
      (m : SocketMap D) (fd other : ℕ) (di : D.DescriptorInfo)
      → IsKnown m other
      → IsKnown (put_fd D fd di m) other
  unfolding lookup_fd put_fd
  put_fd-IsKnown [] fd other di (d, e) = cc
  put_fd-IsKnown ((key, old) ∷ rest) fd other di (d, e) = elim (Bool-cases (key == fd)) [
    | inl at ↦ elim (Bool-cases (key == other)) [
      | inl this ↦ rw at (di, rw this)
      | inr that ↦ rw at (d, rw that (rw that at e))
    ]
    | inr further ↦ elim (Bool-cases (key == other)) [
      | inl this ↦ rw further (old, rw this)
      | inr that ↦
          rw further
            (let (d', e') = put_fd-IsKnown rest fd other di (d, rw that at e) in (d', rw that e'))
    ]
  ]

  abbrev IsKnownEntry : SocketMap D → PollEntry → Type 0
  IsKnownEntry m interrupt = Unit
  IsKnownEntry m (descriptor fd) = IsKnown m fd

  cons-IsKnownEntry :
      (m : SocketMap D) (key : ℕ) (di : D.DescriptorInfo) (es : List PollEntry)
      → All (IsKnownEntry m) es
      → All (IsKnownEntry ((key, di) ∷ m)) es
  unfolding lookup_fd
  cons-IsKnownEntry m key di [] h = tt
  cons-IsKnownEntry m key di (interrupt ∷ es) h = (tt, cons-IsKnownEntry m key di es h.1)
  cons-IsKnownEntry m key di (descriptor fd ∷ es) h = elim (Bool-cases (key == fd)) [
    | inl this ↦ ((di, rw this), cons-IsKnownEntry m key di es h.1)
    | inr that ↦ ((h.0.0, rw that h.0.1), cons-IsKnownEntry m key di es h.1)
  ]

  polled_entries-IsKnown : (m : SocketMap D) → All (IsKnownEntry m) (polled_entries D m)
  unfolding polled_entries lookup_fd
  polled_entries-IsKnown [] = tt
  polled_entries-IsKnown ((fd, di) ∷ rest) = elim (Bool-cases (is_polled (D.mask di))) [
    | inl polled ↦ rw polled (
      (di, (let same : (fd == fd) ≡ true = ground arith in rw same)),
      cons-IsKnownEntry rest fd di (polled_entries D rest) (polled_entries-IsKnown rest),
    )
    | inr idle ↦
        rw idle (cons-IsKnownEntry rest fd di (polled_entries D rest) (polled_entries-IsKnown rest))
  ]

  -- What an element does keeps every known descriptor known, and the way of waking.
  abbrev Holds : Handler D → Handler D → Type 0
  Holds h h' =
      ((fd : ℕ) → IsKnown h.socket_map fd → IsKnown h'.socket_map fd)
      × (h'.has_interrupt_fds ≡ h.has_interrupt_fds)

  Holds-if : (h x y : Handler D) (b : Bool) → Holds h x → Holds h y → Holds h (if b then x else y)
  Holds-if h x y true hx hy = hx
  Holds-if h x y false hx hy = hy

  notify-Holds :
      (fd : ℕ) (di : D.DescriptorInfo) (m : Mask) (h : Handler D) → Holds h (notify D fd di m h)
  unfolding notify
  notify-Holds fd di m h =
      Holds-if h _ _ m.error_event
        (λ other. put_fd-IsKnown h.socket_map fd other (D.notify_all_dart_ports m di).1, refl)
        (Holds-if h _ _ (is_event m)
          (λ other. put_fd-IsKnown h.socket_map fd other (D.next_notify_dart_port m di).1, refl)
          ((λ other known. known), refl))

  handle_entry-Holds :
      (e : PollEntry) (r : Revents) (h : Handler D)
      → IsKnownEntry h.socket_map e
      → (h' : Handler D) × (handle_entry D e r h ≡ some h') × Holds h h'
  unfolding handle_entry notify_entry
  handle_entry-Holds interrupt r h known = (h, refl, ((λ other k. k), refl))
  handle_entry-Holds (descriptor fd) r h (di, e) = elim (Bool-cases (is_reported r)) [
    | inl hit ↦ (
      notify D fd di (get_poll_events r) h,
      rw (hit, e),
      notify-Holds fd di (get_poll_events r) h,
    )
    | inr quiet ↦ (h, rw quiet, ((λ other k. k), refl))
  ]

  All-Holds :
      (es : List PollEntry) (h h' : Handler D)
      → Holds h h'
      → All (IsKnownEntry h.socket_map) es
      → All (IsKnownEntry h'.socket_map) es
  All-Holds [] h h' keeps known = tt
  All-Holds (interrupt ∷ es) h h' keeps known = (tt, All-Holds es h h' keeps known.1)
  All-Holds (descriptor fd ∷ es) h h' keeps known =
      (keeps.0 fd known.0, All-Holds es h h' keeps known.1)

  handle_entries-Holds :
      (es : List PollEntry) (rs : List Revents) (h : Handler D)
      → All (IsKnownEntry h.socket_map) es
      → (h' : Handler D) × (handle_entries D es rs h ≡ some h')
        × (h'.has_interrupt_fds ≡ h.has_interrupt_fds)
  unfolding handle_entries
  handle_entries-Holds [] rs h known = (h, refl, refl)
  handle_entries-Holds (e ∷ es) [] h known = (h, refl, refl)
  handle_entries-Holds (e ∷ es) (r ∷ rs) h known =
      let (h1, e1, keeps) = handle_entry-Holds e r h (head-known e es h known) in
      let (h2, e2, same) =
        handle_entries-Holds es rs h1 (All-Holds es h h1 keeps (tail-known e es h known)) in
      (h2, rw (e1, handle_entries) e2, same ∙ keeps.1)
    where
      head-known :
          (e : PollEntry) (es : List PollEntry) (h : Handler D)
          → All (IsKnownEntry h.socket_map) (e ∷ es)
          → IsKnownEntry h.socket_map e
      head-known e es h known = known.0

      tail-known :
          (e : PollEntry) (es : List PollEntry) (h : Handler D)
          → All (IsKnownEntry h.socket_map) (e ∷ es)
          → All (IsKnownEntry h.socket_map) es
      tail-known e es h known = known.1

  expire-map :
      (now : ℤ) (h : Handler D)
      → ((expire D now h).socket_map ≡ h.socket_map)
        × ((expire D now h).has_interrupt_fds ≡ h.has_interrupt_fds)
  unfolding expire
  expire-map now h = ground arith

  after_entries_safe :
      (seen : Bool) (inbox : List InterruptMessage) (h : Handler D)
      → (h' : Handler D) × (after_entries D seen inbox (some h) ≡ some h')
        × (h'.has_interrupt_fds ≡ h.has_interrupt_fds)
  unfolding after_entries
  after_entries_safe true inbox h = (process_all D inbox h, refl, (process_all-Keeps D inbox h).1)
  after_entries_safe false inbox h = (h, refl, refl)

  after_poll_safe :
      (es : List PollEntry) (result : PollResult) (now : ℤ) (h : Handler D)
      → All (IsKnownEntry h.socket_map) es
      → (h' : Handler D) × (after_poll D es result now h ≡ some h')
        × (h'.has_interrupt_fds ≡ h.has_interrupt_fds)
  unfolding after_poll
  after_poll_safe es poll_failed now h known = (h, refl, refl)
  after_poll_safe es timed_out now h known = (expire D now h, refl, (expire-map now h).1)
  after_poll_safe es (reported rs inbox) now h known =
      let (same_map, same_fds) = expire-map now h in
      let (h1, e1, fds1) = handle_entries-Holds es rs (expire D now h) (rw same_map known) in
      let (h2, e2, fds2) = after_entries_safe (interrupt_seen es rs) inbox h1 in
      (h2, rw e1 e2, fds2 ∙ fds1 ∙ same_fds)

  poll_round_safe :
      (result : PollResult) (now : ℤ) (h : Handler D)
      → h.has_interrupt_fds ≡ true
      → (h' : Handler D) × (poll_round D result now h ≡ some h') × (h'.has_interrupt_fds ≡ true)
  unfolding poll_round poll_entries
  poll_round_safe result now h fds =
      let (h', e, same) =
        after_poll_safe (interrupt ∷ polled_entries D h.socket_map) result now h
          (tt, polled_entries-IsKnown h.socket_map) in
      (
        h',
        ap
              (λ es.
                after_poll D es result now
                  (if h.has_interrupt_fds then h else handle_interrupt_queue D h))
              (if_true _ _ fds)
            ∙ ap (after_poll D (interrupt ∷ polled_entries D h.socket_map) result now)
                (if_true _ _ fds)
            ∙ e,
        same ∙ fds,
      )

  -- While there is an interrupt descriptor, whatever poll reports in each round and whatever messages
  -- come in between, the loop never uses the info of a descriptor after it was deleted.
  pub poll_loop_safe :
      (rounds : List (PollResult × ℤ)) (h : Handler D)
      → h.has_interrupt_fds ≡ true
      → (h' : Handler D) × (poll_loop D rounds h ≡ some h')
  unfolding poll_loop
  poll_loop_safe [] h fds = (h, refl)
  poll_loop_safe ((result, now) ∷ rounds) h fds = elim (Bool-cases h.shutdown) [
    | inl ended ↦ (h, if_true _ _ ended)
    | inr runs ↦
        let (h1, e1, fds1) = poll_round_safe result now h fds in
        let (h2, e2) = poll_loop_safe rounds h1 fds1 in (h2, if_false _ _ runs ∙ rw e1 e2)
  ]
