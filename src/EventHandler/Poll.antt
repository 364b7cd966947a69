-- ===== src/EventHandler/Poll.antt =====
-- A round of EventHandlerImplementation::Poll.
use flutter_libnx.Prelude.{
  ℕ, zero, suc, ◌+◌, ◌-◌, ◌*◌, ◌%◌, ◌^◌, Bool, true, false, not, ◌&&◌, ◌||◌, Option, none, some,
  List, [], ◌∷◌, ◌++◌, if◌then◌else◌, ltb, ℤ, pos, negsuc, ◌+ℤ◌,
}
use flutter_libnx.EventHandler.Handler.{
  Mask, no_events, Revents, Dart, InterruptMessage, Post, post_mask, post_null, Handler, SocketMap,
  lookup_fd, put_fd,
}
use flutter_libnx.EventHandler.Messages.{handle_interrupt_queue, process_all}

abbrev pub fallback_poll_millis : ℕ
fallback_poll_millis = 20

-- What is asked of poll for a mask: POLLIN and POLLOUT.
abbrev pub is_polled : Mask → Bool
is_polled m = m.in_event || m.out_event

-- GetPollEvents of the handler: the mask for what poll reported.
unfoldable pub get_poll_events : Revents → Mask
get_poll_events r =
    if r.pollnval
    then record no_events { close_event = true }
    else if r.pollerr
    then (if r.pollin then record no_events { error_event = true } else no_events)
    else record {
      in_event = r.pollin;
      out_event = r.pollout;
      error_event = false;
      close_event = r.pollhup;
      destroyed_event = false;
    }

abbrev pub is_reported : Revents → Bool
is_reported r = r.pollin || r.pollout || r.pollerr || r.pollhup || r.pollnval

abbrev pub is_event : Mask → Bool
is_event m = m.in_event || m.out_event || m.error_event || m.close_event || m.destroyed_event

-- `static_cast<int>` of an int64_t.
unfoldable pub to_int : ℤ → ℤ
to_int (pos n) =
    if ltb (n % 2 ^ 32) (2 ^ 31) then pos (n % 2 ^ 32) else negsuc (2 ^ 32 - 1 - n % 2 ^ 32)
to_int (negsuc n) =
    if ltb (n % 2 ^ 32) (2 ^ 31) then negsuc (n % 2 ^ 32) else pos (2 ^ 32 - 1 - n % 2 ^ 32)

abbrev minus : ℤ → ℤ
minus (pos zero) = pos 0
minus (pos (suc n)) = negsuc n
minus (negsuc n) = pos (suc n)

abbrev is_positive : ℤ → Bool
is_positive (pos n) = ltb 0 n
is_positive (negsuc n) = false

-- The time that a queue with a timeout lets poll wait.
unfoldable pub timer_millis : ℤ → ℤ
unfolding to_int
timer_millis remaining = if is_positive remaining then to_int remaining else pos 0

-- A wait that is unlimited or too long is cut to the fallback's.
unfoldable pub cut_millis : ℤ → ℤ
cut_millis (negsuc n) = pos fallback_poll_millis
cut_millis (pos n) = if ltb fallback_poll_millis n then pos fallback_poll_millis else pos n

unfoldable pub timeout_millis : Bool → Option ℤ → ℤ
unfolding timer_millis cut_millis
timeout_millis has_fds none = if has_fds then negsuc 0 else cut_millis (negsuc 0)
timeout_millis has_fds (some remaining) =
    if has_fds then timer_millis remaining else cut_millis (timer_millis remaining)

-- The capacity of the buffers once `needed` elements are to be written.
unfoldable pub grow : ℕ → ℕ → ℕ
grow capacity needed = if ltb capacity needed then needed * 2 else capacity

-- An element of `fds` with that of `infos`: the interrupt descriptor, or a descriptor by its number.
pub data PollEntry : Type 0 where
  interrupt : PollEntry
  descriptor : ℕ → PollEntry

unfoldable pub interrupt_seen : List PollEntry → List Revents → Bool
interrupt_seen (interrupt ∷ es) (r ∷ rs) = is_reported r || interrupt_seen es rs
interrupt_seen (descriptor fd ∷ es) (r ∷ rs) = interrupt_seen es rs
interrupt_seen es rs = false

-- What poll returned: -1, 0, or the reports; and with these what the interrupt descriptor then
-- gives to read.
pub data PollResult : Type 0 where
  poll_failed timed_out : PollResult
  reported : List Revents → List InterruptMessage → PollResult

module _ (D : Dart) where
  -- The first walk over the map: `needed` counts.
  unfoldable pub count_polled : SocketMap D → ℕ → ℕ
  count_polled [] needed = needed
  count_polled ((fd, di) ∷ rest) needed =
      count_polled rest (if is_polled (D.mask di) then needed + 1 else needed)

  unfoldable pub needed_entries : Handler D → ℕ
  unfolding count_polled
  needed_entries h = count_polled h.socket_map (if h.has_interrupt_fds then 1 else 0)

  -- The second walk: what is written behind the first `count` elements.
  unfoldable pub polled_entries : SocketMap D → List PollEntry
  polled_entries [] = []
  polled_entries ((fd, di) ∷ rest) =
      if is_polled (D.mask di) then descriptor fd ∷ polled_entries rest else polled_entries rest

  unfoldable pub poll_entries : Handler D → List PollEntry
  unfolding polled_entries
  poll_entries h =
      if h.has_interrupt_fds
      then interrupt ∷ polled_entries h.socket_map
      else polled_entries h.socket_map

  -- The queue's remaining time at the time `now`.
  unfoldable pub remaining_time : ℤ → D.TimeoutQueue → Option ℤ
  remaining_time now q = if D.has_timeout q then some (D.current_timeout q +ℤ minus now) else none

  -- The timer that is due is posted and removed.
  unfoldable pub expire : ℤ → Handler D → Handler D
  expire now h =
      let q = h.timeout_queue in
      if D.has_timeout q && not (is_positive (D.current_timeout q +ℤ minus now))
      then record h {
        timeout_queue = D.remove_current q;
        posts = h.posts ++ (post_null (D.current_port q) ∷ []);
      }
      else h

  abbrev posts_to : List ℕ → Mask → List Post
  posts_to [] m = []
  posts_to (p ∷ ps) m = post_mask p m ∷ posts_to ps m

  -- The events of one descriptor.
  unfoldable pub notify : ℕ → D.DescriptorInfo → Mask → Handler D → Handler D
  notify fd di m h =
      let (ports, di_all) = D.notify_all_dart_ports m di in
      let (port, di_next) = D.next_notify_dart_port m di in
      if m.error_event
      then record h {
        socket_map = put_fd D fd di_all h.socket_map;
        posts = h.posts ++ posts_to ports m;
      }
      else if is_event m
      then record h {
        socket_map = put_fd D fd di_next h.socket_map;
        posts = h.posts ++ (post_mask port m ∷ []);
      }
      else h

  -- `none` is the use of a descriptor's info after it was deleted.
  unfoldable pub notify_entry : ℕ → Option D.DescriptorInfo → Mask → Handler D → Option (Handler D)
  unfolding notify
  notify_entry fd none m h = none
  notify_entry fd (some di) m h = some (notify fd di m h)

  -- An element that poll reported: the interrupt descriptor is only noted.
  unfoldable pub handle_entry : PollEntry → Revents → Handler D → Option (Handler D)
  unfolding notify_entry get_poll_events lookup_fd
  handle_entry interrupt r h = some h
  handle_entry (descriptor fd) r h =
      if is_reported r
      then notify_entry fd (lookup_fd D fd h.socket_map) (get_poll_events r) h
      else some h

  -- The loop over what poll reported, element by element.
  unfoldable pub handle_entries : List PollEntry → List Revents → Handler D → Option (Handler D)
  unfolding handle_entry
  handle_entries [] rs h = some h
  handle_entries (e ∷ es) [] h = some h
  handle_entries (e ∷ es) (r ∷ rs) h = elim (handle_entry e r h) [
    | none ↦ none
    | some h' ↦ handle_entries es rs h'
  ]

  unfoldable pub after_entries :
      Bool → List InterruptMessage → Option (Handler D) → Option (Handler D)
  unfolding process_all
  after_entries seen inbox none = none
  after_entries seen inbox (some h) = some (if seen then process_all D inbox h else h)

  -- What follows poll; `entries` were written before it.
  unfoldable pub after_poll : List PollEntry → PollResult → ℤ → Handler D → Option (Handler D)
  unfolding expire handle_entries interrupt_seen after_entries
  after_poll entries poll_failed now h = some h
  after_poll entries timed_out now h = some (expire now h)
  after_poll entries (reported rs inbox) now h =
      after_entries (interrupt_seen entries rs) inbox (handle_entries entries rs (expire now h))

  -- A round of the loop.
  unfoldable pub poll_round : PollResult → ℤ → Handler D → Option (Handler D)
  unfolding poll_entries after_poll handle_interrupt_queue
  poll_round result now h =
      after_poll (poll_entries h) result now
        (if h.has_interrupt_fds then h else handle_interrupt_queue D h)

  -- The loop, for what happens in each round, until it is shut down or nothing more happens.
  unfoldable pub poll_loop : List (PollResult × ℤ) → Handler D → Option (Handler D)
  unfolding poll_round
  poll_loop [] h = some h
  poll_loop ((result, now) ∷ rounds) h =
      let rest : Option (Handler D) = elim (poll_round result now h) [
        | none ↦ none
        | some h' ↦ poll_loop rounds h'
      ] in
      if h.shutdown then some h else rest
