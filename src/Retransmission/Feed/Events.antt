-- ===== src/Retransmission/Feed/Events.antt =====
-- The requests that get no answer, and the event loop.
use mathlib.Core.Bool.{true≢false}
use nasdaq_moldudp64_feed_si.Prelude.{
  ℕ, zero, suc, ◌+◌, ◌-◌, ◌^◌, ◌≤◌, ◌<◌, min, ◌≡◌, refl, sym, ap, ap₂, ◌∙◌, subst, ◌≢◌, ◌⊎◌, inl,
  inr, Bool, true, false, not, ◌&&◌, ◌||◌, List, [], ◌∷◌, ◌++◌, length, take, drop, overwrite,
  Option, none, some, leb, ltb, ◌==◌, if◌then◌else◌, All, Bool-cases, arith,
}
use nasdaq_moldudp64_feed_si.BinaryIo.{Endian, IsByte, read_at_be}
use nasdaq_moldudp64_feed_si.PacketBuilder
use nasdaq_moldudp64_feed_si.PacketBuilder.Contents.{Holds, session-Holds}
use nasdaq_moldudp64_feed_si.RetransmissionBuffer
use nasdaq_moldudp64_feed_si.RetransmissionBuffer.{RetransmissionBuffer}
use nasdaq_moldudp64_feed_si.RetransmissionBuffer.Window.{Retains, file_position_for-window}
use nasdaq_moldudp64_feed_si.Retransmission.Feed.{
  RequestContext, Reception, failed, received, Event, Feed, same_text, located, parse_request,
  reply, build_packet, send_packet, handle_request, handled_again, wait_failed, ready, Verdict,
  running, stopped, undefined, eintr, eagain, dispatch, start_round,
}
use nasdaq_moldudp64_feed_si.Retransmission.Feed.Parse.{
  same_text_sound, request, request-Fields, request-sequence, handle_request-takes,
}

module _ {Address : Type 0} (host : Endian) (buffer : RetransmissionBuffer) (addr : Address) where
  -- A datagram shorter than a header is not answered, and nothing but the receive buffer changes.
  pub handle_request-short :
      (bytes : List ℕ) (f : Feed Address)
      → length bytes < 20
      → handle_request host buffer (received bytes addr) f
        ≡ record f { recv_buffer = overwrite f.recv_buffer bytes }
  unfolding handle_request
  handle_request-short bytes f short =
      ap (λ t. if not t then f' else reply host (parse_request host buffer addr f') f') wrong_size
    where
      f' : Feed Address
      f' = record f { recv_buffer = overwrite f.recv_buffer bytes }

      wrong_size : (min (length bytes) (length f.recv_buffer) == 20) ≡ false
      wrong_size = ground arith

  refused-session :
      (name own : List ℕ) (s count : ℕ) (f : Feed Address) {seq : ℕ} {held : List (List ℕ)}
      → All IsByte name
      → length name ≡ 10
      → Holds f.packet_builder own seq held
      → name ≢ own
      → parse_request host buffer addr (record f { recv_buffer = request name s count }) ≡ none
  unfolding parse_request
  refused-session name own s count f name_bytes ten h other =
      ap (λ t. if not t then none else asked) differs
    where
      f' : Feed Address
      f' = record f { recv_buffer = request name s count }

      asked : Option (RequestContext Address)
      asked = located host addr f' (read_at_be host 8 (request name s count) 10) (
          RetransmissionBuffer.file_position_for (read_at_be host 8 (request name s count) 10)
            buffer)

      differs :
          same_text (take 10 (request name s count)) (PacketBuilder.session f.packet_builder)
          ≡ false
      differs =
          elim (Bool-cases
            (same_text (take 10 (request name s count)) (PacketBuilder.session f.packet_builder))) [
              | inl same ↦ absurd (
                  other (
                    same_text_sound name own (
                      ap₂ same_text (sym (request-Fields name s count host ten name_bytes).session)
                        (sym (session-Holds h))
                      ∙ same)))
              | inr different ↦ different
            ]

  refused-number :
      (name : List ℕ) (s count : ℕ) (f : Feed Address)
      → All IsByte name
      → length name ≡ 10
      → s < 2 ^ 64
      → RetransmissionBuffer.file_position_for s buffer ≡ none
      → parse_request host buffer addr (record f { recv_buffer = request name s count }) ≡ none
  unfolding parse_request located
  refused-number name s count f name_bytes ten small unknown =
      ap
        (λ q.
          if not same
          then none
          else located host addr f' q (RetransmissionBuffer.file_position_for q buffer))
        (request-sequence name s count host ten name_bytes small)
      ∙ ap (λ o. if not same then none else located host addr f' s o) unknown
      ∙ both_none same
    where
      f' : Feed Address
      f' = record f { recv_buffer = request name s count }

      same : Bool
      same = same_text (take 10 (request name s count)) (PacketBuilder.session f.packet_builder)

      both_none :
          (t : Bool) → ◌≡◌ {A = Option (RequestContext Address)} (if not t then none else none) none
      both_none true = refl
      both_none false = refl

  -- A request that is not of the feed's session, or whose first number (from 1 on) is not one of the
  -- last `capacity` of the `n` recorded, is not answered; nothing but the receive buffer changes.
  pub handle_request-refuses :
      (s count n capacity : ℕ) (name own : List ℕ) (position : ℕ → ℕ) (f : Feed Address) {seq : ℕ}
      {held : List (List ℕ)}
      → All IsByte name
      → length name ≡ 10
      → length f.recv_buffer ≡ 20
      → Holds f.packet_builder own seq held
      → Retains buffer capacity n position
      → n + capacity < 2 ^ 64
      → 1 ≤ s
      → s < 2 ^ 64
      → (name ≢ own) ⊎ (n < s) ⊎ (s + capacity ≤ n)
      → handle_request host buffer (received (request name s count) addr) f
        ≡ record f { recv_buffer = request name s count }
  unfolding reply
  handle_request-refuses s count n capacity name own position f name_bytes ten receives h r room lo
        small why =
      handle_request-takes host buffer addr (request name s count) f receives
        (omega (arith, (request-Fields name s count host ten name_bytes).long))
      ∙ ap (λ o. reply host o (record f { recv_buffer = request name s count })) (refused why)
    where
      window :
          RetransmissionBuffer.file_position_for s buffer
          ≡ (if leb s n && ltb n (s + capacity) then some (position s) else none)
      window = file_position_for-window r s lo small room

      refused :
          (name ≢ own) ⊎ (n < s) ⊎ (s + capacity ≤ n)
          → parse_request host buffer addr (record f { recv_buffer = request name s count }) ≡ none
      refused (inl other) = refused-session name own s count f name_bytes ten h other
      refused (inr (inl ahead)) =
          refused-number name s count f name_bytes ten small (window ∙ ground arith)
      refused (inr (inr gone)) =
          refused-number name s count f name_bytes ten small (window ∙ ground arith)

pub overwrite_front :
    {A : Type 0} (xs ds : List A)
    → length ds ≤ length xs
    → overwrite xs ds ≡ ds ++ drop (length ds) xs
overwrite_front [] [] h = refl
overwrite_front [] (d ∷ ds) h = absurd (omega arith)
overwrite_front (x ∷ xs) [] h = refl
overwrite_front (x ∷ xs) (d ∷ ds) h = ap (λ l. d ∷ l) (overwrite_front xs ds (omega arith))

module _ {Address : Type 0} where
  -- An event of the shutdown descriptor is among the events.
  abbrev pub has_shutdown : ℕ → List (Event Address) → Bool
  has_shutdown fd [] = false
  has_shutdown fd (event ∷ events) = event.fd == fd || has_shutdown fd events

  -- The loop was stopped if the test is true, and goes on if it is false.
  abbrev StopsIf : Bool → Verdict Address → Type 0
  StopsIf test v =
      ((test ≡ true) × ((f : Feed Address) × (v ≡ stopped f)))
      ⊎ ((test ≡ false) × ((f : Feed Address) × (v ≡ running f)))

module _ {Address : Type 0} (host : Endian) where
  reply-shutdown_fd :
      (o : Option (RequestContext Address)) (f : Feed Address)
      → (reply host o f).shutdown_fd ≡ f.shutdown_fd
  unfolding reply build_packet send_packet
  reply-shutdown_fd none f = refl
  reply-shutdown_fd (some ctx) f = refl

  handle_request-shutdown_fd :
      (buffer : RetransmissionBuffer) (reception : Reception Address) (f : Feed Address)
      → (handle_request host buffer reception f).shutdown_fd ≡ f.shutdown_fd
  unfolding handle_request
  handle_request-shutdown_fd buffer (failed errno) f = refl
  handle_request-shutdown_fd buffer (received bytes addr) f =
      either (min (length bytes) (length f.recv_buffer) == 20)
    where
      f' : Feed Address
      f' = record f { recv_buffer = overwrite f.recv_buffer bytes }

      either :
          (t : Bool)
          → (if not t then f' else reply host (parse_request host buffer addr f') f').shutdown_fd
            ≡ f.shutdown_fd
      either true = reply-shutdown_fd (parse_request host buffer addr f') f'
      either false = refl

  abbrev pub handled : Event Address → Feed Address → Feed Address
  handled event f = if event.epollin then handle_request host event.buffer event.reception f else f

  handled-shutdown_fd :
      (event : Event Address) (f : Feed Address) → (handled event f).shutdown_fd ≡ f.shutdown_fd
  handled-shutdown_fd event f = elim (Bool-cases event.epollin) [
    | inl readable ↦ rw readable (handle_request-shutdown_fd event.buffer event.reception f)
    | inr not_readable ↦ rw not_readable refl
  ]

  -- Every event is looked at, until one is of the shutdown descriptor.
  dispatch-covers :
      (events stale : List (Event Address)) (f : Feed Address)
      → StopsIf
          (has_shutdown f.shutdown_fd events)
          (dispatch host (length events) (events ++ stale) f)
  unfolding dispatch
  dispatch-covers [] stale f = inr (refl, (f, refl))
  dispatch-covers (event ∷ events) stale f = elim (Bool-cases (event.fd == f.shutdown_fd)) [
    | inl shutdown ↦ rw shutdown (inl (refl, (f, refl)))
    | inr other ↦ rw other (
        subst
          (λ fd.
            StopsIf (has_shutdown fd events)
              (dispatch host (length events) (events ++ stale) (handled event f)))
          (handled-shutdown_fd event f) (dispatch-covers events stale (handled event f)))
  ]

  -- More rounds than entries, none of them of the shutdown descriptor, end past the array.
  dispatch-past :
      (rounds : ℕ) (events : List (Event Address)) (f : Feed Address)
      → length events < rounds
      → has_shutdown f.shutdown_fd events ≡ false
      → dispatch host rounds events f ≡ undefined
  unfolding dispatch
  dispatch-past zero events f more none_there = absurd (omega arith)
  dispatch-past (suc rounds) [] f more none_there = refl
  dispatch-past (suc rounds) (event ∷ events) f more none_there =
      elim (Bool-cases (event.fd == f.shutdown_fd)) [
        | inl shutdown ↦ absurd (
            true≢false
              (sym (ap (λ t. t || has_shutdown f.shutdown_fd events) shutdown) ∙ none_there))
        | inr other ↦
            ap (λ t. if t then stopped f else dispatch host rounds events (handled event f)) other
            ∙ dispatch-past rounds events (handled event f) (omega arith) (
                ap (λ fd. has_shutdown fd events) (handled-shutdown_fd event f)
                ∙ ap (λ t. t || has_shutdown f.shutdown_fd events) (sym other)
                ∙ none_there)
      ]

  -- A round with the events of a successful `epoll_wait`, no more of them than the array has room
  -- for, stops the loop if an event of the shutdown descriptor is among them, and goes on with the
  -- loop if not; it never reads past the array.
  start_round-ready :
      (events : List (Event Address)) (f : Feed Address)
      → length events ≤ length f.epoll_events
      → StopsIf (has_shutdown f.shutdown_fd events) (start_round host (ready events) f)
  unfolding start_round
  start_round-ready events f room = rw (overwrite_front f.epoll_events events room) (
      dispatch-covers events (drop (length events) f.epoll_events)
        (record f { epoll_events = events ++ drop (length events) f.epoll_events }))

  length-handled_again :
      (again : ℕ → Reception Address × RetransmissionBuffer) (events : List (Event Address))
      → length (handled_again again events) ≡ length events
  length-handled_again again [] = refl
  length-handled_again again (event ∷ events) = ap suc (length-handled_again again events)

  has_shutdown-handled_again :
      (fd : ℕ) (again : ℕ → Reception Address × RetransmissionBuffer)
      (events : List (Event Address))
      → has_shutdown fd (handled_again again events) ≡ has_shutdown fd events
  has_shutdown-handled_again fd again [] = refl
  has_shutdown-handled_again fd again (event ∷ events) =
      ap (λ b. event.fd == fd || b) (has_shutdown-handled_again fd again events)

  -- After a failure of `epoll_wait` other than EINTR and EAGAIN, the loop runs past the end of the
  -- array, unless one of the events of an earlier call that still stand there stops it. The array
  -- has fewer than 2 ^ 64 - 1 entries.
  pub start_round-fails :
      (errno : ℕ) (again : ℕ → Reception Address × RetransmissionBuffer) (f : Feed Address)
      → errno ≢ eintr
      → errno ≢ eagain
      → length f.epoll_events < 2 ^ 64 - 1
      → has_shutdown f.shutdown_fd f.epoll_events ≡ false
      → start_round host (wait_failed errno again) f ≡ undefined
  unfolding start_round
  start_round-fails errno again f not_interrupted not_again few none_there =
      ap
        (λ t.
          if t
          then running f
          else dispatch host (2 ^ 64 - 1) (handled_again again f.epoll_events) f)
        other
      ∙ dispatch-past (2 ^ 64 - 1) (handled_again again f.epoll_events) f
          (omega (arith, few, length-handled_again again f.epoll_events))
          (has_shutdown-handled_again f.shutdown_fd again f.epoll_events ∙ none_there)
    where
      other : (errno == eintr || errno == eagain) ≡ false
      other = ground arith
