-- ===== src/Retransmission/Feed.antt =====
-- include/imr/mold/retransmission/feed.h and src/mold/retransmission/feed.cpp.
-- `Address` is `sockaddr_in`, which this code only passes on. What `recvfrom` and `epoll_wait`
-- return is an argument, and `sent` lists what `sendmsg` was given. The buffer belongs to the
-- downstream side: a request sees it as it is then.
pub mod Parse
pub mod Request
pub mod Reply
pub mod Events
pub mod Service
mod Tests
use nasdaq_moldudp64_feed_si.Prelude.{
  ℕ, zero, suc, ◌+◌, ◌-◌, ◌^◌, Bool, true, false, not, ◌&&◌, ◌||◌, List, [], ◌∷◌, ◌++◌, length,
  take, overwrite, replicate, Option, none, some, min, ltb, ◌==◌, if◌then◌else◌,
}
use nasdaq_moldudp64_feed_si.Types.{
  header_length, session_size, sequence_number_size, sequence_number_offset, message_count_size,
  message_count_offset,
}
use nasdaq_moldudp64_feed_si.BinaryIo.{Endian, read_at_be}
use nasdaq_moldudp64_feed_si.Io.{read_message}
use nasdaq_moldudp64_feed_si.PacketBuilder
use nasdaq_moldudp64_feed_si.PacketBuilder.{PacketBuilder}
use nasdaq_moldudp64_feed_si.RetransmissionBuffer
use nasdaq_moldudp64_feed_si.RetransmissionBuffer.{RetransmissionBuffer}

pub record RequestContext (Address : Type 0) : Type 0 where
  pub client_address : Address
  pub starting_sequence : ℕ
  pub msg_count : ℕ
  pub file_position_for_retransmission : ℕ

-- The result of `recvfrom`: an errno, or a datagram and its sender.
pub data Reception (Address : Type 0) : Type 0 where
  failed : ℕ → Reception Address
  received : List ℕ → Address → Reception Address

-- An entry of `epoll_events_`, with what `recvfrom` on its descriptor returns and the buffer as it
-- is when the event is handled.
pub record Event (Address : Type 0) : Type 0 where
  pub fd : ℕ
  pub epollin : Bool
  pub reception : Reception Address
  pub buffer : RetransmissionBuffer

pub record Feed (Address : Type 0) : Type 0 where
  pub shutdown_fd : ℕ
  pub recv_buffer : List ℕ
  pub packet_builder : PacketBuilder
  pub file : List ℕ
  pub epoll_events : List (Event Address)
  pub sent : List (Address × List ℕ)

-- `==` of `std::string_view`.
unfoldable pub same_text : List ℕ → List ℕ → Bool
same_text [] [] = true
same_text [] (y ∷ ys) = false
same_text (x ∷ xs) [] = false
same_text (x ∷ xs) (y ∷ ys) = x == y && same_text xs ys

-- The loop of `build_packet`, by the rounds left. A message that is empty or does not fit ends it.
unfoldable pub build_loop : Endian → List ℕ → ℕ → ℕ → PacketBuilder → PacketBuilder
build_loop host file zero file_pos b = b
build_loop host file (suc rounds) file_pos b =
    let (msg, file_pos') = read_message host file file_pos in
    let (added, b') = PacketBuilder.try_add msg b in
    let rest = build_loop host file rounds file_pos' b' in
    if length msg == 0 then b else if not added then b' else rest

module _ {Address : Type 0} (host : Endian) where
  -- `parse_request` from the lookup of the position on.
  located : Address → Feed Address → ℕ → Option ℕ → Option (RequestContext Address)
  located client_addr f starting_sequence none = none
  located client_addr f starting_sequence (some file_pos) = some (record {
    client_address = client_addr;
    starting_sequence = starting_sequence;
    msg_count = read_at_be host message_count_size f.recv_buffer message_count_offset;
    file_position_for_retransmission = file_pos;
  })

  unfoldable pub parse_request :
      RetransmissionBuffer → Address → Feed Address → Option (RequestContext Address)
  unfolding located
  parse_request buffer client_addr f =
      let starting_sequence =
        read_at_be host sequence_number_size f.recv_buffer sequence_number_offset in
      if not (same_text (take session_size f.recv_buffer) (PacketBuilder.session f.packet_builder))
      then none
      else located client_addr f starting_sequence
          (RetransmissionBuffer.file_position_for starting_sequence buffer)

  unfoldable pub build_packet : RequestContext Address → Feed Address → Feed Address
  unfolding build_loop
  build_packet req_ctx f = record f {
    packet_builder =
        build_loop host f.file req_ctx.msg_count req_ctx.file_position_for_retransmission
          (PacketBuilder.reset host req_ctx.starting_sequence f.packet_builder);
  }

  unfoldable pub send_packet : Address → Feed Address → Feed Address
  send_packet client_addr f =
      let b = PacketBuilder.finalize host f.packet_builder in
      record f {
        packet_builder = b;
        sent = f.sent ++ ((client_addr, PacketBuilder.datagram b) ∷ []);
      }

  pub reply : Option (RequestContext Address) → Feed Address → Feed Address
  unfolding build_packet send_packet
  reply none f = f
  reply (some req_ctx) f = send_packet req_ctx.client_address (build_packet req_ctx f)

  -- A datagram longer than the buffer is cut off: `bytes_recv` is at most the buffer's size.
  unfoldable pub handle_request :
      RetransmissionBuffer → Reception Address → Feed Address → Feed Address
  unfolding reply parse_request
  handle_request buffer (failed errno) f = f
  handle_request buffer (received bytes client_addr) f =
      let f' = record f { recv_buffer = overwrite f.recv_buffer bytes } in
      if not (min (length bytes) (length f.recv_buffer) == header_length)
      then f'
      else reply (parse_request buffer client_addr f') f'

-- The result of `epoll_wait`: the events that it wrote to `epoll_events_`; or an errno, with what
-- `recvfrom` returns and the buffer as it is when an entry that an earlier call left in the array is
-- handled again, by the number of entries behind it.
pub data Wait (Address : Type 0) : Type 0 where
  wait_failed : ℕ → (ℕ → Reception Address × RetransmissionBuffer) → Wait Address
  ready : List (Event Address) → Wait Address

abbrev pub handled_again :
    {Address : Type 0}
    → (ℕ → Reception Address × RetransmissionBuffer)
    → List (Event Address)
    → List (Event Address)
handled_again again [] = []
handled_again again (event ∷ events) =
    let (reception, buffer) = again (length events) in
    record event { reception = reception; buffer = buffer } ∷ handled_again again events

-- How a round of `start` ends. `undefined`: an entry past the end of `epoll_events_` was read.
pub data Verdict (Address : Type 0) : Type 0 where
  running stopped : Feed Address → Verdict Address
  undefined : Verdict Address

-- The values of Linux.
abbrev pub eintr : ℕ
eintr = 4

abbrev pub eagain : ℕ
eagain = 11

module _ {Address : Type 0} (host : Endian) where
  -- `for (i = 0; i < nfds; ++i)` over the entries of the array, by the rounds left.
  unfoldable pub dispatch : ℕ → List (Event Address) → Feed Address → Verdict Address
  unfolding handle_request
  dispatch zero events f = running f
  dispatch (suc rounds) [] f = undefined
  dispatch (suc rounds) (event ∷ events) f =
      let handled =
        if event.epollin then handle_request host event.buffer event.reception f else f in
      let rest = dispatch rounds events handled in
      if event.fd == f.shutdown_fd then stopped f else rest

  -- One round of the loop. After a failure `nfds` is -1, and its cast to `std::size_t` the largest.
  unfoldable pub start_round : Wait Address → Feed Address → Verdict Address
  unfolding dispatch
  start_round (wait_failed errno again) f =
      if errno == eintr || errno == eagain
      then running f
      else dispatch (2 ^ 64 - 1) (handled_again again f.epoll_events) f
  start_round (ready events) f =
      let entries = overwrite f.epoll_events events in
      dispatch (length events) entries (record f { epoll_events = entries })

  resume : (Feed Address → Verdict Address) → Verdict Address → Verdict Address
  resume again (running f) = again f
  resume again (stopped f) = stopped f
  resume again undefined = undefined

  -- The loop over what `epoll_wait` returns; `running` after the last of it.
  unfoldable pub start_loop : List (Wait Address) → Feed Address → Verdict Address
  unfolding resume
  start_loop [] f = running f
  start_loop (wait ∷ waits) f = resume (start_loop waits) (start_round wait f)
