-- ===== src/Downstream/Feed.antt =====
-- include/imr/mold/downstream/feed.h and src/mold/downstream/feed.cpp: the replay loop.
-- `sendmsg` and `sendto` hand a datagram to the kernel, whatever they return: `sent` lists what
-- they were given. The stop token and the clock are read once or twice in a round: a `Round` is
-- what they return.
pub mod Packing
pub mod Replay
pub mod Stuck
pub mod EndOfSession
pub mod StopRequest
mod Tests
use nasdaq_moldudp64_feed_si.Prelude.{
  ℕ, zero, suc, ◌+◌, Bool, true, false, not, ◌&&◌, ◌||◌, List, [], ◌∷◌, ◌++◌, length, drop,
  replicate, Option, none, some, ltb, if◌then◌else◌, add_size,
}
use nasdaq_moldudp64_feed_si.Prelude.Int.{ℤ, pos, ltb_ℤ, ◌+ℤ◌}
use nasdaq_moldudp64_feed_si.Types.{
  header_length, session_offset, sequence_number_size, sequence_number_offset, message_count_size,
  message_count_offset, end_of_session_msg_count,
}
use nasdaq_moldudp64_feed_si.BinaryIo.{Endian, write_bytes_at, write_at_be}
use nasdaq_moldudp64_feed_si.Itch.{peek_timestamp}
use nasdaq_moldudp64_feed_si.Io.{read_message, skip_message}
use nasdaq_moldudp64_feed_si.PacketBuilder
use nasdaq_moldudp64_feed_si.PacketBuilder.{PacketBuilder}
use nasdaq_moldudp64_feed_si.RetransmissionBuffer
use nasdaq_moldudp64_feed_si.RetransmissionBuffer.{RetransmissionBuffer}
use nasdaq_moldudp64_feed_si.Downstream.Pacer
use nasdaq_moldudp64_feed_si.Downstream.Pacer.{Pacer}

pub record Feed : Type 0 where
  pub file : List ℕ
  pub file_pos : ℕ
  pub sequence_number : ℕ
  pub sent_sequence_number : ℕ
  pub retransmission_buffer : RetransmissionBuffer
  pub pacer : Pacer
  pub packet_builder : PacketBuilder
  pub sent : List (List ℕ)

-- The constructor's member initialisers, given the parts that its arguments make.
unfoldable pub make : List ℕ → RetransmissionBuffer → Pacer → PacketBuilder → Feed
make file retransmission_buffer pacer packet_builder = record {
  file = file;
  file_pos = 0;
  sequence_number = 1;
  sent_sequence_number = 1;
  retransmission_buffer = retransmission_buffer;
  pacer = pacer;
  packet_builder = packet_builder;
  sent = [];
}

pub record Round : Type 0 where
  pub stop_requested : Bool
  pub start : ℤ
  pub now : ℤ

-- The end of a round of the loop in `build_packet`, after `try_add`; true if the loop goes on.
unfoldable pub after_try_add : ℕ → Bool × PacketBuilder → Feed → Feed × Bool
after_try_add msg_file_pos (false, b) f =
    (record f { file_pos = msg_file_pos; packet_builder = b }, false)
after_try_add msg_file_pos (true, b) f = (
  record f {
    packet_builder = b;
    retransmission_buffer =
        RetransmissionBuffer.push
          (record { sequence_number = f.sequence_number; file_position = msg_file_pos })
          f.retransmission_buffer;
    sequence_number = add_size f.sequence_number 1;
  },
  true,
)

unfoldable pub add_message : ℕ → List ℕ × ℕ → Feed → Feed × Bool
add_message msg_file_pos ([], moved) f = (record f { file_pos = moved }, false)
add_message msg_file_pos (b ∷ bs, moved) f =
    after_try_add msg_file_pos (PacketBuilder.try_add (b ∷ bs) f.packet_builder)
      (record f { file_pos = moved })

module _ (host : Endian) where
  unfoldable pub build_round : Feed → Feed × Bool
  unfolding add_message
  build_round f = add_message f.file_pos (read_message host f.file f.file_pos) f

  -- `none` means that the fuel ran out.
  unfoldable pub build_loop : ℕ → Feed → Option Feed
  build_loop zero f = none
  build_loop (suc fuel) f =
      let round = build_round f in
      let rest = build_loop fuel round.0 in
      if ltb f.file_pos (length f.file) then (if round.1 then rest else some round.0) else some f

  -- Each round that goes on moves the position up, so the length of the file is fuel enough.
  unfoldable pub build_packet : Feed → Option Feed
  unfolding build_loop
  build_packet f =
      build_loop (suc (length f.file))
        (record f { packet_builder = PacketBuilder.reset host f.sequence_number f.packet_builder })

  unfoldable pub send_packet : Feed → Feed
  send_packet f =
      let b = PacketBuilder.finalize host f.packet_builder in
      record f {
        packet_builder = b;
        sent_sequence_number = f.sequence_number;
        sent = f.sent ++ (PacketBuilder.datagram b ∷ []);
      }

  -- The header that `end_of_session` writes over zeros.
  unfoldable pub end_of_session_packet : List ℕ → ℕ → List ℕ
  end_of_session_packet name sequence_number =
      let named = write_bytes_at (replicate header_length 0) session_offset name in
      let numbered =
        write_at_be host sequence_number_size named sequence_number_offset sequence_number in
      write_at_be host message_count_size numbered message_count_offset end_of_session_msg_count

  -- The loop, one round for each reading of the stop token and the clock: `true` where the token
  -- was triggered, and the clock. The first reading of the clock is `start`.
  unfoldable pub end_of_session_loop : List ℕ → ℤ → List (Bool × ℤ) → Feed → Feed
  end_of_session_loop packet end [] f = f
  end_of_session_loop packet end ((stop, now) ∷ readings) f =
      let rest =
        end_of_session_loop packet end readings (record f { sent = f.sent ++ (packet ∷ []) }) in
      if not stop && ltb_ℤ now end then rest else f

  unfoldable pub end_of_session : ℤ → ℤ → List (Bool × ℤ) → Feed → Feed
  end_of_session duration start readings f =
      end_of_session_loop
        (end_of_session_packet (PacketBuilder.session f.packet_builder) f.sequence_number)
        (start +ℤ duration) readings f

-- How a round of `start` ends: the loop goes on, or it has been left. `stuck` is neither: the
-- fuel of `build_packet` ran out.
pub data Outcome : Type 0 where
  continues left : Feed → Outcome
  stuck : Outcome

module _ (host : Endian) (scale : ℤ → ℤ) where
  -- After `skip_message`: on failure the loop is left.
  after_skip : Bool × ℕ → Feed → Outcome
  after_skip (true, moved) f = continues (record f { file_pos = moved })
  after_skip (false, moved) f = left (record f { file_pos = moved })

  -- After `build_packet`: the sleep, whose length the pacer computes, then the send.
  pub after_build : ℤ → Round → Option Feed → Outcome
  after_build timestamp round none = stuck
  after_build timestamp round (some f) =
      let (delay, pacer) = Pacer.get_delay scale f.pacer timestamp round.start round.now in
      continues (send_packet host (record f { pacer = pacer }))

  play : Round → Option ℕ → Feed → Outcome
  unfolding after_skip after_build
  play round none f = left f
  play round (some timestamp) f =
      if Pacer.should_skip f.pacer (pos timestamp)
      then after_skip (skip_message host f.file f.file_pos) f
      else after_build (pos timestamp) round (build_packet host f)

  -- One round of the loop of `start`, its test included.
  unfoldable pub start_round : Round → Feed → Outcome
  unfolding play
  start_round round f =
      if ltb f.file_pos (length f.file) && not round.stop_requested
      then play round (peek_timestamp host (drop f.file_pos f.file)) f
      else left f

  -- Goes on with the loop, or leaves it.
  resume : (Feed → Outcome) → Outcome → Outcome
  resume again (continues f) = again f
  resume again (left f) = left f
  resume again stuck = stuck

  -- The loop over the rounds that the environment grants; `continues` after the last of them.
  unfoldable pub start_loop : List Round → Feed → Outcome
  unfolding resume
  start_loop [] f = continues f
  start_loop (round ∷ rounds) f = resume (start_loop rounds) (start_round round f)

  pub end_when_left : ℤ → ℤ → List (Bool × ℤ) → Outcome → Option Feed
  end_when_left duration eos_start readings (left f) =
      some (end_of_session host duration eos_start readings f)
  end_when_left duration eos_start readings _ = none

  -- `start`, but for the heartbeat thread that runs beside its loop: `Downstream.Heartbeat`.
  -- `none` where the environment does not let the loop end.
  unfoldable pub start : List Round → ℤ → ℤ → List (Bool × ℤ) → Feed → Option Feed
  unfolding start_loop end_when_left
  start rounds duration eos_start readings f =
      end_when_left duration eos_start readings (start_loop rounds f)
