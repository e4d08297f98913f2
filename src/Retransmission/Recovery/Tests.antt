-- ===== src/Retransmission/Recovery/Tests.antt =====
-- Tests of a client's recovery.
use nasdaq_moldudp64_feed_si.Prelude.{
  false, true, ◌<◌, ℕ, ◌≡◌, refl, [], ◌∷◌, ◌++◌, replicate, arith,
}
use nasdaq_moldudp64_feed_si.Prelude.Int.{pos, ◌+ℤ◌}
use nasdaq_moldudp64_feed_si.BinaryIo.{little}
use nasdaq_moldudp64_feed_si.BinaryIo.Bytes.{be_bytes}
use nasdaq_moldudp64_feed_si.Io.Frames.{frames}
use nasdaq_moldudp64_feed_si.PacketBuilder.Contents.{make-Holds}
use nasdaq_moldudp64_feed_si.RetransmissionBuffer
use nasdaq_moldudp64_feed_si.RetransmissionBuffer.{RetransmissionBuffer, MessageRecord, zero_record}
use nasdaq_moldudp64_feed_si.RetransmissionBuffer.Window.{make-Retains, push-Retains}
use nasdaq_moldudp64_feed_si.Downstream.Pacer
use nasdaq_moldudp64_feed_si.Downstream.Feed as Downstream
use nasdaq_moldudp64_feed_si.Downstream.Feed.{start}
use nasdaq_moldudp64_feed_si.Downstream.Feed.Packing.{position}
use nasdaq_moldudp64_feed_si.Retransmission.Feed.{Feed}
use nasdaq_moldudp64_feed_si.Retransmission.Feed.Request.{Serves}
use nasdaq_moldudp64_feed_si.Retransmission.Recovery.{recover, Recovers, recover-Recovers}
use nasdaq_moldudp64_feed_si.Retransmission.Recovery.Subscriber.Replayed.{Lossless, start-Lossless}
use nasdaq_moldudp64_feed_si.Downstream.Feed.EndOfSession.{announcements}
use nasdaq_moldudp64_feed_si.Exception.{ok}
use nasdaq_moldudp64_feed_si.Examples.{
  stamped, early_messages, late_messages, session_name, config, builder, empty_buffer,
}
use nasdaq_moldudp64_feed_si.Examples.Replay.{
  normal, rounds, rounds-IsGoing, readings, builder-made, buffer-made, stamped-IsMessage,
  early-IsSkipped, late-IsSendable, frames-short,
}

-- A client is a number.
abbrev served : Feed ℕ
served = record {
  shutdown_fd = 3;
  recv_buffer = replicate 20 0;
  packet_builder = builder;
  file = frames (early_messages ++ late_messages);
  epoll_events = [];
  sent = [];
}

served-Serves : Serves served session_name (frames early_messages) late_messages
unfolding be_bytes
served-Serves = record {
  span = (omega arith, omega arith);
  messages = omega arith;
  whole = refl;
  name_bytes = omega arith;
  receives = refl;
  seq = 0;
  held = [];
  holds = (make-Holds config builder-made).0;
  mtu = omega arith;
}

-- The three messages were recorded, and the buffer has room for two.
abbrev recorded : ℕ → MessageRecord
recorded s = record {
  sequence_number = s;
  file_position = position (frames early_messages) late_messages s;
}

abbrev full_buffer : RetransmissionBuffer
full_buffer =
    RetransmissionBuffer.push (recorded 3)
      (RetransmissionBuffer.push (recorded 2) (RetransmissionBuffer.push (recorded 1) empty_buffer))

recover-Recovers_example :
    Recovers served
      (recover little full_buffer 77 session_name 2 2 2 served)
      77
      session_name
      (frames early_messages)
      late_messages
      2
      (stamped 6 ∷ stamped 7 ∷ [])
unfolding be_bytes
recover-Recovers_example =
    recover-Recovers little full_buffer 77 3 2 session_name (frames early_messages) late_messages 2
      2 2 served served-Serves
      (push-Retains (
        push-Retains (
          push-Retains (
            make-Retains 2 (position (frames early_messages) late_messages) (omega arith)
              buffer-made))))
      (omega arith) (omega arith) (omega arith) (omega arith) (omega arith) (omega arith)
      (omega arith) (omega arith)

-- The buffer has room for four messages; the first datagram is lost.
abbrev large_buffer : RetransmissionBuffer
large_buffer = record { buffer = replicate 4 zero_record; mask = 3; use_mask = true; write_seq = 0 }

large_buffer-made : RetransmissionBuffer.make 4 ≡ ok large_buffer
unfolding RetransmissionBuffer.make
large_buffer-made = refl

announces : 0 < announcements (pos 0 +ℤ pos 10) readings
unfolding ◌+ℤ◌
announces = omega arith

start-Lossless_example :
    Lossless little
      (start little normal rounds (pos 10) (pos 0) readings (
        Downstream.make
          (frames (early_messages ++ late_messages))
          large_buffer
          (Pacer.make (pos 3))
          builder))
      (false ∷ true ∷ [])
      77
      session_name
      served
      late_messages
start-Lossless_example =
    start-Lossless little normal 4 early_messages late_messages rounds (pos 3) (pos 10) (pos 0)
      readings config (false ∷ true ∷ []) 77 served builder-made large_buffer-made (omega arith)
      (omega arith) (omega arith) (omega arith) stamped-IsMessage frames-short early-IsSkipped
      late-IsSendable rounds-IsGoing (omega arith) announces served-Serves refl
