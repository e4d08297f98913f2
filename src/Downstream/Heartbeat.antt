-- ===== src/Downstream/Heartbeat.antt =====
-- include/imr/mold/downstream/heartbeat.h and src/mold/downstream/heartbeat.cpp.
-- `sent` lists what `sendto` was given. A `Beat` is what the thread reads before and in a round: the
-- stop token, and the sequence number of the feed.
pub mod Thread
mod Tests
use nasdaq_moldudp64_feed_si.Prelude.{ℕ, Bool, List, [], ◌∷◌, ◌++◌, replicate, if◌then◌else◌}
use nasdaq_moldudp64_feed_si.Prelude.Int.{ℤ}
use nasdaq_moldudp64_feed_si.Types.{
  header_length, session_offset, sequence_number_size, sequence_number_offset, message_count_size,
  message_count_offset, heartbeat_msg_count,
}
use nasdaq_moldudp64_feed_si.BinaryIo.{Endian, write_bytes_at, write_at_be}

pub record Heartbeat : Type 0 where
  pub packet : List ℕ
  pub period : ℤ
  pub sent : List (List ℕ)

pub record Beat : Type 0 where
  pub stop_requested : Bool
  pub next_seq : ℕ

module _ (host : Endian) where
  -- The constructor; the sequence number is written when a heartbeat is sent.
  unfoldable pub make : ℤ → List ℕ → Heartbeat
  make period session = record {
    packet =
        write_at_be host message_count_size
          (write_bytes_at (replicate header_length 0) session_offset session) message_count_offset
          heartbeat_msg_count;
    period = period;
    sent = [];
  }

  unfoldable pub send : ℕ → Heartbeat → Heartbeat
  send seq h =
      let packet = write_at_be host sequence_number_size h.packet sequence_number_offset seq in
      record h { packet = packet; sent = h.sent ++ (packet ∷ []) }

  -- The thread that `start` begins and `stop` asks to stop and joins: one element for each time that
  -- it evaluates the condition of its loop.
  unfoldable pub run : List Beat → Heartbeat → Heartbeat
  run [] h = h
  run (beat ∷ beats) h =
      let rest = run beats (send beat.next_seq h) in if beat.stop_requested then h else rest
