-- ===== src/Examples.antt =====
-- Concrete messages and parts, for the tests.
pub mod Replay
use nasdaq_moldudp64_feed_si.Prelude.{ℕ, true, List, [], ◌∷◌}
use nasdaq_moldudp64_feed_si.PacketBuilder
use nasdaq_moldudp64_feed_si.PacketBuilder.{PacketBuilder, own_header}
use nasdaq_moldudp64_feed_si.RetransmissionBuffer.{RetransmissionBuffer, zero_record}

-- A message of eleven bytes with the timestamp `t`.
abbrev pub stamped : ℕ → List ℕ
stamped t = 83 ∷ 0 ∷ 0 ∷ 0 ∷ 0 ∷ 0 ∷ 0 ∷ 0 ∷ 0 ∷ 0 ∷ t ∷ []

abbrev pub early_messages : List (List ℕ)
early_messages = stamped 1 ∷ stamped 2 ∷ []

abbrev pub late_messages : List (List ℕ)
late_messages = stamped 5 ∷ stamped 6 ∷ stamped 7 ∷ []

-- "IMRSIM0001"
abbrev pub session_name : List ℕ
session_name = 73 ∷ 77 ∷ 82 ∷ 83 ∷ 73 ∷ 77 ∷ 48 ∷ 48 ∷ 48 ∷ 49 ∷ []

-- A packet has room for two of the messages.
abbrev pub config : PacketBuilder.Config
config = record { session = session_name; mtu = 50; min_message_size = 2 }

abbrev pub builder : PacketBuilder
builder = record {
  mtu = 50;
  bytes_remaining = 30;
  header_buffer =
      73 ∷ 77 ∷ 82 ∷ 83 ∷ 73 ∷ 77 ∷ 48 ∷ 48 ∷ 48 ∷ 49 ∷ 0 ∷ 0 ∷ 0 ∷ 0 ∷ 0 ∷ 0 ∷ 0 ∷ 0 ∷ 0 ∷ 0 ∷ [];
  iovecs = own_header ∷ [];
  min_message_size = 2;
}

-- A buffer for two messages.
abbrev pub empty_buffer : RetransmissionBuffer
empty_buffer = record {
  buffer = zero_record ∷ zero_record ∷ [];
  mask = 1;
  use_mask = true;
  write_seq = 0;
}
