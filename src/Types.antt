-- ===== src/Types.antt =====
-- include/imr/mold/types.h: the layout of a MoldUDP64 header.
use nasdaq_moldudp64_feed_si.Prelude.{ℕ, ◌+◌}

-- `sizeof` of `Session`, `SequenceNumber`, `MessageCount` and `LengthPrefix`.
abbrev pub session_size : ℕ
session_size = 10

abbrev pub sequence_number_size : ℕ
sequence_number_size = 8

abbrev pub message_count_size : ℕ
message_count_size = 2

abbrev pub length_prefix_size : ℕ
length_prefix_size = 2

abbrev pub header_length : ℕ
header_length = session_size + sequence_number_size + message_count_size

abbrev pub session_offset : ℕ
session_offset = 0

abbrev pub sequence_number_offset : ℕ
sequence_number_offset = session_size

abbrev pub message_count_offset : ℕ
message_count_offset = sequence_number_offset + sequence_number_size

abbrev pub heartbeat_msg_count : ℕ
heartbeat_msg_count = 0

abbrev pub end_of_session_msg_count : ℕ
end_of_session_msg_count = 0xffff
