-- ===== src/Io/Tests.antt =====
-- Tests of src/mold/io.cpp.
use nasdaq_moldudp64_feed_si.Prelude.{
  ℕ, ◌+◌, ◌≡◌, refl, false, not, List, [], ◌∷◌, ◌++◌, length, arith,
}
use nasdaq_moldudp64_feed_si.BinaryIo.{
  little, read_be, read, object_value, le_value, to_be, byteswap, le_bytes,
}
use nasdaq_moldudp64_feed_si.BinaryIo.Bytes.{be_bytes}
use nasdaq_moldudp64_feed_si.Io.{
  get_and_check_length_prefix, message_of, read_message, has_value, skip_message,
}
use nasdaq_moldudp64_feed_si.Io.Reading.{
  Reads, is_empty, get_and_check_length_prefix-Reads, skip_message-read_message,
}
use nasdaq_moldudp64_feed_si.Io.Frames.{frame, read_message-frame}

-- Two messages, then a prefix of 9 with one byte behind it.
abbrev bytes : List ℕ
bytes = 0 ∷ 1 ∷ 65 ∷ 0 ∷ 2 ∷ 66 ∷ 67 ∷ 0 ∷ 9 ∷ 68 ∷ []

read_message-runs : read_message little bytes 3 ≡ (0 ∷ 2 ∷ 66 ∷ 67 ∷ [], 7)
unfolding read_message get_and_check_length_prefix message_of read_be read object_value le_value
    to_be byteswap le_bytes
read_message-runs = refl

read_message-overrun_runs : read_message little bytes 7 ≡ ([], 9)
unfolding read_message get_and_check_length_prefix message_of read_be read object_value le_value
    to_be byteswap le_bytes
read_message-overrun_runs = refl

skip_message-overrun_runs : skip_message little bytes 7 ≡ (false, 9)
unfolding skip_message has_value get_and_check_length_prefix read_be read object_value le_value
    to_be byteswap le_bytes
skip_message-overrun_runs = refl

get_and_check_length_prefix-Reads_example :
    Reads bytes 7 (get_and_check_length_prefix little bytes 7)
get_and_check_length_prefix-Reads_example =
    get_and_check_length_prefix-Reads little bytes 7 (omega arith, omega arith) (omega arith)

skip_message-read_message_example :
    skip_message little bytes 3
    ≡ (not (is_empty (read_message little bytes 3).0), (read_message little bytes 3).1)
skip_message-read_message_example =
    skip_message-read_message little bytes 3 (omega arith, omega arith) (omega arith)

read_message-frame_example :
    read_message little ((1 ∷ 2 ∷ []) ++ (frame (66 ∷ 67 ∷ []) ++ (3 ∷ []))) 2
    ≡ (frame (66 ∷ 67 ∷ []), 2 + length (frame (66 ∷ 67 ∷ [])))
unfolding be_bytes
read_message-frame_example =
    read_message-frame (1 ∷ 2 ∷ []) (66 ∷ 67 ∷ []) (3 ∷ []) (omega arith, omega arith) little
      (omega arith, omega arith)
