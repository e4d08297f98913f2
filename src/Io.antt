-- ===== src/Io.antt =====
-- src/mold/io.cpp: reading and skipping length-prefixed messages of the mapped file.
-- A position that the source updates through `std::size_t& pos` is returned beside the result.
pub mod Reading
pub mod Frames
mod Tests
use nasdaq_moldudp64_feed_si.Prelude.{
  ℕ, ◌+◌, List, [], Option, none, some, Bool, true, false, length, take, drop, ltb, add_size,
  if◌then◌else◌,
}
use nasdaq_moldudp64_feed_si.Types.{length_prefix_size}
use nasdaq_moldudp64_feed_si.BinaryIo.{Endian, read_be}

-- The part behind the first test: the prefix has been read and `pos` stands past it.
check_length_prefix : List ℕ → ℕ × ℕ → Option ℕ × ℕ
check_length_prefix bytes (length_prefix, pos) =
    if ltb (length bytes) (add_size pos length_prefix)
    then (none, pos)
    else (some length_prefix, add_size pos length_prefix)

unfoldable pub get_and_check_length_prefix : Endian → List ℕ → ℕ → Option ℕ × ℕ
unfolding check_length_prefix
get_and_check_length_prefix host bytes pos =
    if ltb (length bytes) (add_size pos length_prefix_size)
    then (none, pos)
    else check_length_prefix bytes (read_be host length_prefix_size bytes pos)

message_of : List ℕ → ℕ → Option ℕ × ℕ → List ℕ × ℕ
message_of bytes start (none, pos) = ([], pos)
message_of bytes start (some length_prefix, pos) =
    (take (length_prefix_size + length_prefix) (drop start bytes), pos)

-- The message with its prefix, empty on failure.
unfoldable pub read_message : Endian → List ℕ → ℕ → List ℕ × ℕ
unfolding message_of
read_message host bytes pos = message_of bytes pos (get_and_check_length_prefix host bytes pos)

has_value : Option ℕ → Bool
has_value none = false
has_value (some _) = true

unfoldable pub skip_message : Endian → List ℕ → ℕ → Bool × ℕ
unfolding has_value
skip_message host bytes pos =
    let (length_prefix, pos') = get_and_check_length_prefix host bytes pos in
    (has_value length_prefix, pos')
