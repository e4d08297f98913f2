-- ===== src/Itch.antt =====
-- src/itch/timestamp.cpp and the `peek_timestamp` of src/mold/downstream/feed.cpp.
pub mod Timestamp
mod Tests
use nasdaq_moldudp64_feed_si.Prelude.{
  ℕ, ◌+◌, ◌/◌, ◌^◌, List, ◌++◌, Option, none, some, length, take, drop, replicate, ltb,
  if◌then◌else◌,
}
use nasdaq_moldudp64_feed_si.Types.{length_prefix_size}
use nasdaq_moldudp64_feed_si.BinaryIo.{Endian, object_value, byteswap}

abbrev pub timestamp_size : ℕ
timestamp_size = 6

abbrev pub timestamp_offset : ℕ
timestamp_offset = 5

-- The six bytes are copied to the front of a zeroed 64-bit integer, which is then byte-swapped
-- and shifted down by 16 bits. On fewer than eleven bytes the source reads past its span: what
-- the definition gives there stands for nothing.
unfoldable pub extract_timestamp : Endian → List ℕ → ℕ
unfolding object_value byteswap
extract_timestamp host bytes =
    let copied = take timestamp_size (drop timestamp_offset bytes) in
    byteswap 8 (object_value host (copied ++ replicate 2 0)) / 2 ^ 16

unfoldable pub peek_timestamp : Endian → List ℕ → Option ℕ
unfolding extract_timestamp
peek_timestamp host bytes =
    if ltb (length bytes) (length_prefix_size + timestamp_size)
    then none
    else some (extract_timestamp host (drop length_prefix_size bytes))
