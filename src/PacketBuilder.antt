-- ===== src/PacketBuilder.antt =====
-- include/imr/mold/packet_builder.h and src/mold/packet_builder.cpp.
-- The messages are spans of the mapped file, which nobody writes: a span is its bytes.
pub mod Contents
pub mod Bounds
pub mod Wire
mod Tests
use nasdaq_moldudp64_feed_si.Prelude.{
  ℕ, ◌+◌, ◌-◌, ◌/◌, ◌%◌, ◌^◌, Bool, true, false, not, ◌||◌, List, [], ◌∷◌, ◌++◌, length, take,
  replicate, ltb, ◌==◌, if◌then◌else◌,
}
use nasdaq_moldudp64_feed_si.Types.{
  header_length, session_size, sequence_number_size, message_count_size, sequence_number_offset,
  message_count_offset,
}
use nasdaq_moldudp64_feed_si.Exception.{
  Result, ok, throws, undefined, mtu_too_small, session_not_ten_characters,
}
use nasdaq_moldudp64_feed_si.BinaryIo.{Endian, write_at_be, write_bytes_at}

pub record Config : Type 0 where
  pub session : List ℕ
  pub mtu : ℕ
  pub min_message_size : ℕ

-- An `iovec`: value-initialised, pointing at `header_buffer_`, or pointing at a message.
pub data Iovec : Type 0 where
  null own_header : Iovec
  message : List ℕ → Iovec

pub record PacketBuilder : Type 0 where
  pub mtu : ℕ
  pub bytes_remaining : ℕ
  pub header_buffer : List ℕ
  pub iovecs : List Iovec
  pub min_message_size : ℕ

-- The constructor. Its `reserve` divides by `min_message_size`.
unfoldable pub make : Config → Result PacketBuilder
make cfg =
    if ltb cfg.mtu header_length
    then throws mtu_too_small
    else if not (length cfg.session == session_size)
    then throws session_not_ten_characters
    else if cfg.min_message_size == 0
    then undefined
    else ok (record {
      mtu = cfg.mtu;
      bytes_remaining = cfg.mtu - header_length;
      header_buffer = write_bytes_at (replicate header_length 0) 0 cfg.session;
      iovecs = own_header ∷ [];
      min_message_size = cfg.min_message_size;
    })

-- `bytes_remaining_ -= message.size()` runs only where the message is not larger.
unfoldable pub try_add : List ℕ → PacketBuilder → Bool × PacketBuilder
try_add bytes b =
    if ltb b.bytes_remaining (length bytes) || length bytes == 0 then (false, b) else (
      true,
      record b {
        bytes_remaining = b.bytes_remaining - length bytes;
        iovecs = b.iovecs ++ (message bytes ∷ []);
      },
    )

-- `static_cast<MessageCount>(iovecs_.size() - 1)`, with `std::size_t` subtraction.
unfoldable pub message_count : PacketBuilder → ℕ
message_count b = (length b.iovecs + 2 ^ 64 - 1) % 2 ^ 64 % 2 ^ 16

-- The builder with the count in its header; its `iovecs` are the span that the source returns.
unfoldable pub finalize : Endian → PacketBuilder → PacketBuilder
unfolding message_count
finalize host b = record b {
  header_buffer =
      write_at_be host message_count_size b.header_buffer message_count_offset (message_count b);
}

-- `iovecs_.resize(1)`
resize_one : List Iovec → List Iovec
resize_one [] = null ∷ []
resize_one (v ∷ _) = v ∷ []

unfoldable pub reset : Endian → ℕ → PacketBuilder → PacketBuilder
unfolding resize_one
reset host seq b = record b {
  header_buffer = write_at_be host sequence_number_size b.header_buffer sequence_number_offset seq;
  iovecs = resize_one b.iovecs;
  bytes_remaining = b.mtu - header_length;
}

unfoldable pub session : PacketBuilder → List ℕ
session b = take session_size b.header_buffer

-- The bytes that `sendmsg` gathers from the iovecs: the datagram.
pub gather : List ℕ → List Iovec → List ℕ
gather header_buffer [] = []
gather header_buffer (null ∷ vs) = gather header_buffer vs
gather header_buffer (own_header ∷ vs) = header_buffer ++ gather header_buffer vs
gather header_buffer (message bytes ∷ vs) = bytes ++ gather header_buffer vs

unfoldable pub datagram : PacketBuilder → List ℕ
unfolding gather
datagram b = gather b.header_buffer b.iovecs
