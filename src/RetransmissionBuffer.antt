-- ===== src/RetransmissionBuffer.antt =====
-- include/imr/mold/retransmission_buffer.h and src/mold/retransmission_buffer.cpp, called from one
-- thread at a time.
pub mod Window
pub mod Race
mod Tests
use nasdaq_moldudp64_feed_si.Prelude.{
  ℕ, ◌+◌, ◌-◌, ◌%◌, ◌^◌, bit_and, Bool, not, ◌&&◌, ◌||◌, List, length, get_elem?, set, replicate,
  Option, none, some, ltb, leb, ◌==◌, if◌then◌else◌, add_size,
}
use nasdaq_moldudp64_feed_si.Exception.{Result, ok, throws, buffer_size_zero}

pub record MessageRecord : Type 0 where
  pub sequence_number : ℕ
  pub file_position : ℕ

abbrev pub zero_record : MessageRecord
zero_record = record { sequence_number = 0; file_position = 0 }

pub record RetransmissionBuffer : Type 0 where
  pub buffer : List MessageRecord
  pub mask : ℕ
  pub use_mask : Bool
  pub write_seq : ℕ

-- The constructor; `resize` fills the vector with zero records.
unfoldable pub make : ℕ → Result RetransmissionBuffer
make buffer_size =
    let mask = (buffer_size + 2 ^ 64 - 1) % 2 ^ 64 in
    if buffer_size == 0
    then throws buffer_size_zero
    else ok (record {
      buffer = replicate buffer_size zero_record;
      mask = mask;
      use_mask = not (buffer_size == 0) && (bit_and buffer_size mask == 0);
      write_seq = 0;
    })

unfoldable pub index_for : RetransmissionBuffer → ℕ → ℕ
index_for b seq_num = if b.use_mask then bit_and seq_num b.mask else seq_num % length b.buffer

unfoldable pub push : MessageRecord → RetransmissionBuffer → RetransmissionBuffer
unfolding index_for
push message_record b = record b {
  buffer = set b.buffer (index_for b message_record.sequence_number) message_record;
  write_seq = message_record.sequence_number;
}

-- The entry is checked against the number that was asked for. A slot out of range is `none`;
-- `Window.index_in_range` rules it out.
unfoldable pub checked_position : ℕ → Option MessageRecord → Option ℕ
checked_position seq_num none = none
checked_position seq_num (some entry) =
    if entry.sequence_number == seq_num then some entry.file_position else none

unfoldable pub file_position_for : ℕ → RetransmissionBuffer → Option ℕ
unfolding index_for checked_position
file_position_for seq_num b =
    let current_seq_num = b.write_seq in
    let overwritten = leb (add_size seq_num (length b.buffer)) current_seq_num in
    let not_yet_sent = ltb current_seq_num seq_num in
    let buffer_empty = current_seq_num == 0 in
    if overwritten || not_yet_sent || buffer_empty
    then none
    else checked_position seq_num (get_elem? b.buffer (index_for b seq_num))

unfoldable pub size : RetransmissionBuffer → ℕ
size b = length b.buffer
