-- ===== src/RetransmissionBuffer/Race.antt =====
-- `push` in the downstream thread and `file_position_for` in another, interleaved, as in
-- src/mold/retransmission_buffer.cpp. A step is one access to what the threads share: the writer
-- copies a record into its slot, then stores `write_seq_`; the reader loads `write_seq_`, compares
-- the sequence number of the slot, then reads its file position. The steps happen one after the
-- other. A record is copied field by field: until the copy is complete, anything may stand in the slot.
pub mod Reads
mod Tests
use nasdaq_moldudp64_feed_si.Prelude.{
  ℕ, suc, ◌+◌, ◌≡◌, ◌||◌, length, get_elem?, set, Option, none, some, ltb, leb, ◌==◌, if◌then◌else◌,
  add_size,
}
use nasdaq_moldudp64_feed_si.RetransmissionBuffer.{MessageRecord, RetransmissionBuffer, index_for}

-- The slot of number `s` holds `entry`.
unfoldable pub store_at : ℕ → MessageRecord → RetransmissionBuffer → RetransmissionBuffer
store_at s entry b = record b { buffer = set b.buffer (index_for b s) entry }

-- The two parts of `push`.
unfoldable pub copy_record : MessageRecord → RetransmissionBuffer → RetransmissionBuffer
unfolding store_at
copy_record m b = store_at m.sequence_number m b

unfoldable pub publish : MessageRecord → RetransmissionBuffer → RetransmissionBuffer
publish m b = record b { write_seq = m.sequence_number }

-- Where the reader stands in `file_position_for`.
pub data Reader : Type 0 where
  asking accepted matched : Reader
  finished : Option ℕ → Reader

-- The parts of `file_position_for`. A slot out of range is `none`; `Window.index_in_range` rules it
-- out.
unfoldable pub after_load : ℕ → RetransmissionBuffer → Reader
after_load seq_num b =
    let current_seq_num = b.write_seq in
    let overwritten = leb (add_size seq_num (length b.buffer)) current_seq_num in
    let not_yet_sent = ltb current_seq_num seq_num in
    let buffer_empty = current_seq_num == 0 in
    if overwritten || not_yet_sent || buffer_empty then finished none else accepted

unfoldable pub after_compare : ℕ → Option MessageRecord → Reader
after_compare seq_num none = finished none
after_compare seq_num (some entry) =
    if entry.sequence_number == seq_num then matched else finished none

unfoldable pub after_read : Option MessageRecord → Reader
after_read none = finished none
after_read (some entry) = finished (some entry.file_position)

-- The buffer, the numbers of messages whose copying has begun and is complete, and the reader.
pub record System : Type 0 where
  pub buffer : RetransmissionBuffer
  pub begun : ℕ
  pub copied : ℕ
  pub reader : Reader

abbrev pub message_record : (ℕ → ℕ) → ℕ → MessageRecord
message_record position s = record { sequence_number = s; file_position = position s }

module _ (position : ℕ → ℕ) (seq_num : ℕ) where
  -- The writer pushes the messages 1, 2, 3, ... in order; the reader looks `seq_num` up once.
  pub data Step : System → System → Type 0 where
    -- Some of the copying: the slot holds whatever it holds.
    tears :
        {w : System} (entry : MessageRecord)
        → w.buffer.write_seq ≡ w.copied
        → Step w
            (record w { buffer = store_at (w.copied + 1) entry w.buffer; begun = w.copied + 1 })
    copies :
        {w : System}
        → w.buffer.write_seq ≡ w.copied
        → Step w (record w {
          buffer = copy_record (message_record position (w.copied + 1)) w.buffer;
          begun = w.copied + 1;
          copied = w.copied + 1;
        })
    publishes :
        {w : System}
        → w.buffer.write_seq + 1 ≡ w.copied
        → Step w (record w { buffer = publish (message_record position w.copied) w.buffer })
    loads :
        {w : System}
        → w.reader ≡ asking
        → Step w (record w { reader = after_load seq_num w.buffer })
    compares :
        {w : System}
        → w.reader ≡ accepted
        → Step w (record w {
          reader = after_compare seq_num (get_elem? w.buffer.buffer (index_for w.buffer seq_num));
        })
    reads :
        {w : System}
        → w.reader ≡ matched
        → Step w (record w {
          reader = after_read (get_elem? w.buffer.buffer (index_for w.buffer seq_num));
        })

  pub data Steps : System → System → Type 0 where
    stop : {w : System} → Steps w w
    go : {w w' w'' : System} → Step w w' → Steps w' w'' → Steps w w''
