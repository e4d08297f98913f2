-- ===== src/RetransmissionBuffer/Race/Tests.antt =====
-- Tests of lookups that run while messages are pushed.
use nasdaq_moldudp64_feed_si.Prelude.{
  ℕ, ◌*◌, ◌<◌, ◌≡◌, ◌⊎◌, refl, Option, none, some, [], ◌∷◌, arith,
}
use nasdaq_moldudp64_feed_si.Exception.{ok}
use nasdaq_moldudp64_feed_si.RetransmissionBuffer.{
  RetransmissionBuffer, zero_record, make, push, index_for,
}
use nasdaq_moldudp64_feed_si.RetransmissionBuffer.Window.{Retains, make-Retains, push-Retains}
use nasdaq_moldudp64_feed_si.RetransmissionBuffer.Race.{
  asking, finished, System, Steps, stop, go, tears, copies, publishes, loads, compares, reads,
  message_record, store_at, copy_record, publish, after_load, after_compare, after_read,
}
use nasdaq_moldudp64_feed_si.RetransmissionBuffer.Race.Reads.{reader-finds}
use nasdaq_moldudp64_feed_si.Examples.{empty_buffer}

abbrev at_thirteen : ℕ → ℕ
at_thirteen s = s * 13

-- A buffer for two messages with the first.
abbrev one_pushed : RetransmissionBuffer
one_pushed = record empty_buffer {
  buffer = zero_record ∷ message_record at_thirteen 1 ∷ [];
  write_seq = 1;
}

buffer-made : make 2 ≡ ok empty_buffer
unfolding make
buffer-made = refl

one-Retains : Retains one_pushed 2 1 at_thirteen
unfolding push index_for
one-Retains = push-Retains (make-Retains 2 at_thirteen (omega arith) buffer-made)

abbrev begin : System
begin = record { buffer = one_pushed; begun = 1; copied = 1; reader = asking }

-- The reader of number 1 ran while the second message was pushed.
abbrev in_between : System
in_between = record {
  buffer = record one_pushed {
    buffer = message_record at_thirteen 2 ∷ message_record at_thirteen 1 ∷ [];
  };
  begun = 2;
  copied = 2;
  reader = finished (some 13);
}

run-in_between : Steps at_thirteen 1 begin in_between
unfolding store_at copy_record publish after_load after_compare after_read index_for
run-in_between =
    go (tears zero_record refl)
      (go (loads refl) (go (copies refl) (go (compares refl) (go (reads refl) stop))))

-- Two more messages were copied between its comparison and its last read: it found the position of
-- message 3.
abbrev overtaken : System
overtaken = record {
  buffer = record one_pushed {
    buffer = message_record at_thirteen 2 ∷ message_record at_thirteen 3 ∷ [];
    write_seq = 2;
  };
  begun = 3;
  copied = 3;
  reader = finished (some 39);
}

run-overtaken : Steps at_thirteen 1 begin overtaken
unfolding store_at copy_record publish after_load after_compare after_read index_for
run-overtaken = go (loads refl) (
    go (compares refl)
      (go (copies refl) (go (publishes refl) (go (copies refl) (go (reads refl) stop)))))

abbrev found : Option ℕ
found = some 13

reader-finds_example : (found ≡ some 13) ⊎ ((found ≡ none) × (1 < 1))
reader-finds_example =
    reader-finds at_thirteen 1 2 1 (omega arith) one-Retains found run-in_between refl (omega arith)
      (omega arith)
