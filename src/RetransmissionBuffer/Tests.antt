-- ===== src/RetransmissionBuffer/Tests.antt =====
-- Tests of src/mold/retransmission_buffer.cpp.
use nasdaq_moldudp64_feed_si.Prelude.{
  ℕ, ◌+◌, ◌*◌, ◌≡◌, refl, ◌&&◌, none, some, [], ◌∷◌, leb, ltb, if◌then◌else◌, arith,
}
use nasdaq_moldudp64_feed_si.Exception.{ok, throws, buffer_size_zero}
use nasdaq_moldudp64_feed_si.RetransmissionBuffer.{
  RetransmissionBuffer, make, index_for, push, checked_position, file_position_for,
}
use nasdaq_moldudp64_feed_si.RetransmissionBuffer.Window.{
  Retains, make-Retains, push-Retains, file_position_for-window,
}
use nasdaq_moldudp64_feed_si.Examples.{empty_buffer}

make-runs : make 2 ≡ ok empty_buffer
unfolding make
make-runs = refl

make-zero : make 0 ≡ throws buffer_size_zero
unfolding make
make-zero = refl

abbrev at_thirteen : ℕ → ℕ
at_thirteen s = s * 13

-- After three messages: the second and the third are retained.
abbrev three_pushed : RetransmissionBuffer
three_pushed = record empty_buffer {
  buffer =
      record { sequence_number = 2; file_position = 26 }
      ∷ record { sequence_number = 3; file_position = 39 }
      ∷ [];
  write_seq = 3;
}

push-runs :
    push
      (record { sequence_number = 3; file_position = 39 })
      (push
        (record { sequence_number = 2; file_position = 26 })
        (push (record { sequence_number = 1; file_position = 13 }) empty_buffer))
    ≡ three_pushed
unfolding push index_for
push-runs = refl

file_position_for-runs :
    (file_position_for 1 three_pushed ≡ none)
    × (file_position_for 2 three_pushed ≡ some 26)
    × (file_position_for 3 three_pushed ≡ some 39)
    × (file_position_for 4 three_pushed ≡ none)
unfolding file_position_for index_for checked_position
file_position_for-runs = (refl, refl, refl, refl)

one-Retains :
    Retains (push (record { sequence_number = 1; file_position = 13 }) empty_buffer) 2 1 at_thirteen
one-Retains = push-Retains (make-Retains 2 at_thirteen (omega arith) make-runs)

push-Retains_example :
    Retains (push (record { sequence_number = 1; file_position = 13 }) empty_buffer) 2 1 at_thirteen
push-Retains_example = push-Retains (make-Retains 2 at_thirteen (omega arith) make-runs)

file_position_for-window_example :
    file_position_for 1 (push (record { sequence_number = 1; file_position = 13 }) empty_buffer)
    ≡ (if leb 1 1 && ltb 1 (1 + 2) then some 13 else none)
file_position_for-window_example =
    file_position_for-window one-Retains 1 (omega arith) (omega arith) (omega arith)
