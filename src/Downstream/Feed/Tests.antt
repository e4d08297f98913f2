-- ===== src/Downstream/Feed/Tests.antt =====
-- Tests of src/mold/downstream/feed.cpp.
use nasdaq_moldudp64_feed_si.Prelude.{
  ℕ, ◌+◌, ◌≤◌, ◌≡◌, refl, true, false, List, [], ◌∷◌, ◌++◌, length, replicate, some, arith,
}
use nasdaq_moldudp64_feed_si.Prelude.Int.{pos, ◌+ℤ◌}
use nasdaq_moldudp64_feed_si.BinaryIo.{little, object_value, le_value, byteswap, le_bytes}
use nasdaq_moldudp64_feed_si.BinaryIo.Bytes.{be_bytes}
use nasdaq_moldudp64_feed_si.Itch.{extract_timestamp}
use nasdaq_moldudp64_feed_si.Io.{skip_message}
use nasdaq_moldudp64_feed_si.Io.Frames.{frames}
use nasdaq_moldudp64_feed_si.PacketBuilder
use nasdaq_moldudp64_feed_si.PacketBuilder.{PacketBuilder}
use nasdaq_moldudp64_feed_si.PacketBuilder.Contents.{Holds, make-Holds}
use nasdaq_moldudp64_feed_si.Downstream.Pacer
use nasdaq_moldudp64_feed_si.Downstream.Feed.{Feed, make, Round, build_packet, start}
use nasdaq_moldudp64_feed_si.Downstream.Feed.Packing.{fill, left_over, position}
use nasdaq_moldudp64_feed_si.Downstream.Feed.Packing.Termination.{build_packet-returns}
use nasdaq_moldudp64_feed_si.Downstream.Feed.Packing.Loop.{Packed, build_packet-Packed}
use nasdaq_moldudp64_feed_si.Downstream.Feed.Replay.Delivery.{make-Replays}
use nasdaq_moldudp64_feed_si.Downstream.Feed.EndOfSession.{
  announcements, Completes, start-Completes,
}
use nasdaq_moldudp64_feed_si.Downstream.Feed.StopRequest.{Stops, start-Stops}
use nasdaq_moldudp64_feed_si.Downstream.Feed.Stuck.{Stays, start_loop-Stays, build_packet-overrun}
use nasdaq_moldudp64_feed_si.Examples.{
  stamped, early_messages, late_messages, session_name, config, builder, empty_buffer,
}
use nasdaq_moldudp64_feed_si.Examples.Replay.{
  normal, round, rounds, rounds-IsGoing, readings, builder-made, buffer-made, stamped-IsMessage,
  early-IsSkipped, late-IsSendable, frames-short,
}

abbrev replayed : Feed
replayed = make (frames (early_messages ++ late_messages)) empty_buffer (Pacer.make (pos 3)) builder

builder-Holds : Holds builder session_name 0 []
builder-Holds = (make-Holds config builder-made).0

build_packet-Packed_example :
    let f = make (frames late_messages) empty_buffer (Pacer.make (pos 3)) builder in
    (f' : Feed) × (build_packet little f ≡ some f')
    × Packed f f' 2 [] late_messages [] []
        (fill 30 late_messages)
        (left_over 30 late_messages)
        session_name
        1
unfolding make be_bytes le_bytes
build_packet-Packed_example =
    build_packet-Packed little
      (make-Replays little normal late_messages [] (pos 3) builder (omega arith) buffer-made
        (omega arith) (omega arith))
      builder-Holds

start-Completes_example :
    Completes
      (start little normal rounds (pos 10) (pos 0) readings replayed)
      2
      (position (frames early_messages) late_messages)
      session_name
      late_messages
      (announcements (pos 0 +ℤ pos 10) readings)
start-Completes_example =
    start-Completes little normal early_messages late_messages rounds (pos 3) (pos 10) (pos 0)
      readings config builder-made buffer-made (omega arith) (omega arith) stamped-IsMessage
      frames-short early-IsSkipped late-IsSendable rounds-IsGoing (omega arith)

-- The second round finds the token triggered.
abbrev stopped_rounds : List Round
stopped_rounds = round ∷ record round { stop_requested = true } ∷ []

start-Stops_example :
    Stops
      (start little normal
        (round ∷ round ∷ stopped_rounds)
        (pos 10)
        (pos 0)
        ((true, pos 1) ∷ [])
        replayed)
      2
      (position (frames early_messages) late_messages)
      session_name
      late_messages
start-Stops_example =
    start-Stops little normal early_messages late_messages (round ∷ round ∷ stopped_rounds) (pos 3)
      (pos 10) (pos 0) ((true, pos 1) ∷ []) config builder-made buffer-made (omega arith)
      (omega arith) stamped-IsMessage frames-short early-IsSkipped late-IsSendable refl (refl, tt)

-- A message whose frame of 31 bytes does not fit beside a header.
abbrev large : List ℕ
large = stamped 5 ++ replicate 18 0

abbrev stuck_feed : Feed
stuck_feed = make (frames (large ∷ [])) empty_buffer (Pacer.make (pos 3)) builder

start_loop-Stays_example :
    Stays little normal 2 [] (large ∷ []) [] (large ∷ []) stuck_feed rounds session_name
unfolding make Pacer.make be_bytes le_bytes extract_timestamp object_value le_value byteswap
start_loop-Stays_example =
    start_loop-Stays little normal rounds
      (make-Replays little normal (large ∷ []) [] (pos 3) builder (omega arith) buffer-made
        (omega arith) (omega arith))
      builder-Holds (omega arith) (omega arith) refl (omega arith) rounds-IsGoing

-- One byte behind a prefix of 9.
abbrev overrun_feed : Feed
overrun_feed = make (0 ∷ 9 ∷ 68 ∷ []) empty_buffer (Pacer.make (pos 3)) builder

build_packet-returns_example :
    (f' : Feed) × (build_packet little overrun_feed ≡ some f')
    × (f'.file ≡ overrun_feed.file)
    × (f'.file_pos ≤ length overrun_feed.file)
unfolding make
build_packet-returns_example =
    build_packet-returns little overrun_feed (omega arith, omega arith) (omega arith)

build_packet-overrun_example :
    (build_packet little overrun_feed
      ≡ some (record overrun_feed {
        file_pos = overrun_feed.file_pos + 2;
        packet_builder =
            PacketBuilder.reset little overrun_feed.sequence_number overrun_feed.packet_builder;
      }))
    × (skip_message little overrun_feed.file overrun_feed.file_pos
        ≡ (false, overrun_feed.file_pos + 2))
unfolding make
build_packet-overrun_example =
    build_packet-overrun little overrun_feed (omega arith, omega arith) (omega arith) (omega arith)
