-- ===== src/Downstream/Session/Tests.antt =====
-- Tests of the two threads: a file of an early message and another.
use nasdaq_moldudp64_feed_si.Prelude.{
  ℕ, ◌+◌, ◌^◌, ◌<◌, ◌≡◌, refl, false, List, [], ◌∷◌, length, All, arith,
}
use nasdaq_moldudp64_feed_si.Prelude.Int.{ℤ, pos}
use nasdaq_moldudp64_feed_si.BinaryIo.{little, object_value, le_value, byteswap, le_bytes}
use nasdaq_moldudp64_feed_si.BinaryIo.Bytes.{be_bytes}
use nasdaq_moldudp64_feed_si.Itch.{extract_timestamp}
use nasdaq_moldudp64_feed_si.Io.Frames.{frame, frames, IsMessage}
use nasdaq_moldudp64_feed_si.PacketBuilder.Contents.{make-Holds}
use nasdaq_moldudp64_feed_si.Downstream.Pacer
use nasdaq_moldudp64_feed_si.Downstream.Feed
use nasdaq_moldudp64_feed_si.Downstream.Feed.{Round, start_round, continues}
use nasdaq_moldudp64_feed_si.Downstream.Feed.Packing.{Replays}
use nasdaq_moldudp64_feed_si.Downstream.Feed.Replay.{start_round-skips}
use nasdaq_moldudp64_feed_si.Downstream.Feed.Replay.Delivery.{make-Replays, skipped-Replays}
use nasdaq_moldudp64_feed_si.Downstream.Feed.Replay.Rounds.{IsSendable, IsSkipped, send_round}
use nasdaq_moldudp64_feed_si.Downstream.Heartbeat
use nasdaq_moldudp64_feed_si.Downstream.Session.{
  Session, begin, sending, sleeping, stores, sends, loads, beats, Steps, stop_here, go,
}
use nasdaq_moldudp64_feed_si.Downstream.Session.Playing.{Plays}
use nasdaq_moldudp64_feed_si.Downstream.Session.Announcing.{Announced, begin-Announced}
use nasdaq_moldudp64_feed_si.Examples.Replay.{builder-made, buffer-made}
use nasdaq_moldudp64_feed_si.Examples.{stamped, session_name, config, builder, empty_buffer}

abbrev normal : ℤ → ℤ
normal d = d

abbrev round : Round
round = record { stop_requested = false; start = pos 0; now = pos 0 }

abbrev messages : List (List ℕ)
messages = stamped 5 ∷ []

abbrev feed : Feed.Feed
feed = Feed.make (frames (stamped 1 ∷ messages)) empty_buffer (Pacer.make (pos 3)) builder

abbrev heartbeat : Heartbeat.Heartbeat
heartbeat = Heartbeat.make little (pos 1000) session_name

file-IsMessage : All IsMessage (stamped 1 ∷ messages)
file-IsMessage = omega arith

frames-short : length (frames (stamped 1 ∷ messages)) < 2 ^ 63
unfolding be_bytes le_bytes
frames-short = omega arith

early-IsSkipped : All (IsSkipped little (pos 3)) (stamped 1 ∷ [])
unfolding extract_timestamp object_value le_value byteswap le_bytes
early-IsSkipped = ((omega arith, refl), tt)

messages-IsSendable : All (IsSendable little (pos 3) 50) messages
unfolding extract_timestamp object_value le_value byteswap le_bytes be_bytes
messages-IsSendable = ((omega arith, omega arith, refl), tt)

feed-Replays : Replays feed 2 [] (stamped 1 ∷ messages) [] (stamped 1 ∷ messages)
feed-Replays =
    make-Replays little normal messages (stamped 1 ∷ []) (pos 3) builder (omega arith) buffer-made
      file-IsMessage frames-short

-- The round that skips the early message.
abbrev behind_early : Feed.Feed
behind_early = record feed { file_pos = feed.file_pos + length (frame (stamped 1)) }

early_round : start_round little normal round feed ≡ continues behind_early
unfolding Feed.make Pacer.make
early_round =
    start_round-skips feed-Replays little normal round refl early-IsSkipped.0.0 early-IsSkipped.0.1

-- The round that sends the message.
first_round : (f : Feed.Feed) × (start_round little normal round behind_early ≡ continues f)
unfolding Feed.make Pacer.make
first_round =
    let (f, e, s) =
      send_round little normal round (skipped-Replays feed-Replays)
        (make-Holds config builder-made).0 refl messages-IsSendable.0.0 messages-IsSendable.0.2
        (omega arith) in
    (f, e)

-- The packet is stored but not yet handed to the kernel, and a heartbeat already announces the number
-- behind it.
abbrev ahead : Session
ahead = record {
  feed = behind_early;
  sent_sequence_number = first_round.0.sent_sequence_number;
  heartbeat = Heartbeat.send little first_round.0.sent_sequence_number heartbeat;
  player = sending first_round.0;
  beater = sleeping;
}

run-ahead : Steps little normal (begin feed heartbeat) ahead
unfolding begin Feed.make
run-ahead =
    go
      (go
        (go
          (go (go stop_here (stores round behind_early refl early_round)) (sends behind_early refl))
          (stores round first_round.0 refl first_round.1))
        (loads refl))
      (beats first_round.0.sent_sequence_number refl)

begin-Announced_example :
    Announced ahead session_name × Plays little normal 2 messages session_name ahead
begin-Announced_example =
    begin-Announced little normal 2 (stamped 1 ∷ []) messages (pos 3) (pos 1000) config builder-made
      buffer-made (omega arith) (omega arith) refl file-IsMessage frames-short early-IsSkipped
      messages-IsSendable run-ahead
