-- ===== src/Examples/Replay.antt =====
-- A concrete replay, for the tests: two early messages are skipped, three are sent.
use nasdaq_moldudp64_feed_si.Prelude.{
  ◌^◌, ◌<◌, ◌≡◌, refl, Bool, true, false, List, [], ◌∷◌, ◌++◌, length, All, arith,
}
use nasdaq_moldudp64_feed_si.Prelude.Int.{ℤ, pos}
use nasdaq_moldudp64_feed_si.Exception.{ok}
use nasdaq_moldudp64_feed_si.BinaryIo.{
  little, write_bytes_at, object_value, le_value, byteswap, le_bytes,
}
use nasdaq_moldudp64_feed_si.BinaryIo.Bytes.{be_bytes}
use nasdaq_moldudp64_feed_si.Itch.{extract_timestamp}
use nasdaq_moldudp64_feed_si.Io.Frames.{frames, IsMessage}
use nasdaq_moldudp64_feed_si.PacketBuilder
use nasdaq_moldudp64_feed_si.PacketBuilder.{PacketBuilder}
use nasdaq_moldudp64_feed_si.RetransmissionBuffer
use nasdaq_moldudp64_feed_si.Downstream.Feed.{Round}
use nasdaq_moldudp64_feed_si.Downstream.Feed.Replay.Rounds.{IsGoing, IsSendable, IsSkipped}
use nasdaq_moldudp64_feed_si.Examples.{early_messages, late_messages, config, builder, empty_buffer}

abbrev pub normal : ℤ → ℤ
normal d = d

abbrev pub round : Round
round = record { stop_requested = false; start = pos 0; now = pos 0 }

abbrev pub rounds : List Round
rounds = round ∷ round ∷ round ∷ round ∷ round ∷ round ∷ []

pub rounds-IsGoing : All IsGoing rounds
rounds-IsGoing = (refl, (refl, (refl, (refl, (refl, (refl, tt))))))

-- Two announcements, then the token is triggered.
abbrev pub readings : List (Bool × ℤ)
readings = (false, pos 1) ∷ (false, pos 2) ∷ (true, pos 3) ∷ []

pub builder-made : PacketBuilder.make config ≡ ok builder
unfolding PacketBuilder.make write_bytes_at
builder-made = refl

pub buffer-made : RetransmissionBuffer.make 2 ≡ ok empty_buffer
unfolding RetransmissionBuffer.make
buffer-made = refl

pub stamped-IsMessage : All IsMessage (early_messages ++ late_messages)
stamped-IsMessage = omega arith

pub early-IsSkipped : All (IsSkipped little (pos 3)) early_messages
unfolding extract_timestamp object_value le_value byteswap le_bytes
early-IsSkipped = ((omega arith, refl), ((omega arith, refl), tt))

pub late-IsSendable : All (IsSendable little (pos 3) 50) late_messages
unfolding extract_timestamp object_value le_value byteswap le_bytes be_bytes
late-IsSendable = (
  (omega arith, omega arith, refl),
  ((omega arith, omega arith, refl), ((omega arith, omega arith, refl), tt)),
)

pub frames-short : length (frames (early_messages ++ late_messages)) < 2 ^ 63
unfolding be_bytes le_bytes
frames-short = omega arith
