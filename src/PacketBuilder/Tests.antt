-- ===== src/PacketBuilder/Tests.antt =====
-- Tests of src/mold/packet_builder.cpp.
use nasdaq_moldudp64_feed_si.Prelude.{
  ◌≡◌, ◌<◌, ◌≤◌, ◌⊎◌, ◌++◌, refl, true, false, some, List, ℕ, [], ◌∷◌, map, length, arith,
}
use nasdaq_moldudp64_feed_si.Exception.{ok, throws, undefined, mtu_too_small}
use nasdaq_moldudp64_feed_si.BinaryIo.{little, write_bytes_at, le_bytes}
use nasdaq_moldudp64_feed_si.BinaryIo.Bytes.{be_bytes}
use nasdaq_moldudp64_feed_si.Io.Frames.{frame}
use nasdaq_moldudp64_feed_si.PacketBuilder.{PacketBuilder, make, try_add, finalize, datagram}
use nasdaq_moldudp64_feed_si.PacketBuilder.Contents.{Holds, try_add_outcome, with_message}
use nasdaq_moldudp64_feed_si.PacketBuilder.Bounds.{
  Operation, resets, adds, finalizes, apply_all, datagram-le-mtu,
}
use nasdaq_moldudp64_feed_si.PacketBuilder.Wire.{decode, decode-datagram}
use nasdaq_moldudp64_feed_si.Examples.{stamped, session_name, config, builder}

make-runs : make config ≡ ok builder
unfolding make write_bytes_at
make-runs = refl

make-mtu_too_small : make (record config { mtu = 19 }) ≡ throws mtu_too_small
unfolding make
make-mtu_too_small = refl

make-no_message_size : make (record config { min_message_size = 0 }) ≡ undefined
unfolding make
make-no_message_size = refl

-- A builder with two messages.
abbrev filled : PacketBuilder
filled = with_message (frame (stamped 6)) (with_message (frame (stamped 5)) builder)

abbrev two_messages : List (List ℕ)
two_messages = stamped 5 ∷ stamped 6 ∷ []

filled-Holds : Holds filled session_name 0 (map frame two_messages)
unfolding be_bytes le_bytes
filled-Holds = record { ten = refl; count = 0; layout = refl; vectors = refl; room = refl }

abbrev small_message : List ℕ
small_message = 0 ∷ 2 ∷ 1 ∷ 2 ∷ []

try_add_outcome_example :
    let m = small_message in
    ((0 < length m)
      × (length m ≤ filled.bytes_remaining)
      × ((try_add m filled).0 ≡ true)
      × Holds (try_add m filled).1 session_name 0 (map frame two_messages ++ (m ∷ [])))
    ⊎ (((length m ≡ 0) ⊎ (filled.bytes_remaining < length m))
        × (try_add m filled ≡ (false, filled)))
try_add_outcome_example = try_add_outcome small_message filled-Holds

-- The last message is too large for what is left.
abbrev operations : List Operation
operations =
    resets 7
    ∷ adds (frame (stamped 5))
    ∷ adds []
    ∷ adds (frame (stamped 6))
    ∷ finalizes
    ∷ adds (frame (stamped 7))
    ∷ []

datagram-le-mtu_example :
    length (datagram (finalize little (apply_all little operations builder))) ≤ config.mtu
datagram-le-mtu_example = datagram-le-mtu little config operations make-runs (omega arith)

decode-datagram_example :
    decode (datagram (finalize little filled))
    ≡ some (record {
      session = session_name;
      sequence_number = 0;
      message_count = length two_messages;
      messages = two_messages;
    })
decode-datagram_example =
    decode-datagram little two_messages filled-Holds (omega arith) (omega arith) (omega arith)
