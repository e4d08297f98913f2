-- ===== src/Downstream/Feed/Replay.antt =====
-- The loop of `start` on a well-formed file: what a subscriber receives.
pub mod Rounds
pub mod Delivery
pub mod Interruption
use mathlib.Core.Path.{subst₂}
use nasdaq_moldudp64_feed_si.Prelude.{
  ℕ, zero, suc, ◌+◌, ◌-◌, ◌^◌, ◌≤◌, ◌<◌, ◌≡◌, refl, sym, ap, ap₂, ◌∙◌, subst, ◌≢◌, Bool, true,
  false, not, ◌&&◌, List, [], ◌∷◌, ◌++◌, map, length, drop, Option, some, ltb, if◌then◌else◌,
  append_assoc, append-nil, length-append, drop-length, lt→ltb, le→ltb-false, ltb-false→le, All,
  arith, Bool-cases, inl, inr,
}
use nasdaq_moldudp64_feed_si.Prelude.Int.{ℤ, pos, ltb_ℤ}
use nasdaq_moldudp64_feed_si.BinaryIo.{Endian}
use nasdaq_moldudp64_feed_si.Itch.{extract_timestamp, peek_timestamp}
use nasdaq_moldudp64_feed_si.Itch.Timestamp.{peek_timestamp-frame}
use nasdaq_moldudp64_feed_si.Io.Frames.{frame, frames, IsMessage, length-frame}
use nasdaq_moldudp64_feed_si.Io.{skip_message}
use nasdaq_moldudp64_feed_si.PacketBuilder
use nasdaq_moldudp64_feed_si.PacketBuilder.Contents.{Holds}
use nasdaq_moldudp64_feed_si.PacketBuilder.Wire.{Packet, decode, decode-datagram}
use nasdaq_moldudp64_feed_si.Downstream.Pacer
use nasdaq_moldudp64_feed_si.Downstream.Pacer.{Pacer}
use nasdaq_moldudp64_feed_si.Downstream.Feed.{
  Feed, Round, Outcome, continues, left, stuck, after_build, after_skip, play, start_round,
  send_packet, build_packet,
}
use nasdaq_moldudp64_feed_si.Downstream.Feed.Packing.{
  fill, left_over, Replays, shape, at, sizes, skips,
}
use nasdaq_moldudp64_feed_si.Downstream.Feed.Packing.Loop.{Packed, build_packet-Packed, at_end}

-- A message that ends before its timestamp does is not an ITCH message.
abbrev pub IsItch : List ℕ → Type 0
IsItch m = 11 ≤ length m

-- What `should_skip` says of a message, by the configured `skip_before`.
abbrev pub is_early : Endian → ℤ → List ℕ → Bool
is_early host skip_before m = ltb_ℤ (pos (extract_timestamp host m)) skip_before

-- A message with its prefix fits a packet that holds nothing else.
abbrev pub FitsAlone : ℕ → List ℕ → Type 0
FitsAlone mtu m = length (frame m) + 20 ≤ mtu

-- A packet that carries the messages `now` from number `seq` on.
abbrev pub packet_of : List ℕ → ℕ → List (List ℕ) → Packet
packet_of name seq now = record {
  session = name;
  sequence_number = seq;
  message_count = length now;
  messages = now;
}

-- The datagrams carry the messages once each, in order, numbered from `seq` on without a gap, in
-- packets that are not empty.
pub data Received (name : List ℕ) : ℕ → List (List ℕ) → List (List ℕ) → Type 0 where
  nothing : {seq : ℕ} → Received name seq [] []
  packet :
      {seq : ℕ} {datagram : List ℕ} {datagrams now later ms : List (List ℕ)}
      → decode datagram ≡ some (packet_of name seq now)
      → 0 < length now
      → ms ≡ now ++ later
      → Received name (seq + length now) datagrams later
      → Received name seq (datagram ∷ datagrams) ms

-- One packet more, with the messages behind.
pub Received-snoc :
    {name : List ℕ} {seq : ℕ} {datagrams ms : List (List ℕ)} (datagram : List ℕ)
    (now : List (List ℕ))
    → Received name seq datagrams ms
    → decode datagram ≡ some (packet_of name (seq + length ms) now)
    → 0 < length now
    → Received name seq (datagrams ++ (datagram ∷ [])) (ms ++ now)
Received-snoc {name} {seq} datagram now nothing decoded some_messages =
    packet (subst (λ n. decode datagram ≡ some (packet_of name n now)) (omega arith) decoded)
      some_messages (sym (append-nil now)) nothing
Received-snoc {name} datagram now (packet {now = first} {later = later} read some_first split rest)
      decoded some_messages =
    packet read some_first (ap (λ l. l ++ now) split ∙ append_assoc first later now) (
      Received-snoc datagram now rest
        (decoded
          ∙ ap (λ n. some (packet_of name n now))
              (omega (arith, ap length split, length-append first later)))
        some_messages)

pub fill-left_over : (room : ℕ) (ms : List (List ℕ)) → fill room ms ++ left_over room ms ≡ ms
fill-left_over room [] = refl
fill-left_over room (m ∷ ms) = elim (Bool-cases (ltb room (length (frame m)))) [
  | inl full ↦ rw full
  | inr fits ↦ rw fits (ap (λ l. m ∷ l) (fill-left_over (room - length (frame m)) ms))
]

-- The first message fits, so the packet is not empty and fewer messages are left.
pub fill-pos :
    (room : ℕ) (m : List ℕ) (ms : List (List ℕ))
    → length (frame m) ≤ room
    → 0 < length (fill room (m ∷ ms))
fill-pos room m ms h = rw (le→ltb-false room (length (frame m)) h) (omega arith)

module _ {f : Feed} {capacity : ℕ} {lead : List ℕ} {all before ms : List (List ℕ)} {m : List ℕ}
    (r : Replays f capacity lead all before (m ∷ ms)) (host : Endian) (scale : ℤ → ℤ)
    (round : Round) (going : round.stop_requested ≡ false) (itch : IsItch m) where
  -- The round passes the loop's test and peeks the timestamp of the next message.
  enters :
      start_round host scale round f ≡ play host scale round (some (extract_timestamp host m)) f
  unfolding start_round
  enters =
      ap₂
        (λ inside stop.
          if inside && not stop
          then play host scale round (peek_timestamp host (drop f.file_pos f.file)) f
          else left f)
        (lt→ltb _ _ (omega (arith, sizes r, length-frame m))) going
      ∙ ap (λ t. play host scale round t f)
          (ap₂ (λ n bs. peek_timestamp host (drop n bs)) (at r) (shape r)
            ∙ ap (peek_timestamp host) (drop-length (lead ++ frames before) (frame m ++ frames ms))
            ∙ peek_timestamp-frame host m (frames ms) itch)

  pub start_round-skips :
      is_early host f.pacer.skip_before m ≡ true
      → start_round host scale round f
        ≡ continues (record f { file_pos = f.file_pos + length (frame m) })
  unfolding play after_skip Pacer.should_skip
  start_round-skips early =
      enters
      ∙ ap
          (λ b.
            if b
            then after_skip host scale (skip_message host f.file f.file_pos) f
            else after_build host scale (pos (extract_timestamp host m)) round
                (build_packet host f))
          early
      ∙ ap (λ s. after_skip host scale s f) (skips r host)

  pub start_round-builds :
      is_early host f.pacer.skip_before m ≡ false
      → start_round host scale round f
        ≡ after_build host scale (pos (extract_timestamp host m)) round (build_packet host f)
  unfolding play Pacer.should_skip
  start_round-builds late =
      enters
      ∙ ap
          (λ b.
            if b
            then after_skip host scale (skip_message host f.file f.file_pos) f
            else after_build host scale (pos (extract_timestamp host m)) round
                (build_packet host f))
          late
