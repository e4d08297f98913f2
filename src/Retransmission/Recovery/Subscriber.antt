-- ===== src/Retransmission/Recovery/Subscriber.antt =====
-- A subscriber that hears some of the multicast datagrams and recovers the rest.
pub mod Lossless
pub mod Replayed
use nasdaq_moldudp64_feed_si.Prelude.{
  ℕ, suc, ◌+◌, ◌-◌, ◌^◌, ◌≤◌, ◌<◌, ◌≡◌, refl, sym, ap, ap₂, ◌∙◌, subst, Bool, true, false, ◌&&◌,
  ◌||◌, Option, none, some, List, [], ◌∷◌, ◌++◌, map, length, take, drop, ◌==◌, if◌then◌else◌,
  append-nil, append_assoc, length-append, take_all, drop-length, length-drop, All, arith,
}
use nasdaq_moldudp64_feed_si.Types.{end_of_session_msg_count}
use nasdaq_moldudp64_feed_si.BinaryIo.{Endian}
use nasdaq_moldudp64_feed_si.BinaryIo.Bytes.{be_value, be_value-be_bytes}
use nasdaq_moldudp64_feed_si.PacketBuilder.Contents.{header}
use nasdaq_moldudp64_feed_si.PacketBuilder.Wire.{
  Packet, Fields, header-Fields, decode, decode-end_of_session,
}
use nasdaq_moldudp64_feed_si.RetransmissionBuffer.{RetransmissionBuffer}
use nasdaq_moldudp64_feed_si.RetransmissionBuffer.Window.{Retains}
use nasdaq_moldudp64_feed_si.Downstream.Feed.Packing.{position}
use nasdaq_moldudp64_feed_si.Downstream.Feed.Replay.{
  FitsAlone, packet_of, Received, nothing, packet,
}
use nasdaq_moldudp64_feed_si.Retransmission.Feed.{Feed}
use nasdaq_moldudp64_feed_si.Retransmission.Feed.Request.{Serves}
use nasdaq_moldudp64_feed_si.Retransmission.Recovery.{recover, Recovers, recover-Recovers}

-- What a subscriber makes of a datagram: its first number and its messages, or the number behind
-- the last message of the session.
pub data Heard : Type 0 where
  noise : Heard
  messages_from : ℕ → List (List ℕ) → Heard
  ended_at : ℕ → Heard

abbrev pub is_end : List ℕ → Bool
is_end bytes = length bytes == 20 && be_value (take 2 (drop 18 bytes)) == end_of_session_msg_count

abbrev pub heard : List ℕ → Option Packet → Heard
heard bytes (some p) = messages_from p.sequence_number p.messages
heard bytes none = if is_end bytes then ended_at (be_value (take 8 (drop 10 bytes))) else noise

abbrev pub hear : List ℕ → Heard
hear bytes = heard bytes (decode bytes)

-- An end-of-session packet is among the datagrams.
abbrev pub ends_session : Heard → Bool
ends_session (ended_at seq) = true
ends_session _ = false

abbrev pub hears_end : List (List ℕ) → Bool
hears_end [] = false
hears_end (datagram ∷ datagrams) = ends_session (hear datagram) || hears_end datagrams

abbrev pub messages_of : Option Packet → List (List ℕ)
messages_of none = []
messages_of (some p) = p.messages

-- The messages in the replies of the retransmission feed.
abbrev pub replied_messages : {Address : Type 0} → List (Address × List ℕ) → List (List ℕ)
replied_messages [] = []
replied_messages ((addr, datagram) ∷ rest) = messages_of (decode datagram) ++ replied_messages rest

module _ {Address : Type 0} (host : Endian) (buffer : RetransmissionBuffer) (addr : Address)
    (name : List ℕ) where
  -- The messages from number `next` on up to `seq`, which were lost, and the feed behind that.
  unfoldable pub fetch : ℕ → ℕ → Feed Address → List (List ℕ) × Feed Address
  fetch next seq f =
      let f' = recover host buffer addr name (seq - next) next (seq - next) f in
      (replied_messages (drop (length f.sent) f'.sent), f')

  -- A subscriber waits for number `next`: when it hears a higher one, it first asks for the messages
  -- in between.
  unfoldable pub collect_heard :
      Heard → (ℕ → Feed Address → List (List ℕ)) → ℕ → Feed Address → List (List ℕ)
  unfolding fetch
  collect_heard noise again next f = again next f
  collect_heard (messages_from seq ms) again next f =
      let (lost, f') = fetch next seq f in lost ++ (ms ++ again (seq + length ms) f')
  collect_heard (ended_at seq) again next f =
      let (lost, f') = fetch next seq f in lost ++ again seq f'

  -- The messages that it ends up with.
  unfoldable pub collect : List (List ℕ) → ℕ → Feed Address → List (List ℕ)
  unfolding collect_heard
  collect [] next f = []
  collect (datagram ∷ datagrams) next f = collect_heard (hear datagram) (collect datagrams) next f

-- The datagrams that arrive of those that are sent; the others are lost.
pub data Arrive : List (List ℕ) → List (List ℕ) → Type 0 where
  no_more : Arrive [] []
  arrives :
      (datagram : List ℕ) {xs ys : List (List ℕ)}
      → Arrive xs ys
      → Arrive (datagram ∷ xs) (datagram ∷ ys)
  is_lost : (datagram : List ℕ) {xs ys : List (List ℕ)} → Arrive xs ys → Arrive xs (datagram ∷ ys)

-- The datagrams that the marks let through; those behind the marks arrive.
abbrev pub keep : List Bool → List (List ℕ) → List (List ℕ)
keep marks [] = []
keep [] (datagram ∷ datagrams) = datagram ∷ datagrams
keep (mark ∷ marks) (datagram ∷ datagrams) =
    let rest = keep marks datagrams in if mark then datagram ∷ rest else rest
