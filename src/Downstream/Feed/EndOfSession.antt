-- ===== src/Downstream/Feed/EndOfSession.antt =====
-- The end of `start`: the end-of-session packets, and a whole run of `start`.
use nasdaq_moldudp64_feed_si.Prelude.{
  ℕ, suc, ◌+◌, ◌^◌, ◌<◌, ◌≡◌, refl, sym, ap, ap₂, ◌∙◌, subst, Bool, not, ◌&&◌, List, [], ◌∷◌, ◌++◌,
  length, replicate, Option, some, if◌then◌else◌, append-nil, append_assoc, overwrite-append,
  length-append, All, arith, Bool-cases, inl, inr,
}
use nasdaq_moldudp64_feed_si.Prelude.Int.{ℤ, ◌+ℤ◌, ltb_ℤ}
use nasdaq_moldudp64_feed_si.Types.{end_of_session_msg_count}
use nasdaq_moldudp64_feed_si.Exception.{ok}
use nasdaq_moldudp64_feed_si.BinaryIo.{Endian, write_at_be, write_bytes_at}
use nasdaq_moldudp64_feed_si.BinaryIo.Bytes.{be_bytes, length-be_bytes}
use nasdaq_moldudp64_feed_si.BinaryIo.BigEndian.{write_at_be_field}
use nasdaq_moldudp64_feed_si.Io.Frames.{frames, IsMessage}
use nasdaq_moldudp64_feed_si.PacketBuilder
use nasdaq_moldudp64_feed_si.PacketBuilder.Contents.{Holds, header, session-Holds}
use nasdaq_moldudp64_feed_si.RetransmissionBuffer
use nasdaq_moldudp64_feed_si.RetransmissionBuffer.Window.{Retains}
use nasdaq_moldudp64_feed_si.Downstream.Pacer
use nasdaq_moldudp64_feed_si.Downstream.Feed.{
  Feed, make, Round, end_of_session_packet, end_of_session_loop, end_of_session, end_when_left,
  start,
}
use nasdaq_moldudp64_feed_si.Downstream.Feed.Packing.{position}
use nasdaq_moldudp64_feed_si.Downstream.Feed.Replay.{Received}
use nasdaq_moldudp64_feed_si.Downstream.Feed.Replay.Rounds.{IsSendable, IsSkipped, IsGoing}
use nasdaq_moldudp64_feed_si.Downstream.Feed.Replay.Delivery.{start_loop-Delivers}

-- The end-of-session packet is a header of the session, the next sequence number and the count
-- 0xffff, and nothing else. The session has ten bytes.
pub end_of_session_packet_lem :
    (host : Endian) (name : List ℕ) (seq : ℕ)
    → length name ≡ 10
    → end_of_session_packet host name seq ≡ header name seq end_of_session_msg_count
unfolding end_of_session_packet write_bytes_at
end_of_session_packet_lem host name seq ten =
    ap (λ buf. write_at_be host 2 (write_at_be host 8 buf 10 seq) 18 0xffff)
      (overwrite-append (replicate 10 0) (replicate 10 0) name ten)
    ∙ ap (λ buf. write_at_be host 2 buf 18 0xffff)
        (write_at_be_field host 8 name (replicate 8 0) (replicate 2 0) seq 10 refl ten
          ∙ sym (append_assoc name (be_bytes 8 seq) (replicate 2 0)))
    ∙ write_at_be_field host 2 (name ++ be_bytes 8 seq) (replicate 2 0) [] 0xffff 18 refl
        (omega (arith, length-append name (be_bytes 8 seq), length-be_bytes 8 seq, ten))
    ∙ ap (λ t. (name ++ be_bytes 8 seq) ++ t) (append-nil (be_bytes 2 0xffff))
    ∙ append_assoc name (be_bytes 8 seq) (be_bytes 2 0xffff)

-- How many readings go by before one finds the token triggered or the time over.
abbrev pub announcements : ℤ → List (Bool × ℤ) → ℕ
announcements end [] = 0
announcements end ((stop, now) ∷ readings) =
    if not stop && ltb_ℤ now end then suc (announcements end readings) else 0

loop-announcements :
    (host : Endian) (bytes : List ℕ) (end : ℤ) (readings : List (Bool × ℤ)) (f : Feed)
    → end_of_session_loop host bytes end readings f
      ≡ record f { sent = f.sent ++ replicate (announcements end readings) bytes }
unfolding end_of_session_loop
loop-announcements host bytes end [] f = ap (λ l. record f { sent = l }) (sym (append-nil f.sent))
loop-announcements host bytes end ((stop, now) ∷ readings) f =
    elim (Bool-cases (not stop && ltb_ℤ now end)) [
      | inl goes ↦ rw goes (
          loop-announcements host bytes end readings (record f { sent = f.sent ++ (bytes ∷ []) })
          ∙ ap (λ l. record f { sent = l })
              (append_assoc f.sent (bytes ∷ []) (replicate (announcements end readings) bytes)))
      | inr ends ↦ rw ends (ap (λ l. record f { sent = l }) (sym (append-nil f.sent)))
    ]

-- `end_of_session` sends the end-of-session packet once for each reading before the stop or the
-- end of the duration, and changes nothing else.
pub end_of_session_lem :
    (host : Endian) (duration started : ℤ) (readings : List (Bool × ℤ)) (f : Feed) {name : List ℕ}
    {seq : ℕ} {held : List (List ℕ)}
    → Holds f.packet_builder name seq held
    → end_of_session host duration started readings f ≡ record f {
      sent =
          f.sent
          ++ replicate
              (announcements (started +ℤ duration) readings)
              (header name f.sequence_number end_of_session_msg_count);
    }
unfolding end_of_session
end_of_session_lem host duration started readings f {name} h =
    loop-announcements host _ (started +ℤ duration) readings f
    ∙ ap
        (λ bytes. record f {
          sent = f.sent ++ replicate (announcements (started +ℤ duration) readings) bytes;
        })
        (ap (λ n. end_of_session_packet host n f.sequence_number) (session-Holds h)
          ∙ end_of_session_packet_lem host name f.sequence_number h.ten)

-- What `start` sends in all: the messages `ms`, and then the announcements of the end; and what it
-- leaves in the buffer.
pub record Completes (result : Option Feed) (capacity : ℕ) (positions : ℕ → ℕ) (name : List ℕ)
    (ms : List (List ℕ)) (announced : ℕ) : Type 0 where
  pub last : Feed
  pub returns : result ≡ some last
  pub datagrams : List (List ℕ)
  pub received : Received name 1 datagrams ms
  pub sent :
      last.sent
      ≡ datagrams ++ replicate announced (header name (length ms + 1) end_of_session_msg_count)
  pub retained : Retains last.retransmission_buffer capacity (length ms) positions

-- `start` on a feed that was just made, for a well-formed file whose early messages (timestamps
-- below `skip_before`) all stand before the others, returns. It has sent datagrams that carry the
-- messages that are not early, each once, in order, numbered from 1 on without a gap, and behind
-- them nothing but end-of-session packets with the number that follows the last message, one for
-- each reading before the stop or the end of the duration; and the buffer retains the file
-- positions of the last `capacity` messages. There are more rounds than messages, no stop in them,
-- each message has its timestamp and fits a packet, and the MTU is below 131090.
pub start-Completes :
    (host : Endian) (scale : ℤ → ℤ) {capacity : ℕ} (early late : List (List ℕ))
    (rounds : List Round) (skip_before duration eos_start : ℤ) (readings : List (Bool × ℤ))
    (cfg : PacketBuilder.Config) {b : PacketBuilder.PacketBuilder}
    {rb : RetransmissionBuffer.RetransmissionBuffer}
    → PacketBuilder.make cfg ≡ ok b
    → RetransmissionBuffer.make capacity ≡ ok rb
    → capacity < 2 ^ 64
    → cfg.mtu < 131090
    → All IsMessage (early ++ late)
    → length (frames (early ++ late)) < 2 ^ 63
    → All (IsSkipped host skip_before) early
    → All (IsSendable host skip_before cfg.mtu) late
    → All IsGoing rounds
    → length early + length late < length rounds
    → Completes
        (start host scale rounds duration eos_start readings
          (make (frames (early ++ late)) rb (Pacer.make skip_before) b))
        capacity
        (position (frames early) late)
        cfg.session
        late
        (announcements (eos_start +ℤ duration) readings)
unfolding start end_when_left make
start-Completes host scale {capacity} early late rounds skip_before duration eos_start readings cfg
      built made small mtu messages short skipped sendable going enough =
    let d =
      start_loop-Delivers host scale late early rounds skip_before cfg built made small mtu messages
        short skipped sendable going enough in
    let ended = end_of_session_lem host duration eos_start readings d.last d.holds in
    record {
      last = end_of_session host duration eos_start readings d.last;
      returns = ap (end_when_left host scale duration eos_start readings) d.ends;
      datagrams = d.datagrams;
      received = d.received;
      sent =
          ap (λ g. g.sent) ended
          ∙ ap₂
              (λ l n.
                l
                ++ replicate (announcements (eos_start +ℤ duration) readings)
                    (header cfg.session n end_of_session_msg_count))
              d.sent d.final.next;
      retained =
          subst (λ rb'. Retains rb' capacity (length late) (position (frames early) late))
            (sym (ap (λ g. g.retransmission_buffer) ended)) d.final.retained;
    }
