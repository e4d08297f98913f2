-- ===== src/Downstream/Feed/StopRequest.antt =====
-- A whole run of `start` whose stop token is triggered.
use nasdaq_moldudp64_feed_si.Prelude.{
  ℕ, ◌^◌, ◌<◌, ◌≡◌, refl, sym, ap, ◌∙◌, subst, Bool, true, List, [], ◌∷◌, ◌++◌, length, replicate,
  Option, some, append-nil, All, arith,
}
use nasdaq_moldudp64_feed_si.Prelude.Int.{ℤ, ◌+ℤ◌}
use nasdaq_moldudp64_feed_si.Types.{end_of_session_msg_count}
use nasdaq_moldudp64_feed_si.Exception.{ok}
use nasdaq_moldudp64_feed_si.BinaryIo.{Endian}
use nasdaq_moldudp64_feed_si.Io.Frames.{frames, IsMessage}
use nasdaq_moldudp64_feed_si.PacketBuilder
use nasdaq_moldudp64_feed_si.PacketBuilder.Contents.{header, make-Holds}
use nasdaq_moldudp64_feed_si.RetransmissionBuffer
use nasdaq_moldudp64_feed_si.RetransmissionBuffer.Window.{Retains}
use nasdaq_moldudp64_feed_si.Downstream.Pacer
use nasdaq_moldudp64_feed_si.Downstream.Feed.{
  Feed, make, Round, end_of_session, end_when_left, start,
}
use nasdaq_moldudp64_feed_si.Downstream.Feed.Packing.{position}
use nasdaq_moldudp64_feed_si.Downstream.Feed.Replay.{Received}
use nasdaq_moldudp64_feed_si.Downstream.Feed.Replay.Rounds.{IsSendable, IsSkipped}
use nasdaq_moldudp64_feed_si.Downstream.Feed.Replay.Delivery.{make-Replays}
use nasdaq_moldudp64_feed_si.Downstream.Feed.Replay.Interruption.{has_stop, interrupted_skips}
use nasdaq_moldudp64_feed_si.Downstream.Feed.EndOfSession.{announcements, end_of_session_lem}

-- The token is found triggered, whatever the clock says.
abbrev pub IsTriggered : Bool × ℤ → Type 0
IsTriggered reading = reading.0 ≡ true

triggered-announcements :
    (end : ℤ) (readings : List (Bool × ℤ))
    → All IsTriggered readings
    → announcements end readings ≡ 0
triggered-announcements end [] triggered = refl
triggered-announcements end ((stop, now) ∷ readings) triggered = rw triggered.0 refl

-- What `start` sends in all: the first ones of the messages `ms`, and nothing else.
pub record Stops (result : Option Feed) (capacity : ℕ) (positions : ℕ → ℕ) (name : List ℕ)
    (ms : List (List ℕ)) : Type 0 where
  pub last : Feed
  pub returns : result ≡ some last
  pub now : List (List ℕ)
  pub later : List (List ℕ)
  pub split : ms ≡ now ++ later
  pub received : Received name 1 last.sent now
  pub retained : Retains last.retransmission_buffer capacity (length now) positions

-- `start` on a feed that was just made, for a well-formed file whose early messages (timestamps
-- below `skip_before`) all stand before the others, when one of its rounds finds the stop token
-- triggered, and so does every later reading of it: `start` returns. It has sent datagrams that
-- carry the first ones of the messages that are not early, each once, in order, numbered from 1 on
-- without a gap, and nothing behind them, no end-of-session packet either; and the buffer retains
-- the file positions of the last `capacity` of the messages that were sent. Each message has its
-- timestamp and fits a packet, and the MTU is below 131090.
pub start-Stops :
    (host : Endian) (scale : ℤ → ℤ) {capacity : ℕ} (early late : List (List ℕ))
    (rounds : List Round) (skip_before duration eos_start : ℤ) (readings : List (Bool × ℤ))
    (cfg : PacketBuilder.Config) {b : PacketBuilder.PacketBuilder}
    {rb : RetransmissionBuffer.RetransmissionBuffer}
    → PacketBuilder.make cfg ≡ ok b
    → RetransmissionBuffer.make capacity ≡ ok rb
    → capacity < 2 ^ 64
    → cfg.mtu < 131090
    → All IsMessage (early ++ late)
    → length (frames (early ++ late)) < 2 ^ 63
    → All (IsSkipped host skip_before) early
    → All (IsSendable host skip_before cfg.mtu) late
    → has_stop rounds ≡ true
    → All IsTriggered readings
    → Stops
        (start host scale rounds duration eos_start readings
          (make (frames (early ++ late)) rb (Pacer.make skip_before) b))
        capacity
        (position (frames early) late)
        cfg.session
        late
unfolding start end_when_left make Pacer.make
start-Stops host scale {capacity} early late rounds skip_before duration eos_start readings cfg {b}
      {rb} built made small mtu messages short skipped sendable stop triggered =
    let (h, same) = make-Holds cfg built in
    let d =
      interrupted_skips host scale late early rounds stop
        (make-Replays host scale late early skip_before b small made messages short) h skipped
        (subst (λ n. All (IsSendable host skip_before n) late) (sym same) sendable)
        (omega (arith, same)) in
    let ended = end_of_session_lem host duration eos_start readings d.last d.holds in
    record {
      last = end_of_session host duration eos_start readings d.last;
      returns = ap (end_when_left host scale duration eos_start readings) d.ends;
      now = d.now;
      later = d.later;
      split = d.split;
      received =
          subst (λ l. Received cfg.session 1 l d.now)
            (sym (
              ap (λ g. g.sent) ended
              ∙ ap
                  (λ n.
                    d.last.sent
                    ++ replicate n
                        (header cfg.session d.last.sequence_number end_of_session_msg_count))
                  (triggered-announcements (eos_start +ℤ duration) readings triggered)
              ∙ append-nil d.last.sent
              ∙ d.sent))
            d.received;
      retained =
          subst (λ rb'. Retains rb' capacity (length d.now) (position (frames early) late))
            (sym (ap (λ g. g.retransmission_buffer) ended))
            (subst
              (λ n. Retains d.last.retransmission_buffer capacity n (position (frames early) late))
              (omega arith) d.retained);
    }
