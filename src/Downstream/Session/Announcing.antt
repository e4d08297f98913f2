-- ===== src/Downstream/Session/Announcing.antt =====
-- What the heartbeats announce while the feed replays a file, from the constructors on.
use nasdaq_moldudp64_feed_si.Prelude.{
  ℕ, ◌^◌, ◌≤◌, ◌<◌, ◌≡◌, refl, sym, ap, ◌∙◌, subst, List, [], ◌∷◌, ◌++◌, map, length, length-append,
  some, All, arith,
}
use nasdaq_moldudp64_feed_si.Prelude.Int.{ℤ}
use nasdaq_moldudp64_feed_si.Exception.{ok}
use nasdaq_moldudp64_feed_si.BinaryIo.{Endian}
use nasdaq_moldudp64_feed_si.Io.Frames.{frames, IsMessage}
use nasdaq_moldudp64_feed_si.PacketBuilder
use nasdaq_moldudp64_feed_si.PacketBuilder.{PacketBuilder}
use nasdaq_moldudp64_feed_si.PacketBuilder.Contents.{make-Holds}
use nasdaq_moldudp64_feed_si.PacketBuilder.Wire.{decode}
use nasdaq_moldudp64_feed_si.RetransmissionBuffer
use nasdaq_moldudp64_feed_si.RetransmissionBuffer.{RetransmissionBuffer}
use nasdaq_moldudp64_feed_si.Downstream.Pacer
use nasdaq_moldudp64_feed_si.Downstream.Feed
use nasdaq_moldudp64_feed_si.Downstream.Feed.Packing.{length-le-frames}
use nasdaq_moldudp64_feed_si.Downstream.Feed.Replay.{packet_of, nothing}
use nasdaq_moldudp64_feed_si.Downstream.Feed.Replay.Delivery.{make-Replays}
use nasdaq_moldudp64_feed_si.Downstream.Feed.Replay.Rounds.{IsSendable, IsSkipped}
use nasdaq_moldudp64_feed_si.Downstream.Heartbeat
use nasdaq_moldudp64_feed_si.Downstream.Heartbeat.Thread.{make-Announces, decode-headers}
use nasdaq_moldudp64_feed_si.Downstream.Session.{Session, begin, Steps}
use nasdaq_moldudp64_feed_si.Downstream.Session.Phases.{skips}
use nasdaq_moldudp64_feed_si.Downstream.Session.Playing.{Plays}
use nasdaq_moldudp64_feed_si.Downstream.Session.Beating.{IsSorted, Steps-kept, shared-le}

-- The heartbeats sent so far announce numbers that never go down and are not above the shared number.
pub record Announced (s : Session) (name : List ℕ) : Type 0 where
  pub numbers : List ℕ
  pub decoded : map decode s.heartbeat.sent ≡ map (λ seq. some (packet_of name seq [])) numbers
  pub sorted : IsSorted numbers
  pub below : All (λ k. k ≤ s.sent_sequence_number) numbers

All-lt : (ns : List ℕ) {a b : ℕ} → a < b → All (λ k. k ≤ a) ns → All (λ k. k < b) ns
All-lt [] h all = tt
All-lt (n ∷ ns) h all = (omega (arith, all.0), All-lt ns h all.1)

-- While the feed replays a well-formed file whose early messages (timestamps below `skip_before`) all
-- stand before the others, in any interleaving with the thread of its heartbeat: each heartbeat that
-- was sent decodes to a packet of the session without messages; their numbers never go down, and are
-- not above the shared number. The datagrams that the feed has handed to the kernel carry the first of
-- the messages that are not early, each once, in order, numbered from 1 on without a gap; the shared
-- number is one more than these messages, or, while a packet is being sent, one more than these and
-- those in the packet. Each message has its timestamp and fits a packet, the MTU is below 131090, and
-- the session has ten bytes.
pub begin-Announced :
    (host : Endian) (scale : ℤ → ℤ) (capacity : ℕ) (early ms : List (List ℕ))
    (skip_before period : ℤ) (cfg : PacketBuilder.Config) {b : PacketBuilder}
    {rb : RetransmissionBuffer} {s : Session}
    → PacketBuilder.make cfg ≡ ok b
    → RetransmissionBuffer.make capacity ≡ ok rb
    → capacity < 2 ^ 64
    → cfg.mtu < 131090
    → length cfg.session ≡ 10
    → All IsMessage (early ++ ms)
    → length (frames (early ++ ms)) < 2 ^ 63
    → All (IsSkipped host skip_before) early
    → All (IsSendable host skip_before cfg.mtu) ms
    → Steps host scale
        (begin
          (Feed.make (frames (early ++ ms)) rb (Pacer.make skip_before) b)
          (Heartbeat.make host period cfg.session))
        s
    → Announced s cfg.session × Plays host scale capacity ms cfg.session s
unfolding begin Feed.make Pacer.make Heartbeat.make
begin-Announced host scale capacity early ms skip_before period cfg {b} {rb} {s} built made small
      mtu ten messages short skippable sendable steps =
    let (h, same) = make-Holds cfg built in
    let (p, c) =
      Steps-kept host scale capacity ms cfg.session steps
        (record {
          before = [];
          ms = ms;
          held = [];
          seq = 0;
          phase =
              skips [] early
                (make-Replays host scale ms early skip_before b small made messages short)
                skippable;
          holds = h;
          sendable = subst (λ n. All (IsSendable host skip_before n) ms) (sym same) sendable;
          mtu = omega (arith, same);
          received = nothing;
          number = omega arith;
          position = omega arith;
        })
        (record {
          announces = make-Announces host period cfg.session ten;
          numbers = [];
          layout = refl;
          sorted = tt;
          below = tt;
          pending = tt;
        }) in
    (
      record {
        numbers = c.numbers;
        decoded =
            ap (map decode) c.layout
            ∙ decode-headers cfg.session c.numbers ten (
                All-lt c.numbers
                  (omega (
                    arith,
                    shared-le host scale capacity ms cfg.session p,
                    length-le-frames (early ++ ms),
                    length-append early ms,
                  ))
                  c.below);
        sorted = c.sorted;
        below = c.below;
      },
      p,
    )
