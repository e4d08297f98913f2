-- ===== src/Downstream/Feed/Replay/Delivery.antt =====
-- A whole replay, from the constructors on.
use nasdaq_moldudp64_feed_si.Prelude.{
  ℕ, ◌+◌, ◌^◌, ◌<◌, ◌≡◌, refl, sym, ap, ◌∙◌, subst, List, [], ◌∷◌, ◌++◌, length, append_assoc,
  append-nil, length-append, All, arith,
}
use nasdaq_moldudp64_feed_si.Prelude.Int.{ℤ}
use nasdaq_moldudp64_feed_si.Exception.{ok}
use nasdaq_moldudp64_feed_si.BinaryIo.{Endian}
use nasdaq_moldudp64_feed_si.Io.Frames.{frame, frames, IsMessage, frames-IsByte}
use nasdaq_moldudp64_feed_si.PacketBuilder
use nasdaq_moldudp64_feed_si.PacketBuilder.{PacketBuilder}
use nasdaq_moldudp64_feed_si.PacketBuilder.Contents.{Holds, make-Holds}
use nasdaq_moldudp64_feed_si.RetransmissionBuffer
use nasdaq_moldudp64_feed_si.RetransmissionBuffer.{RetransmissionBuffer}
use nasdaq_moldudp64_feed_si.RetransmissionBuffer.Window.{Retains, make-Retains}
use nasdaq_moldudp64_feed_si.Downstream.Pacer
use nasdaq_moldudp64_feed_si.Downstream.Feed.{Feed, Round, make, start_loop, resume}
use nasdaq_moldudp64_feed_si.Downstream.Feed.Packing.{Replays, position}
use nasdaq_moldudp64_feed_si.Downstream.Feed.Replay.{start_round-skips}
use nasdaq_moldudp64_feed_si.Downstream.Feed.Replay.Rounds.{
  IsSendable, IsSkipped, IsGoing, Delivers, send_loop,
}

-- With nothing pushed, any positions are retained.
pub Retains-nothing :
    {b : RetransmissionBuffer} {capacity : ℕ} {p : ℕ → ℕ} (q : ℕ → ℕ)
    → Retains b capacity 0 p
    → Retains b capacity 0 q
Retains-nothing q r = record {
  positive = r.positive;
  slots = r.slots;
  index = r.index;
  written = r.written;
  recent = λ s lo hi near. absurd (omega arith);
  untouched = r.untouched;
}

pub skipped-Replays :
    {f : Feed} {capacity : ℕ} {lead : List ℕ} {rest : List (List ℕ)} {m : List ℕ}
    → Replays f capacity lead (m ∷ rest) [] (m ∷ rest)
    → Replays
        (record f { file_pos = f.file_pos + length (frame m) })
        capacity
        (lead ++ frame m)
        rest
        []
        rest
skipped-Replays {f} {capacity} {lead} {rest} {m} r = record {
  span = r.span;
  messages = r.messages.1;
  split = refl;
  whole = r.whole ∙ sym (append_assoc lead (frame m) (frames rest));
  reached = omega (arith, r.reached, length-append lead (frame m));
  next = r.next;
  retained = Retains-nothing (position (lead ++ frame m) rest) r.retained;
}

module _ (host : Endian) (scale : ℤ → ℤ) {capacity : ℕ} (late : List (List ℕ)) where
  -- Early messages at the start take a round each, and nothing is sent for them.
  skip_loop :
      (early : List (List ℕ)) (rounds : List Round) {f : Feed} {lead : List ℕ}
      {held : List (List ℕ)} {name : List ℕ} {seq : ℕ}
      → length early + length late < length rounds
      → All IsGoing rounds
      → Replays f capacity lead (early ++ late) [] (early ++ late)
      → Holds f.packet_builder name seq held
      → All (IsSkipped host f.pacer.skip_before) early
      → All (IsSendable host f.pacer.skip_before f.packet_builder.mtu) late
      → f.packet_builder.mtu < 131090
      → Delivers host scale capacity (lead ++ frames early) late f rounds 1 late name
  unfolding start_loop resume
  skip_loop [] rounds {f} {lead} {held} {name} {seq} enough going r h skipped sendable mtu =
      subst (λ l. Delivers host scale capacity l late f rounds 1 late name) (sym (append-nil lead))
        (send_loop host scale rounds late (omega arith) going r h sendable mtu)
  skip_loop (m ∷ early) [] enough going r h skipped sendable mtu = absurd (omega arith)
  skip_loop (m ∷ early) (round ∷ rounds) {f} {lead} {held} {name} {seq} enough going r h skipped
        sendable mtu =
      let d =
        skip_loop early rounds {f = record f { file_pos = f.file_pos + length (frame m) }}
          (omega arith) going.1 (skipped-Replays r) h skipped.1 sendable mtu in
      subst (λ l. Delivers host scale capacity l late f (round ∷ rounds) 1 late name)
        (append_assoc lead (frame m) (frames early))
        (record {
          last = d.last;
          ends =
              ap (resume host scale (start_loop host scale rounds))
                (start_round-skips r host scale round going.0 skipped.0.0 skipped.0.1)
              ∙ d.ends;
          datagrams = d.datagrams;
          sent = d.sent;
          received = d.received;
          final = d.final;
          held = d.held;
          held_seq = d.held_seq;
          holds = d.holds;
        })

  -- A feed that was just made replays all messages of its file.
  pub make-Replays :
      (early : List (List ℕ)) (skip_before : ℤ) (b : PacketBuilder) {rb : RetransmissionBuffer}
      → capacity < 2 ^ 64
      → RetransmissionBuffer.make capacity ≡ ok rb
      → All IsMessage (early ++ late)
      → length (frames (early ++ late)) < 2 ^ 63
      → Replays
          (make (frames (early ++ late)) rb (Pacer.make skip_before) b)
          capacity
          []
          (early ++ late)
          []
          (early ++ late)
  unfolding make
  make-Replays early skip_before b small made messages short = record {
    span = (frames-IsByte (early ++ late) messages, short);
    messages = messages;
    split = refl;
    whole = refl;
    reached = omega arith;
    next = omega arith;
    retained = make-Retains capacity (position [] (early ++ late)) small made;
  }

  -- A replay of a well-formed file whose early messages (timestamps below `skip_before`) all stand
  -- before its other messages. With more rounds than messages and no stop, the loop of `start`
  -- ends; the datagrams that it sent carry the messages that are not early, each once, in the order
  -- of the file, in packets numbered from 1 on without a gap; and the buffer then retains the file
  -- positions of the last `capacity` of them. Each of them has its timestamp and fits a packet, and
  -- the MTU is below 131090.
  pub start_loop-Delivers :
      (early : List (List ℕ)) (rounds : List Round) (skip_before : ℤ) (cfg : PacketBuilder.Config)
      {b : PacketBuilder} {rb : RetransmissionBuffer}
      → PacketBuilder.make cfg ≡ ok b
      → RetransmissionBuffer.make capacity ≡ ok rb
      → capacity < 2 ^ 64
      → cfg.mtu < 131090
      → All IsMessage (early ++ late)
      → length (frames (early ++ late)) < 2 ^ 63
      → All (IsSkipped host skip_before) early
      → All (IsSendable host skip_before cfg.mtu) late
      → All IsGoing rounds
      → length early + length late < length rounds
      → Delivers host scale capacity
          (frames early)
          late
          (make (frames (early ++ late)) rb (Pacer.make skip_before) b)
          rounds
          1
          late
          cfg.session
  unfolding make Pacer.make
  start_loop-Delivers early rounds skip_before cfg {b} {rb} built made small mtu messages short
        skipped sendable going enough =
      let (h, same) = make-Holds cfg built in
      skip_loop early rounds enough going
        (make-Replays early skip_before b small made messages short) h skipped
        (subst (λ n. All (IsSendable host skip_before n) late) (sym same) sendable)
        (omega (arith, same))
