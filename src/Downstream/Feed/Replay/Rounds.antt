-- ===== src/Downstream/Feed/Replay/Rounds.antt =====
-- The loop round by round: first the early messages are skipped, then the rest is sent.
use mathlib.Core.Path.{subst₂}
use nasdaq_moldudp64_feed_si.Prelude.{
  ℕ, ◌+◌, ◌-◌, ◌^◌, ◌≤◌, ◌<◌, ◌≡◌, refl, sym, ap, ◌∙◌, subst, true, false, List, [], ◌∷◌, ◌++◌, map,
  length, some, append_assoc, append-nil, length-append, All, All-front, All-back, arith,
}
use nasdaq_moldudp64_feed_si.Prelude.Int.{ℤ, pos}
use nasdaq_moldudp64_feed_si.BinaryIo.{Endian}
use nasdaq_moldudp64_feed_si.Itch.{extract_timestamp}
use nasdaq_moldudp64_feed_si.Io.Frames.{frame, IsMessage}
use nasdaq_moldudp64_feed_si.PacketBuilder
use nasdaq_moldudp64_feed_si.PacketBuilder.Contents.{Holds, finalize-Holds}
use nasdaq_moldudp64_feed_si.PacketBuilder.Wire.{
  decode, decode-datagram, length-map-frame, messages-lt_end_of_session,
}
use nasdaq_moldudp64_feed_si.Downstream.Pacer
use nasdaq_moldudp64_feed_si.Downstream.Pacer.{Pacer}
use nasdaq_moldudp64_feed_si.Downstream.Feed.{
  Feed, Round, continues, left, after_build, start_round, start_loop, resume, send_packet,
}
use nasdaq_moldudp64_feed_si.Downstream.Feed.Packing.{
  fill, left_over, Replays, length-le-frames, sizes,
}
use nasdaq_moldudp64_feed_si.Downstream.Feed.Packing.Loop.{Packed, build_packet-Packed, at_end}
use nasdaq_moldudp64_feed_si.Downstream.Feed.Replay.{
  IsItch, is_early, FitsAlone, packet_of, Received, nothing, packet, fill-left_over, fill-pos,
  start_round-builds,
}

-- From `f` to `f'` one packet was sent, with the messages `now`.
pub record Sends (f f' : Feed) (capacity : ℕ) (lead : List ℕ) (all before now later : List (List ℕ))
    (name : List ℕ) : Type 0 where
  pub replays : Replays f' capacity lead all (before ++ now) later
  pub holds : Holds f'.packet_builder name (length before + 1) (map frame now)
  pub same_mtu : f'.packet_builder.mtu ≡ f.packet_builder.mtu
  pub same_skip : f'.pacer.skip_before ≡ f.pacer.skip_before
  pub datagram : List ℕ
  pub appended : f'.sent ≡ f.sent ++ (datagram ∷ [])
  pub stored : f'.sent_sequence_number ≡ f'.sequence_number
  pub decoded : decode datagram ≡ some (packet_of name (length before + 1) now)

same_skip-get_delay :
    (scale : ℤ → ℤ) (p : Pacer) (timestamp start now : ℤ)
    → (Pacer.get_delay scale p timestamp start now).1.skip_before ≡ p.skip_before
unfolding Pacer.get_delay
same_skip-get_delay scale p timestamp start now = ground arith

-- A message that the loop sends: it has its timestamp, fits a packet and is not early.
abbrev pub IsSendable : Endian → ℤ → ℕ → List ℕ → Type 0
IsSendable host skip_before mtu m =
    IsItch m × FitsAlone mtu m × (is_early host skip_before m ≡ false)

-- A message that the loop skips.
abbrev pub IsSkipped : Endian → ℤ → List ℕ → Type 0
IsSkipped host skip_before m = IsItch m × (is_early host skip_before m ≡ true)

abbrev pub IsGoing : Round → Type 0
IsGoing round = round.stop_requested ≡ false

-- How the loop ends: it has been left, and the datagrams it sent carry the messages `ms`.
pub record Delivers (host : Endian) (scale : ℤ → ℤ) (capacity : ℕ) (lead : List ℕ)
    (all : List (List ℕ)) (f : Feed) (rounds : List Round) (seq : ℕ) (ms : List (List ℕ))
    (name : List ℕ) : Type 0 where
  pub last : Feed
  pub ends : start_loop host scale rounds f ≡ left last
  pub datagrams : List (List ℕ)
  pub sent : last.sent ≡ f.sent ++ datagrams
  pub received : Received name seq datagrams ms
  pub final : Replays last capacity lead all all []
  pub held : List (List ℕ)
  pub held_seq : ℕ
  pub holds : Holds last.packet_builder name held_seq held

pub stop_round :
    (host : Endian) (scale : ℤ → ℤ) (f : Feed) (round : Round)
    → round.stop_requested ≡ true
    → start_round host scale round f ≡ left f
unfolding start_round
stop_round host scale f round h = ground (arith, h)

module _ (host : Endian) (scale : ℤ → ℤ) {capacity : ℕ} {lead : List ℕ} {all : List (List ℕ)} where
  -- Sending what `build_packet` has packed.
  send-Packed :
      {f f' : Feed} {before now later : List (List ℕ)} {name : List ℕ} (timestamp : ℤ)
      (round : Round)
      → Packed f f' capacity lead all before [] now later name (length before + 1)
      → All IsMessage now
      → f.packet_builder.mtu < 131090
      → length before + 1 < 2 ^ 64
      → (f'' : Feed) × (after_build host scale timestamp round (some f') ≡ continues f'')
        × Sends f f'' capacity lead all before now later name
  unfolding after_build send_packet
  send-Packed {f} {f'} {before} {now} {later} {name} timestamp round p messages mtu small = (
    send_packet host
        (record f' { pacer = (Pacer.get_delay scale f'.pacer timestamp round.start round.now).1 }),
    refl,
    record {
      replays = record {
        span = p.replays.span;
        messages = p.replays.messages;
        split = p.replays.split;
        whole = p.replays.whole;
        reached = p.replays.reached;
        next = p.replays.next;
        retained = p.replays.retained;
      };
      holds = finalize-Holds host p.holds (
          omega (
            arith,
            length-map-frame now,
            messages-lt_end_of_session now p.holds (omega (arith, p.same_mtu)),
          ));
      same_mtu = unfold PacketBuilder.finalize in p.same_mtu;
      same_skip =
          same_skip-get_delay scale f'.pacer timestamp round.start round.now
          ∙ ap (λ q. q.skip_before) p.same_pacer;
      datagram = PacketBuilder.datagram (PacketBuilder.finalize host f'.packet_builder);
      appended =
          ap
            (λ l.
              l ++ (PacketBuilder.datagram (PacketBuilder.finalize host f'.packet_builder) ∷ []))
            p.same_sent;
      stored = refl;
      decoded = decode-datagram host now p.holds messages small (omega (arith, p.same_mtu));
    },
  )

  pub send_round :
      {f : Feed} {before ms held : List (List ℕ)} {m name : List ℕ} {seq : ℕ} (round : Round)
      → Replays f capacity lead all before (m ∷ ms)
      → Holds f.packet_builder name seq held
      → IsGoing round
      → IsItch m
      → is_early host f.pacer.skip_before m ≡ false
      → f.packet_builder.mtu < 131090
      → let room = f.packet_builder.mtu - 20 in
        (f' : Feed) × (start_round host scale round f ≡ continues f')
        × Sends f f' capacity lead all before (fill room (m ∷ ms)) (left_over room (m ∷ ms)) name
  send_round {f} {before} {ms} {held} {m} {name} {seq} round r h going itch late mtu =
      let room = f.packet_builder.mtu - 20 in
      let (f', built, p) = build_packet-Packed host r h in
      let (f'', sent, s) =
        send-Packed (pos (extract_timestamp host m)) round
          (subst
            (λ q.
              Packed f f' capacity lead all before [] (fill room (m ∷ ms)) (left_over room (m ∷ ms))
                name q)
            r.next p)
          (All-front IsMessage (fill room (m ∷ ms)) (left_over room (m ∷ ms))
            (subst (All IsMessage) (sym (fill-left_over room (m ∷ ms))) r.messages))
          mtu (omega (arith, r.reached, length-le-frames before, sizes r, r.span.1)) in
      (
        f'',
        start_round-builds r host scale round going itch late
            ∙ ap (after_build host scale (pos (extract_timestamp host m)) round) built
            ∙ sent,
        s,
      )

  pub leave_round :
      {f : Feed} {before : List (List ℕ)} (round : Round)
      → Replays f capacity lead all before []
      → start_round host scale round f ≡ left f
  unfolding start_round
  leave_round {f} {before} round r = ground (arith, at_end r)

  -- With more rounds than messages and no stop, every message is sent.
  pub send_loop :
      (rounds : List Round) (ms : List (List ℕ)) {f : Feed} {before held : List (List ℕ)}
      {name : List ℕ} {seq : ℕ}
      → length ms < length rounds
      → All IsGoing rounds
      → Replays f capacity lead all before ms
      → Holds f.packet_builder name seq held
      → All (IsSendable host f.pacer.skip_before f.packet_builder.mtu) ms
      → f.packet_builder.mtu < 131090
      → Delivers host scale capacity lead all f rounds (length before + 1) ms name
  unfolding start_loop resume
  send_loop [] ms enough going r h sendable mtu = absurd (omega arith)
  send_loop (round ∷ rounds) [] {f} {before} {held} {name} {seq} enough going r h sendable mtu =
      record {
        last = f;
        ends = ap (resume host scale (start_loop host scale rounds)) (leave_round round r);
        datagrams = [];
        sent = sym (append-nil f.sent);
        received = nothing;
        final = subst (λ x. Replays f capacity lead all x []) (sym (r.split ∙ append-nil before)) r;
        held = held;
        held_seq = seq;
        holds = h;
      }
  send_loop (round ∷ rounds) (m ∷ ms) {f} {before} {held} {name} {seq} enough going r h sendable
        mtu =
      let room = f.packet_builder.mtu - 20 in
      let now = fill room (m ∷ ms) in
      let later = left_over room (m ∷ ms) in
      let (f', step, s) = send_round round r h going.0 sendable.0.0 sendable.0.2 mtu in
      let d =
        send_loop rounds later {f = f'} fewer going.1 s.replays s.holds
          (subst₂ (λ skip mtu'. All (IsSendable host skip mtu') later) (sym s.same_skip)
            (sym s.same_mtu) later_sendable)
          (omega (arith, s.same_mtu)) in
      record {
        last = d.last;
        ends = ap (resume host scale (start_loop host scale rounds)) step ∙ d.ends;
        datagrams = s.datagram ∷ d.datagrams;
        sent =
            d.sent
            ∙ ap (λ l. l ++ d.datagrams) s.appended
            ∙ append_assoc f.sent (s.datagram ∷ []) d.datagrams;
        received = packet s.decoded (fill-pos room m ms fits) (sym (fill-left_over room (m ∷ ms))) (
            subst (λ n. Received name n d.datagrams later) (omega (arith, length-append before now))
              d.received);
        final = d.final;
        held = d.held;
        held_seq = d.held_seq;
        holds = d.holds;
      }
    where
      space : ℕ
      space = f.packet_builder.mtu - 20

      fits : length (frame m) ≤ f.packet_builder.mtu - 20
      fits = omega (arith, sendable.0.1)

      fewer : length (left_over space (m ∷ ms)) < length rounds
      fewer = omega (
        arith,
        ap length (fill-left_over space (m ∷ ms)),
        length-append (fill space (m ∷ ms)) (left_over space (m ∷ ms)),
        fill-pos space m ms fits,
      )

      later_sendable :
          All (IsSendable host f.pacer.skip_before f.packet_builder.mtu) (left_over space (m ∷ ms))
      later_sendable =
          All-back (IsSendable host f.pacer.skip_before f.packet_builder.mtu) (fill space (m ∷ ms))
            (left_over space (m ∷ ms))
            (subst (All (IsSendable host f.pacer.skip_before f.packet_builder.mtu))
              (sym (fill-left_over space (m ∷ ms))) sendable)
