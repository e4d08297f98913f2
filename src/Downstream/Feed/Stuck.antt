-- ===== src/Downstream/Feed/Stuck.antt =====
-- Two files that are not replayed to their end: one with a message too large for a packet, and one
-- whose last prefix overruns it.
use nasdaq_moldudp64_feed_si.Prelude.{
  ℕ, suc, ◌+◌, ◌-◌, ◌<◌, ◌≤◌, ◌≡◌, refl, sym, ap, ◌∙◌, subst, not, false, List, [], ◌∷◌, ◌++◌,
  length, some, append-nil, append_assoc, lt→ltb, All, arith,
}
use nasdaq_moldudp64_feed_si.BinaryIo.{Endian}
use nasdaq_moldudp64_feed_si.Prelude.Int.{ℤ}
use nasdaq_moldudp64_feed_si.Io.{read_message, skip_message}
use nasdaq_moldudp64_feed_si.Io.Reading.{
  IsSpan, prefix_at, read_message-overrun, skip_message-read_message, is_empty,
}
use nasdaq_moldudp64_feed_si.Io.Frames.{frame}
use nasdaq_moldudp64_feed_si.PacketBuilder
use nasdaq_moldudp64_feed_si.PacketBuilder.Contents.{Holds}
use nasdaq_moldudp64_feed_si.PacketBuilder.Wire.{decode}
use nasdaq_moldudp64_feed_si.Downstream.Feed.{
  Feed, Round, continues, resume, start_loop, build_packet, build_round, add_message,
}
use nasdaq_moldudp64_feed_si.Downstream.Feed.Packing.{fill, left_over, Replays}
use nasdaq_moldudp64_feed_si.Downstream.Feed.Packing.Loop.{build_loop-stop}
use nasdaq_moldudp64_feed_si.Downstream.Feed.Replay.{IsItch, is_early, packet_of}
use nasdaq_moldudp64_feed_si.Downstream.Feed.Replay.Rounds.{Sends, IsGoing, send_round}

-- The datagrams all decode to packets without messages that have the number `seq`.
abbrev pub AllEmpty : List ℕ → ℕ → List (List ℕ) → Type 0
AllEmpty name seq datagrams = All (λ d. decode d ≡ some (packet_of name seq [])) datagrams

-- The loop has not ended, is still in front of the messages `ms`, and has sent empty packets.
pub record Stays (host : Endian) (scale : ℤ → ℤ) (capacity : ℕ) (lead : List ℕ)
    (all before ms : List (List ℕ)) (f : Feed) (rounds : List Round) (name : List ℕ) : Type 0 where
  pub last : Feed
  pub going_on : start_loop host scale rounds f ≡ continues last
  pub replays : Replays last capacity lead all before ms
  pub datagrams : List (List ℕ)
  pub sent : last.sent ≡ f.sent ++ datagrams
  pub one_each : length datagrams ≡ length rounds
  pub empty : AllEmpty name (length before + 1) datagrams

nothing_fits :
    (room : ℕ) (m : List ℕ) (ms : List (List ℕ))
    → room < length (frame m)
    → (fill room (m ∷ ms) ≡ []) × (left_over room (m ∷ ms) ≡ m ∷ ms)
nothing_fits room m ms h = rw (lt→ltb room (length (frame m)) h) (refl, refl)

module _ (host : Endian) (scale : ℤ → ℤ) {capacity : ℕ} {lead : List ℕ} {all : List (List ℕ)} where
  -- In front of a message that is too large for a packet (its frame and the header exceed the
  -- MTU), the loop of `start` never ends: after any number of rounds without a stop it is in front
  -- of the same message, and has sent one packet without messages in each round. The file is
  -- well-formed, the message has its timestamp and is not early, and the MTU is below 131090.
  pub start_loop-Stays :
      (rounds : List Round) {f : Feed} {before ms held : List (List ℕ)} {m name : List ℕ} {seq : ℕ}
      → Replays f capacity lead all before (m ∷ ms)
      → Holds f.packet_builder name seq held
      → f.packet_builder.mtu - 20 < length (frame m)
      → IsItch m
      → is_early host f.pacer.skip_before m ≡ false
      → f.packet_builder.mtu < 131090
      → All IsGoing rounds
      → Stays host scale capacity lead all before (m ∷ ms) f rounds name
  unfolding start_loop resume
  start_loop-Stays [] {f} r h large itch late mtu going = record {
    last = f;
    going_on = refl;
    replays = r;
    datagrams = [];
    sent = sym (append-nil f.sent);
    one_each = refl;
    empty = tt;
  }
  start_loop-Stays (round ∷ rounds) {f} {before} {ms} {held} {m} {name} r h large itch late mtu
        going =
      let (f', step, s) = send_round host scale round r h going.0 itch late mtu in
      let (none_now, all_later) = nothing_fits (f.packet_builder.mtu - 20) m ms large in
      let s' =
        subst (λ later. Sends f f' capacity lead all before [] later name) all_later
          (subst
            (λ now.
              Sends f f' capacity lead all before now
                (left_over (f.packet_builder.mtu - 20) (m ∷ ms)) name)
            none_now s) in
      let d =
        start_loop-Stays rounds {f = f'}
          (subst (λ x. Replays f' capacity lead all x (m ∷ ms)) (append-nil before) s'.replays)
          s'.holds (omega (arith, s'.same_mtu)) itch
          (ap (λ skip. is_early host skip m) s'.same_skip ∙ late) (omega (arith, s'.same_mtu))
          going.1 in
      record {
        last = d.last;
        going_on = ap (resume host scale (start_loop host scale rounds)) step ∙ d.going_on;
        replays = d.replays;
        datagrams = s'.datagram ∷ d.datagrams;
        sent =
            d.sent
            ∙ ap (λ l. l ++ d.datagrams) s'.appended
            ∙ append_assoc f.sent (s'.datagram ∷ []) d.datagrams;
        one_each = ap suc d.one_each;
        empty = (s'.decoded, d.empty);
      }

module _ (host : Endian) (f : Feed) (span : IsSpan f.file) (room : f.file_pos + 2 ≤ length f.file)
    (over : length f.file < f.file_pos + 2 + prefix_at f.file f.file_pos) where
  reads_nothing : read_message host f.file f.file_pos ≡ ([], f.file_pos + 2)
  reads_nothing = read_message-overrun host f.file f.file_pos span (omega arith) room over

  round-overrun :
      (b : PacketBuilder.PacketBuilder)
      → let g = record f { packet_builder = b } in
        build_round host g ≡ (record g { file_pos = f.file_pos + 2 }, false)
  unfolding build_round add_message
  round-overrun b =
      ap (λ x. add_message f.file_pos x (record f { packet_builder = b })) reads_nothing

  -- On a prefix that overruns the file, `build_packet` returns an empty packet and leaves the
  -- position behind the prefix, two bytes further on; `skip_message` moves as far, but fails.
  pub build_packet-overrun :
      (build_packet host f
        ≡ some (record f {
          file_pos = f.file_pos + 2;
          packet_builder = PacketBuilder.reset host f.sequence_number f.packet_builder;
        }))
      × (skip_message host f.file f.file_pos ≡ (false, f.file_pos + 2))
  unfolding build_packet
  build_packet-overrun = (
    build_loop-stop host (length f.file) _ _ (omega arith)
        (round-overrun (PacketBuilder.reset host f.sequence_number f.packet_builder)),
    skip_message-read_message host f.file f.file_pos span (omega arith)
        ∙ ap (λ (x : List ℕ × ℕ). (not (is_empty x.0), x.1)) reads_nothing,
  )
