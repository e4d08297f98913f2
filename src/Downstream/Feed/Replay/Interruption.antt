-- ===== src/Downstream/Feed/Replay/Interruption.antt =====
-- The loop of `start` when the stop token is triggered.
use nasdaq_moldudp64_feed_si.Prelude.{
  ℕ, ◌+◌, ◌-◌, ◌≤◌, ◌<◌, ◌≡◌, refl, sym, ap, ◌∙◌, subst, Bool, true, false, ◌||◌, List, [], ◌∷◌,
  ◌++◌, length, append_assoc, append-nil, length-append, All, All-back, Bool-cases, inl, inr, arith,
}
use mathlib.Core.Path.{subst₂}
use nasdaq_moldudp64_feed_si.Prelude.Int.{ℤ}
use nasdaq_moldudp64_feed_si.BinaryIo.{Endian}
use nasdaq_moldudp64_feed_si.Io.Frames.{frame, frames}
use nasdaq_moldudp64_feed_si.PacketBuilder.Contents.{Holds}
use nasdaq_moldudp64_feed_si.RetransmissionBuffer.Window.{Retains}
use nasdaq_moldudp64_feed_si.Downstream.Feed.{Feed, Round, left, start_loop, resume}
use nasdaq_moldudp64_feed_si.Downstream.Feed.Packing.{fill, left_over, Replays, position}
use nasdaq_moldudp64_feed_si.Downstream.Feed.Replay.{
  Received, nothing, packet, fill-left_over, fill-pos, start_round-skips,
}
use nasdaq_moldudp64_feed_si.Downstream.Feed.Replay.Rounds.{
  IsSendable, IsSkipped, send_round, leave_round, stop_round,
}
use nasdaq_moldudp64_feed_si.Downstream.Feed.Replay.Delivery.{Retains-nothing, skipped-Replays}

-- The token is found triggered in one of the rounds.
abbrev pub has_stop : List Round → Bool
has_stop [] = false
has_stop (round ∷ rounds) = round.stop_requested || has_stop rounds

-- The loop has been left; of the messages `ms` it has sent the first ones, `now`.
pub record Interrupts (host : Endian) (scale : ℤ → ℤ) (capacity : ℕ) (lead : List ℕ)
    (all before : List (List ℕ)) (f : Feed) (rounds : List Round) (ms : List (List ℕ))
    (name : List ℕ) : Type 0 where
  pub last : Feed
  pub ends : start_loop host scale rounds f ≡ left last
  pub now : List (List ℕ)
  pub later : List (List ℕ)
  pub split : ms ≡ now ++ later
  pub datagrams : List (List ℕ)
  pub sent : last.sent ≡ f.sent ++ datagrams
  pub received : Received name (length before + 1) datagrams now
  pub next : last.sequence_number ≡ length before + length now + 1
  pub retained :
      Retains last.retransmission_buffer capacity (length before + length now) (position lead all)
  pub held : List (List ℕ)
  pub held_seq : ℕ
  pub holds : Holds last.packet_builder name held_seq held

module _ (host : Endian) (scale : ℤ → ℤ) {capacity : ℕ} {lead : List ℕ} {all : List (List ℕ)} where
  -- The loop is left before another round.
  left_at_once :
      (rounds : List Round) (ms : List (List ℕ)) {f : Feed} {before held : List (List ℕ)}
      {name : List ℕ} {seq : ℕ}
      → start_loop host scale rounds f ≡ left f
      → Replays f capacity lead all before ms
      → Holds f.packet_builder name seq held
      → Interrupts host scale capacity lead all before f rounds ms name
  left_at_once rounds ms {f} {before} {held} {name} {seq} ends r h = record {
    last = f;
    ends = ends;
    now = [];
    later = ms;
    split = refl;
    datagrams = [];
    sent = sym (append-nil f.sent);
    received = nothing;
    next = omega (arith, r.next);
    retained =
        subst (λ n. Retains f.retransmission_buffer capacity n (position lead all)) (omega arith)
          r.retained;
    held = held;
    held_seq = seq;
    holds = h;
  }

  -- Whatever is left to send, the round that finds the token triggered leaves the loop.
  pub interrupted_loop :
      (rounds : List Round) (ms : List (List ℕ)) {f : Feed} {before held : List (List ℕ)}
      {name : List ℕ} {seq : ℕ}
      → has_stop rounds ≡ true
      → Replays f capacity lead all before ms
      → Holds f.packet_builder name seq held
      → All (IsSendable host f.pacer.skip_before f.packet_builder.mtu) ms
      → f.packet_builder.mtu < 131090
      → Interrupts host scale capacity lead all before f rounds ms name
  unfolding start_loop resume
  interrupted_loop [] ms stop r h sendable mtu = cc
  interrupted_loop (round ∷ rounds) [] stop r h sendable mtu =
      left_at_once (round ∷ rounds) []
        (ap (resume host scale (start_loop host scale rounds)) (leave_round host scale round r)) r h
  interrupted_loop (round ∷ rounds) (m ∷ ms) {f} {before} {held} {name} {seq} stop r h sendable
        mtu =
      elim (Bool-cases round.stop_requested) [
        | inl stopped ↦
            left_at_once (round ∷ rounds) (m ∷ ms)
              (ap (resume host scale (start_loop host scale rounds))
                (stop_round host scale f round stopped))
              r h
        | inr going ↦
            let (f', step, s) =
              send_round host scale round r h going sendable.0.0 sendable.0.2 mtu in
            let d =
              interrupted_loop rounds (left_over space (m ∷ ms)) {f = f'}
                (ap (λ b. b || has_stop rounds) (sym going) ∙ stop) s.replays s.holds
                (subst₂ (λ skip mtu'. All (IsSendable host skip mtu') (left_over space (m ∷ ms)))
                  (sym s.same_skip) (sym s.same_mtu) later_sendable)
                (omega (arith, s.same_mtu)) in
            record {
              last = d.last;
              ends = ap (resume host scale (start_loop host scale rounds)) step ∙ d.ends;
              now = fill space (m ∷ ms) ++ d.now;
              later = d.later;
              split =
                  sym (fill-left_over space (m ∷ ms))
                  ∙ ap (λ l. fill space (m ∷ ms) ++ l) d.split
                  ∙ sym (append_assoc (fill space (m ∷ ms)) d.now d.later);
              datagrams = s.datagram ∷ d.datagrams;
              sent =
                  d.sent
                  ∙ ap (λ l. l ++ d.datagrams) s.appended
                  ∙ append_assoc f.sent (s.datagram ∷ []) d.datagrams;
              received = packet s.decoded (fill-pos space m ms fits) refl (
                  subst (λ n. Received name n d.datagrams d.now)
                    (omega (arith, length-append before (fill space (m ∷ ms)))) d.received);
              next = omega (
                arith,
                d.next,
                length-append before (fill space (m ∷ ms)),
                length-append (fill space (m ∷ ms)) d.now,
              );
              retained =
                  subst (λ n. Retains d.last.retransmission_buffer capacity n (position lead all))
                    (omega (
                      arith,
                      length-append before (fill space (m ∷ ms)),
                      length-append (fill space (m ∷ ms)) d.now,
                    ))
                    d.retained;
              held = d.held;
              held_seq = d.held_seq;
              holds = d.holds;
            }
      ]
    where
      space : ℕ
      space = f.packet_builder.mtu - 20

      fits : length (frame m) ≤ f.packet_builder.mtu - 20
      fits = omega (arith, sendable.0.1)

      later_sendable :
          All (IsSendable host f.pacer.skip_before f.packet_builder.mtu) (left_over space (m ∷ ms))
      later_sendable =
          All-back (IsSendable host f.pacer.skip_before f.packet_builder.mtu) (fill space (m ∷ ms))
            (left_over space (m ∷ ms))
            (subst (All (IsSendable host f.pacer.skip_before f.packet_builder.mtu))
              (sym (fill-left_over space (m ∷ ms))) sendable)

module _ (host : Endian) (scale : ℤ → ℤ) {capacity : ℕ} (late : List (List ℕ)) where
  -- The token may also be found triggered while early messages are skipped.
  pub interrupted_skips :
      (early : List (List ℕ)) (rounds : List Round) {f : Feed} {lead : List ℕ}
      {held : List (List ℕ)} {name : List ℕ} {seq : ℕ}
      → has_stop rounds ≡ true
      → Replays f capacity lead (early ++ late) [] (early ++ late)
      → Holds f.packet_builder name seq held
      → All (IsSkipped host f.pacer.skip_before) early
      → All (IsSendable host f.pacer.skip_before f.packet_builder.mtu) late
      → f.packet_builder.mtu < 131090
      → Interrupts host scale capacity (lead ++ frames early) late [] f rounds late name
  unfolding start_loop resume
  interrupted_skips [] rounds {f} {lead} {held} {name} {seq} stop r h skipped sendable mtu =
      subst (λ l. Interrupts host scale capacity l late [] f rounds late name)
        (sym (append-nil lead)) (interrupted_loop host scale rounds late stop r h sendable mtu)
  interrupted_skips (m ∷ early) [] stop r h skipped sendable mtu = cc
  interrupted_skips (m ∷ early) (round ∷ rounds) {f} {lead} {held} {name} {seq} stop r h skipped
        sendable mtu =
      elim (Bool-cases round.stop_requested) [
        | inl stopped ↦ record {
          last = f;
          ends =
              ap (resume host scale (start_loop host scale rounds))
                (stop_round host scale f round stopped);
          now = [];
          later = late;
          split = refl;
          datagrams = [];
          sent = sym (append-nil f.sent);
          received = nothing;
          next = omega (arith, r.next);
          retained = Retains-nothing (position (lead ++ frames (m ∷ early)) late) r.retained;
          held = held;
          held_seq = seq;
          holds = h;
        }
        | inr going ↦
            let d =
              interrupted_skips early rounds
                {f = record f { file_pos = f.file_pos + length (frame m) }}
                (ap (λ b. b || has_stop rounds) (sym going) ∙ stop) (skipped-Replays r) h skipped.1
                sendable mtu in
            record {
              last = d.last;
              ends =
                  ap (resume host scale (start_loop host scale rounds))
                    (start_round-skips r host scale round going skipped.0.0 skipped.0.1)
                  ∙ d.ends;
              now = d.now;
              later = d.later;
              split = d.split;
              datagrams = d.datagrams;
              sent = d.sent;
              received = d.received;
              next = d.next;
              retained =
                  subst
                    (λ l.
                      Retains d.last.retransmission_buffer capacity (0 + length d.now)
                        (position l late))
                    (append_assoc lead (frame m) (frames early)) d.retained;
              held = d.held;
              held_seq = d.held_seq;
              holds = d.holds;
            }
      ]
