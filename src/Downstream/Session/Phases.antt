-- ===== src/Downstream/Session/Phases.antt =====
-- What a round of the player does on a well-formed file.
use nasdaq_moldudp64_feed_si.Prelude.{
  ℕ, ◌+◌, ◌-◌, ◌<◌, ◌≡◌, sym, subst, List, [], ◌∷◌, ◌++◌, length, length-append, Bool-cases, ◌⊎◌,
  inl, inr, refl, ap, All, arith,
}
use nasdaq_moldudp64_feed_si.Prelude.Int.{ℤ}
use nasdaq_moldudp64_feed_si.BinaryIo.{Endian}
use nasdaq_moldudp64_feed_si.Io.Frames.{frame}
use nasdaq_moldudp64_feed_si.PacketBuilder.Contents.{Holds}
use nasdaq_moldudp64_feed_si.Downstream.Feed.{Feed, Round, Outcome, continues, left, start_round}
use nasdaq_moldudp64_feed_si.Downstream.Feed.Packing.{fill, left_over, Replays}
use nasdaq_moldudp64_feed_si.Downstream.Feed.Replay.{start_round-skips, fill-pos}
use nasdaq_moldudp64_feed_si.Downstream.Feed.Replay.Delivery.{skipped-Replays}
use nasdaq_moldudp64_feed_si.Downstream.Feed.Replay.Rounds.{
  Sends, IsSendable, IsSkipped, send_round, leave_round, stop_round,
}
use nasdaq_moldudp64_feed_si.Downstream.Session.{Player, sending}

module _ (host : Endian) (scale : ℤ → ℤ) (capacity : ℕ) (all : List (List ℕ)) (name : List ℕ) where
  -- Of the messages `all`, `before` have been sent and `ms` are left; or early messages still stand
  -- in front of all of them.
  pub data Phase (f : Feed) : List (List ℕ) → List (List ℕ) → Type 0 where
    skips :
        (lead : List ℕ) (early : List (List ℕ))
        → Replays f capacity lead (early ++ all) [] (early ++ all)
        → All (IsSkipped host f.pacer.skip_before) early
        → Phase f [] all
    replays :
        (lead : List ℕ) {before ms : List (List ℕ)}
        → Replays f capacity lead all before ms
        → Phase f before ms

  -- A round has packed the next messages.
  pub record Packs (f f' : Feed) (before ms : List (List ℕ)) : Type 0 where
    pub lead : List ℕ
    pub packs :
        Sends f f' capacity lead all before
          (fill (f.packet_builder.mtu - 20) ms)
          (left_over (f.packet_builder.mtu - 20) ms)
          name
    pub some_messages : 0 < length (fill (f.packet_builder.mtu - 20) ms)

  -- A round has skipped an early message.
  pub record Skips (f f' : Feed) (before ms : List (List ℕ)) : Type 0 where
    pub phase : Phase f' before ms
    pub same_builder : f'.packet_builder ≡ f.packet_builder
    pub same_pacer : f'.pacer ≡ f.pacer
    pub same_number : f'.sent_sequence_number ≡ f.sent_sequence_number
    pub same_sent : f'.sent ≡ f.sent

  -- What the position of the player says of the shared number.
  abbrev pub AtPlayer : Player → Feed → List (List ℕ) → List (List ℕ) → ℕ → Type 0
  AtPlayer (sending f') f before ms shared =
      (Packs f f' before ms
        × (shared ≡ length before + length (fill (f.packet_builder.mtu - 20) ms) + 1))
      ⊎ (Skips f f' before ms × (shared ≡ length before + 1))
  AtPlayer _ f before ms shared = shared ≡ length before + 1

  -- What a round does on the messages that are left.
  pub data Outcomes (f : Feed) (before ms : List (List ℕ)) : Outcome → Type 0 where
    packed : {f' : Feed} → Packs f f' before ms → Outcomes f before ms (continues f')
    skipped : {f' : Feed} → Skips f f' before ms → Outcomes f before ms (continues f')
    gone : Outcomes f before ms (left f)

  replayed-Outcomes :
      {f : Feed} {lead : List ℕ} {before held : List (List ℕ)} {seq : ℕ} (ms : List (List ℕ))
      (round : Round)
      → Replays f capacity lead all before ms
      → Holds f.packet_builder name seq held
      → All (IsSendable host f.pacer.skip_before f.packet_builder.mtu) ms
      → f.packet_builder.mtu < 131090
      → Outcomes f before ms (start_round host scale round f)
  replayed-Outcomes {f} {before = before} [] round r h sendable mtu =
      subst (Outcomes f before []) (sym (leave_round host scale round r)) gone
  replayed-Outcomes {f} {lead} {before} (m ∷ ms) round r h sendable mtu =
      elim (Bool-cases round.stop_requested) [
        | inl stopped ↦
            subst (Outcomes f before (m ∷ ms)) (sym (stop_round host scale f round stopped)) gone
        | inr going ↦
            let (f', step, s) =
              send_round host scale round r h going sendable.0.0 sendable.0.2 mtu in
            subst (Outcomes f before (m ∷ ms)) (sym step) (
              packed (record {
                lead = lead;
                packs = s;
                some_messages =
                    fill-pos (f.packet_builder.mtu - 20) m ms (omega (arith, sendable.0.1));
              }))
      ]

  pub round-Outcomes :
      {f : Feed} {before ms held : List (List ℕ)} {seq : ℕ} (round : Round)
      → Phase f before ms
      → Holds f.packet_builder name seq held
      → All (IsSendable host f.pacer.skip_before f.packet_builder.mtu) ms
      → f.packet_builder.mtu < 131090
      → Outcomes f before ms (start_round host scale round f)
  round-Outcomes {ms = ms} round (replays lead r) h sendable mtu =
      replayed-Outcomes ms round r h sendable mtu
  round-Outcomes {ms = ms} round (skips lead [] r early) h sendable mtu =
      replayed-Outcomes ms round r h sendable mtu
  round-Outcomes {f} {ms = ms} round (skips lead (m ∷ rest) r early) h sendable mtu =
      elim (Bool-cases round.stop_requested) [
        | inl stopped ↦ subst (Outcomes f [] ms) (sym (stop_round host scale f round stopped)) gone
        | inr going ↦
            subst (Outcomes f [] ms)
              (sym (start_round-skips r host scale round going early.0.0 early.0.1))
              (skipped (record {
                phase = skips (lead ++ frame m) rest (skipped-Replays r) early.1;
                same_builder = refl;
                same_pacer = refl;
                same_number = refl;
                same_sent = refl;
              }))
      ]

  -- A packet that was stored carries the number behind its messages.
  pub stores-number :
      {f f' : Feed} {before ms : List (List ℕ)}
      → Packs f f' before ms
      → f'.sent_sequence_number ≡ length before + length (fill (f.packet_builder.mtu - 20) ms) + 1
  stores-number {f} {before = before} {ms = ms} p = omega (
    arith,
    p.packs.stored,
    p.packs.replays.next,
    length-append before (fill (f.packet_builder.mtu - 20) ms),
  )

  pub Phase-length :
      {f : Feed} {before ms : List (List ℕ)}
      → Phase f before ms
      → length before + length ms ≡ length all
  Phase-length (skips lead early r skippable) = omega arith
  Phase-length {before = before} {ms = ms} (replays lead r) =
      omega (arith, ap length r.split, length-append before ms)
