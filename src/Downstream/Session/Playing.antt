-- ===== src/Downstream/Session/Playing.antt =====
-- The player of a session on a well-formed file.
use mathlib.Core.Path.{subst₂}
use nasdaq_moldudp64_feed_si.Prelude.{
  ℕ, some, ap, ◌+◌, ◌-◌, ◌≤◌, ◌<◌, ◌≡◌, sym, ◌∙◌, subst, List, ◌++◌, map, length, length-append,
  inl, inr, refl, All, All-back, arith,
}
use nasdaq_moldudp64_feed_si.Prelude.Int.{ℤ}
use nasdaq_moldudp64_feed_si.BinaryIo.{Endian}
use nasdaq_moldudp64_feed_si.Io.Frames.{frame}
use nasdaq_moldudp64_feed_si.PacketBuilder.Contents.{Holds}
use nasdaq_moldudp64_feed_si.Downstream.Feed.{Feed, continues, left}
use nasdaq_moldudp64_feed_si.Downstream.Feed.Packing.{fill, left_over}
use nasdaq_moldudp64_feed_si.Downstream.Feed.Replay.{
  packet_of, Received, Received-snoc, fill-left_over,
}
use nasdaq_moldudp64_feed_si.Downstream.Feed.Replay.Rounds.{IsSendable}
use nasdaq_moldudp64_feed_si.Downstream.Heartbeat.{Heartbeat}
use nasdaq_moldudp64_feed_si.Downstream.Session.{
  Player, sending, stopping, Beater, Session, Step, stores, sends, leaves, joins, loads, beats,
}
use nasdaq_moldudp64_feed_si.Downstream.Session.Phases.{
  Phase, replays, Packs, AtPlayer, Outcomes, packed, skipped, gone, round-Outcomes, stores-number,
}

module _ (host : Endian) (scale : ℤ → ℤ) (capacity : ℕ) (all : List (List ℕ)) (name : List ℕ) where
  pub record Plays (s : Session) : Type 0 where
    pub before : List (List ℕ)
    pub ms : List (List ℕ)
    pub held : List (List ℕ)
    pub seq : ℕ
    pub phase : Phase host scale capacity all name s.feed before ms
    pub holds : Holds s.feed.packet_builder name seq held
    pub sendable : All (IsSendable host s.feed.pacer.skip_before s.feed.packet_builder.mtu) ms
    pub mtu : s.feed.packet_builder.mtu < 131090
    -- What was sent carries the messages `before`.
    pub received : Received name 1 s.feed.sent before
    pub number : s.feed.sent_sequence_number ≡ length before + 1
    pub position :
        AtPlayer host scale capacity all name s.player s.feed before ms s.sent_sequence_number

  position_at :
      {s : Session} (p : Plays s) {at : Player}
      → s.player ≡ at
      → AtPlayer host scale capacity all name at s.feed p.before p.ms s.sent_sequence_number
  position_at {s} p e =
      subst
        (λ at. AtPlayer host scale capacity all name at s.feed p.before p.ms s.sent_sequence_number)
        e p.position

  stores-AtPlayer :
      {f f' : Feed} {before ms : List (List ℕ)}
      → Outcomes host scale capacity all name f before ms (continues f')
      → f.sent_sequence_number ≡ length before + 1
      → AtPlayer host scale capacity all name (sending f') f before ms f'.sent_sequence_number
  stores-AtPlayer (packed p) number = inl (p, stores-number host scale capacity all name p)
  stores-AtPlayer (skipped q) number = inr (q, q.same_number ∙ number)

  left-same :
      {f f' : Feed} {before ms : List (List ℕ)}
      → Outcomes host scale capacity all name f before ms (left f')
      → f' ≡ f
  left-same gone = refl

  -- The messages that a packet leaves can be sent as before.
  left_over-IsSendable :
      {f f' : Feed} {before : List (List ℕ)} (ms : List (List ℕ))
      → Packs host scale capacity all name f f' before ms
      → All (IsSendable host f.pacer.skip_before f.packet_builder.mtu) ms
      → All
          (IsSendable host f'.pacer.skip_before f'.packet_builder.mtu)
          (left_over (f.packet_builder.mtu - 20) ms)
  left_over-IsSendable {f} {f'} {before} ms p sendable =
      let room = f.packet_builder.mtu - 20 in
      subst₂ (λ skip mtu'. All (IsSendable host skip mtu') (left_over room ms))
        (sym p.packs.same_skip) (sym p.packs.same_mtu)
        (All-back (IsSendable host f.pacer.skip_before f.packet_builder.mtu) (fill room ms)
          (left_over room ms)
          (subst (All (IsSendable host f.pacer.skip_before f.packet_builder.mtu))
            (sym (fill-left_over room ms)) sendable))

  -- Nothing but the player, the shared number and the heartbeat changes.
  stays-Plays :
      {s : Session} {shared : ℕ} {heartbeat : Heartbeat} {player : Player} {beater : Beater}
      (p : Plays s)
      → AtPlayer host scale capacity all name player s.feed p.before p.ms shared
      → Plays (record s {
        sent_sequence_number = shared;
        heartbeat = heartbeat;
        player = player;
        beater = beater;
      })
  stays-Plays p position = record {
    before = p.before;
    ms = p.ms;
    held = p.held;
    seq = p.seq;
    phase = p.phase;
    holds = p.holds;
    sendable = p.sendable;
    mtu = p.mtu;
    received = p.received;
    number = p.number;
    position = position;
  }

  pub Step-Plays : {s t : Session} → Step host scale s t → Plays s → Plays t
  Step-Plays {s} (stores round f e going) p = record {
    before = p.before;
    ms = p.ms;
    held = p.held;
    seq = p.seq;
    phase = p.phase;
    holds = p.holds;
    sendable = p.sendable;
    mtu = p.mtu;
    received = p.received;
    number = p.number;
    position =
        stores-AtPlayer
          (subst (Outcomes host scale capacity all name s.feed p.before p.ms) going
            (round-Outcomes host scale capacity all name round p.phase p.holds p.sendable p.mtu))
          p.number;
  }
  Step-Plays {s} (sends f e) p = elim (position_at p e) [
    | inl (q, number) ↦ record {
      before = p.before ++ fill (s.feed.packet_builder.mtu - 20) p.ms;
      ms = left_over (s.feed.packet_builder.mtu - 20) p.ms;
      held = map frame (fill (s.feed.packet_builder.mtu - 20) p.ms);
      seq = length p.before + 1;
      phase = replays q.lead q.packs.replays;
      holds = q.packs.holds;
      sendable = left_over-IsSendable p.ms q p.sendable;
      mtu = omega (arith, q.packs.same_mtu, p.mtu);
      received =
          subst (λ l. Received name 1 l (p.before ++ fill (s.feed.packet_builder.mtu - 20) p.ms))
            (sym q.packs.appended)
            (Received-snoc q.packs.datagram (fill (s.feed.packet_builder.mtu - 20) p.ms) p.received
              (q.packs.decoded
                ∙ ap (λ n. some (packet_of name n (fill (s.feed.packet_builder.mtu - 20) p.ms)))
                    (omega arith))
              q.some_messages);
      number = omega (
        arith,
        stores-number host scale capacity all name q,
        length-append p.before (fill (s.feed.packet_builder.mtu - 20) p.ms),
      );
      position =
          omega
            (arith, number, length-append p.before (fill (s.feed.packet_builder.mtu - 20) p.ms));
    }
    | inr (q, number) ↦ record {
      before = p.before;
      ms = p.ms;
      held = p.held;
      seq = p.seq;
      phase = q.phase;
      holds = subst (λ b. Holds b name p.seq p.held) (sym q.same_builder) p.holds;
      sendable =
          subst₂ (λ pacer b. All (IsSendable host pacer.skip_before b.mtu) p.ms) (sym q.same_pacer)
            (sym q.same_builder) p.sendable;
      mtu = subst (λ b. b.mtu < 131090) (sym q.same_builder) p.mtu;
      received = subst (λ l. Received name 1 l p.before) (sym q.same_sent) p.received;
      number = q.same_number ∙ p.number;
      position = number;
    }
  ]
  Step-Plays {s} (leaves round f e gone_there) p =
      subst (λ g. Plays (record s { feed = g; player = stopping }))
        (sym (
          left-same (
            subst (Outcomes host scale capacity all name s.feed p.before p.ms) gone_there (
              round-Outcomes host scale capacity all name round p.phase p.holds p.sendable p.mtu))))
        (stays-Plays p (position_at p e))
  Step-Plays {s} (joins e b) p = stays-Plays p (position_at p e)
  Step-Plays {s} (loads b) p = stays-Plays p p.position
  Step-Plays {s} (beats n b) p = stays-Plays p p.position

  -- The shared number never goes down.
  pub Step-shared :
      {s t : Session}
      → Step host scale s t
      → Plays s
      → s.sent_sequence_number ≤ t.sent_sequence_number
  Step-shared {s} (stores round f e going) p =
      elim (stores-AtPlayer
        (subst (Outcomes host scale capacity all name s.feed p.before p.ms) going
          (round-Outcomes host scale capacity all name round p.phase p.holds p.sendable p.mtu))
        p.number) [
          | inl (q, number) ↦ omega (arith, position_at p e, number)
          | inr (q, number) ↦ omega (arith, position_at p e, number)
        ]
  Step-shared (sends f e) p = omega arith
  Step-shared (leaves round f e gone_there) p = omega arith
  Step-shared (joins e b) p = omega arith
  Step-shared (loads b) p = omega arith
  Step-shared (beats n b) p = omega arith
