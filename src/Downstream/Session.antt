-- ===== src/Downstream/Session.antt =====
-- The threads of the downstream feed and of its heartbeat, interleaved, as src/mold/downstream/feed.cpp
-- and src/mold/downstream/heartbeat.cpp run them. They share the sequence number of the last packet,
-- which `send_packet` stores before it hands the packet to the kernel.
pub mod Phases
pub mod Playing
pub mod Beating
pub mod Announcing
mod Tests
use nasdaq_moldudp64_feed_si.Prelude.{ℕ, ◌≡◌}
use nasdaq_moldudp64_feed_si.Prelude.Int.{ℤ}
use nasdaq_moldudp64_feed_si.BinaryIo.{Endian}
use nasdaq_moldudp64_feed_si.Downstream.Heartbeat
use nasdaq_moldudp64_feed_si.Downstream.Heartbeat.{Heartbeat}
use nasdaq_moldudp64_feed_si.Downstream.Feed.{Feed, Round, continues, left, start_round}

-- Where `Feed::start` stands: at the test of its loop; behind the store of a round that ends with the
-- given feed; in `heartbeat_.stop`, which asks the thread to stop and joins it; behind it.
pub data Player : Type 0 where
  playing : Player
  sending : Feed → Player
  stopping joined : Player

-- Where the thread of the heartbeat stands: outside of `send`, behind its load, at its end.
pub data Beater : Type 0 where
  sleeping : Beater
  loaded : ℕ → Beater
  ended : Beater

-- `sent_sequence_number` is the shared number.
pub record Session : Type 0 where
  pub feed : Feed
  pub sent_sequence_number : ℕ
  pub heartbeat : Heartbeat
  pub player : Player
  pub beater : Beater

-- After `heartbeat_.start`.
unfoldable pub begin : Feed → Heartbeat → Session
begin feed heartbeat = record {
  feed = feed;
  sent_sequence_number = feed.sent_sequence_number;
  heartbeat = heartbeat;
  player = playing;
  beater = sleeping;
}

module _ (host : Endian) (scale : ℤ → ℤ) where
  pub data Step : Session → Session → Type 0 where
    -- A round of the loop up to the store, and its `sendmsg`. A round that skips a message stores
    -- and sends nothing: the number stays, and so does what was sent.
    stores :
        {s : Session} (round : Round) (f : Feed)
        → s.player ≡ playing
        → start_round host scale round s.feed ≡ continues f
        → Step s (record s { player = sending f; sent_sequence_number = f.sent_sequence_number })
    sends :
        {s : Session} (f : Feed)
        → s.player ≡ sending f
        → Step s (record s { feed = f; player = playing })
    leaves :
        {s : Session} (round : Round) (f : Feed)
        → s.player ≡ playing
        → start_round host scale round s.feed ≡ left f
        → Step s (record s { feed = f; player = stopping })
    joins :
        {s : Session}
        → s.player ≡ stopping
        → s.beater ≡ sleeping
        → Step s (record s { player = joined; beater = ended })
    -- The two parts of `Heartbeat::send`.
    loads :
        {s : Session}
        → s.beater ≡ sleeping
        → Step s (record s { beater = loaded s.sent_sequence_number })
    beats :
        {s : Session} (seq : ℕ)
        → s.beater ≡ loaded seq
        → Step s (record s { beater = sleeping; heartbeat = Heartbeat.send host seq s.heartbeat })

  pub data Steps : Session → Session → Type 0 where
    stop_here : {s : Session} → Steps s s
    go : {s t u : Session} → Steps s t → Step t u → Steps s u
