-- ===== src/Downstream/Session/Beating.antt =====
-- The heartbeats of a session.
use nasdaq_moldudp64_feed_si.Prelude.{
  ℕ, ◌+◌, ◌-◌, ◌≤◌, ◌≡◌, refl, sym, ap, ◌∙◌, subst, List, [], ◌∷◌, ◌++◌, map, length, length-append,
  inl, inr, All, arith,
}
use nasdaq_moldudp64_feed_si.Prelude.Int.{ℤ}
use nasdaq_moldudp64_feed_si.BinaryIo.{Endian}
use nasdaq_moldudp64_feed_si.PacketBuilder.Contents.{header}
use nasdaq_moldudp64_feed_si.Downstream.Feed.{Feed}
use nasdaq_moldudp64_feed_si.Downstream.Feed.Packing.{fill, left_over}
use nasdaq_moldudp64_feed_si.Downstream.Feed.Replay.{fill-left_over}
use nasdaq_moldudp64_feed_si.Downstream.Heartbeat
use nasdaq_moldudp64_feed_si.Downstream.Heartbeat.{Heartbeat}
use nasdaq_moldudp64_feed_si.Downstream.Heartbeat.Thread.{Announces, send-Announces, sent_packet}
use nasdaq_moldudp64_feed_si.Downstream.Session.{
  Player, playing, sending, stopping, joined, Beater, sleeping, loaded, ended, Session, Step,
  stores, sends, leaves, joins, loads, beats, Steps, stop_here, go,
}
use nasdaq_moldudp64_feed_si.Downstream.Session.Phases.{AtPlayer, Phase-length}
use nasdaq_moldudp64_feed_si.Downstream.Session.Playing.{Plays, Step-Plays, Step-shared}

abbrev pub IsSorted : List ℕ → Type 0
IsSorted [] = Unit {0}
IsSorted (n ∷ ns) = All (λ k. n ≤ k) ns × IsSorted ns

All-snoc : (P : ℕ → Type 0) (ns : List ℕ) (n : ℕ) → All P ns → P n → All P (ns ++ (n ∷ []))
All-snoc P [] n all p = (p, tt)
All-snoc P (k ∷ ns) n all p = (all.0, All-snoc P ns n all.1 p)

pub All-le : {a b : ℕ} (ns : List ℕ) → a ≤ b → All (λ k. k ≤ a) ns → All (λ k. k ≤ b) ns
All-le [] h all = tt
All-le (n ∷ ns) h all = (omega (arith, all.0), All-le ns h all.1)

snoc-IsSorted :
    (ns : List ℕ) (n : ℕ) → IsSorted ns → All (λ k. k ≤ n) ns → IsSorted (ns ++ (n ∷ []))
snoc-IsSorted [] n sorted all = (tt, tt)
snoc-IsSorted (k ∷ ns) n sorted all =
    (All-snoc (λ j. k ≤ j) ns n sorted.0 all.0, snoc-IsSorted ns n sorted.1 all.1)

map-snoc :
    {A B : Type 0} (f : A → B) (xs : List A) (x : A)
    → map f (xs ++ (x ∷ [])) ≡ map f xs ++ (f x ∷ [])
map-snoc f [] x = refl
map-snoc f (y ∷ xs) x = ap (λ l. f y ∷ l) (map-snoc f xs x)

-- A number that was loaded is not below those sent, nor above the shared number.
abbrev pub IsLoaded : Beater → List ℕ → ℕ → Type 0
IsLoaded (loaded seq) ns shared = All (λ k. k ≤ seq) ns × (seq ≤ shared)
IsLoaded _ ns shared = Unit {0}

-- The heartbeats sent so far, as headers of the numbers `ns`.
pub record Beats (s : Session) (name : List ℕ) : Type 0 where
  pub announces : Announces s.heartbeat name
  pub numbers : List ℕ
  pub layout : s.heartbeat.sent ≡ map (λ seq. header name seq 0) numbers
  pub sorted : IsSorted numbers
  pub below : All (λ k. k ≤ s.sent_sequence_number) numbers
  pub pending : IsLoaded s.beater numbers s.sent_sequence_number

IsLoaded-le : (b : Beater) (ns : List ℕ) {m n : ℕ} → m ≤ n → IsLoaded b ns m → IsLoaded b ns n
IsLoaded-le sleeping ns h l = tt
IsLoaded-le ended ns h l = tt
IsLoaded-le (loaded seq) ns h (all, le) = (all, omega arith)

-- The heartbeat's thread does nothing.
rests :
    {s : Session} {name : List ℕ} (feed : Feed) (shared : ℕ) (player : Player) (beater : Beater)
    (b : Beats s name)
    → s.sent_sequence_number ≤ shared
    → IsLoaded beater b.numbers shared
    → Beats
        (record s { feed = feed; sent_sequence_number = shared; player = player; beater = beater })
        name
rests feed shared player beater b le pending = record {
  announces = b.announces;
  numbers = b.numbers;
  layout = b.layout;
  sorted = b.sorted;
  below = All-le b.numbers le b.below;
  pending = pending;
}

send-Beats :
    (host : Endian) (s : Session) (name : List ℕ) (seq : ℕ)
    → s.beater ≡ loaded seq
    → Beats s name
    → Beats (record s { beater = sleeping; heartbeat = Heartbeat.send host seq s.heartbeat }) name
unfolding Heartbeat.send
send-Beats host s name seq e b = record {
  announces = send-Announces host b.announces seq;
  numbers = b.numbers ++ (seq ∷ []);
  layout =
      ap (λ p. s.heartbeat.sent ++ (p ∷ [])) (sent_packet host b.announces seq)
      ∙ ap (λ l. l ++ (header name seq 0 ∷ [])) b.layout
      ∙ sym (map-snoc (λ n. header name n 0) b.numbers seq);
  sorted = snoc-IsSorted b.numbers seq b.sorted at.0;
  below = All-snoc (λ k. k ≤ s.sent_sequence_number) b.numbers seq b.below at.1;
  pending = tt;
}
  where
    at : IsLoaded (loaded seq) b.numbers s.sent_sequence_number
    at = subst (λ x. IsLoaded x b.numbers s.sent_sequence_number) e b.pending

module _ (host : Endian) (scale : ℤ → ℤ) (capacity : ℕ) (all : List (List ℕ)) (name : List ℕ) where
  Step-Beats :
      {s t : Session}
      → Step host scale s t
      → Plays host scale capacity all name s
      → Beats s name
      → Beats t name
  Step-Beats {s} (stores round f e going) p b =
      let le = Step-shared host scale capacity all name (stores round f e going) p in
      rests s.feed f.sent_sequence_number (sending f) s.beater b le
        (IsLoaded-le s.beater b.numbers le b.pending)
  Step-Beats {s} (sends f e) p b =
      rests f s.sent_sequence_number playing s.beater b (omega arith) b.pending
  Step-Beats {s} (leaves round f e gone) p b =
      rests f s.sent_sequence_number stopping s.beater b (omega arith) b.pending
  Step-Beats {s} (joins e q) p b =
      rests s.feed s.sent_sequence_number joined ended b (omega arith) tt
  Step-Beats {s} (loads e) p b =
      rests s.feed s.sent_sequence_number s.player (loaded s.sent_sequence_number) b (omega arith)
        (b.below, omega arith)
  Step-Beats {s} (beats seq e) p b = send-Beats host s name seq e b

  pub Steps-kept :
      {s t : Session}
      → Steps host scale s t
      → Plays host scale capacity all name s
      → Beats s name
      → Plays host scale capacity all name t × Beats t name
  Steps-kept stop_here p b = (p, b)
  Steps-kept (go steps step) p b =
      let (q, c) = Steps-kept steps p b in
      (Step-Plays host scale capacity all name step q, Step-Beats step q c)

  -- No number is beyond the one after the last message.
  pub shared-le :
      {s : Session} → Plays host scale capacity all name s → s.sent_sequence_number ≤ length all + 1
  shared-le {s} p = by_player s.player p.position
    where
      by_player :
          (at : Player)
          → AtPlayer host scale capacity all name at s.feed p.before p.ms s.sent_sequence_number
          → s.sent_sequence_number ≤ length all + 1
      by_player (sending f) (inl (q, number)) = omega (
        arith,
        number,
        Phase-length host scale capacity all name p.phase,
        ap length (fill-left_over (s.feed.packet_builder.mtu - 20) p.ms),
        length-append (fill (s.feed.packet_builder.mtu - 20) p.ms)
            (left_over (s.feed.packet_builder.mtu - 20) p.ms),
      )
      by_player (sending f) (inr (q, number)) =
          omega (arith, number, Phase-length host scale capacity all name p.phase)
      by_player playing number =
          omega (arith, number, Phase-length host scale capacity all name p.phase)
      by_player stopping number =
          omega (arith, number, Phase-length host scale capacity all name p.phase)
      by_player joined number =
          omega (arith, number, Phase-length host scale capacity all name p.phase)
