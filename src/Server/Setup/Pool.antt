-- ===== src/Server/Setup/Pool.antt =====
-- The loop of the pool's constructor, as steps of a server.
use nasdaq_moldudp64_feed_si.Prelude.{
  ℕ, zero, suc, ◌≤◌, ◌<◌, ◌≡◌, refl, List, [], ◌∷◌, length, Option, none, some, arith,
}
use nasdaq_moldudp64_feed_si.Retransmission.FeedPool.{FeedThread}
use nasdaq_moldudp64_feed_si.Server.{
  Server, creating, unwinding, owning, construct, create_feed, creates, Steps, go,
}
use nasdaq_moldudp64_feed_si.Server.Invariant.{phase_at}
use nasdaq_moldudp64_feed_si.Server.Reached.{reached-Inv}
use nasdaq_moldudp64_feed_si.Server.Unwinding.{create_feed-hangs}
use nasdaq_moldudp64_feed_si.Downstream.Setup
use nasdaq_moldudp64_feed_si.System.{State}
use nasdaq_moldudp64_feed_si.System.Guard.{Keeps}
use nasdaq_moldudp64_feed_si.System.Compose.{Returns}
use nasdaq_moldudp64_feed_si.Server.Setup.{
  Members, Construction, complete, stuck, Spawn, create_feeds, join_feeds, behind_loop,
}

-- A thread of the pool behind the first could not be created, and the owner waits for the others, whatever
-- the threads do.
pub record IsStuck (spawn : Spawn) (num : ℕ) (threads : Server) : Type 0 where
  pub some_created : 1 ≤ length threads.retransmission_feeds.feeds
  pub some_missing : length threads.retransmission_feeds.feeds < num
  pub errno : ℕ
  pub fails : spawn (length threads.retransmission_feeds.feeds) ≡ some errno
  pub stays : (t : Server) → Steps threads t → t.owner ≡ unwinding

-- A server whose constructor has returned has all its feeds; one that has not is stuck.
abbrev pub Created : Spawn → ℕ → Construction → Type 0
Created spawn num (complete members) =
    (members.threads.owner ≡ owning) × (length members.threads.retransmission_feeds.feeds ≡ num)
Created spawn num (stuck members) = IsStuck spawn num members.threads

-- How the loop ends, and whether a thread was created by then.
abbrev pub Ends : Spawn → ℕ → Option ℕ × Server → Type 0
Ends spawn num (none, s) = (s.owner ≡ owning) × (length s.retransmission_feeds.feeds ≡ num)
Ends spawn num (some errno, s) = 1 ≤ length s.retransmission_feeds.feeds → IsStuck spawn num s

pub create_feeds-Ends :
    (spawn : Spawn) (num left : ℕ) (s : Server)
    → Steps (construct num) s
    → s.owner ≡ creating left
    → Ends spawn num (create_feeds spawn left s)
unfolding create_feeds
create_feeds-Ends spawn num zero s steps e =
    let p = phase_at (reached-Inv num steps) e in (refl, omega (arith, p.2))
create_feeds-Ends spawn num (suc n) s steps e =
    let rest = create_feeds spawn n (create_feed n s) in
    elim (spawn (length s.retransmission_feeds.feeds))
        as (λ o.
          spawn (length s.retransmission_feeds.feeds) ≡ o
          → Ends spawn num (elim o [
            | none ↦ rest
            | some errno ↦ (some errno, record s { owner = unwinding })
          ])) [
            | none ↦ λ _.
                create_feeds-Ends spawn num n (create_feed n s) (go steps (creates n e))
                  (unfold create_feed in refl)
            | some errno ↦ λ failed some_feeds.
                let known = (phase_at (reached-Inv num steps) e).2 in
                record {
                  some_created = some_feeds;
                  some_missing = omega (arith, known);
                  errno = errno;
                  fails = failed;
                  stays = λ t after.
                      create_feed-hangs num n steps e (omega (arith, known, some_feeds)) after;
                }
          ]
      refl

pub behind_loop-Keeps :
    (parts : Setup.Parts) (shutdown_fd : ℕ) (p : Option ℕ × Server) (s : State)
    → Keeps s (behind_loop parts shutdown_fd p s)
unfolding behind_loop
behind_loop-Keeps parts shutdown_fd (none, threads) s = refl
behind_loop-Keeps parts shutdown_fd (some errno, threads) s =
    by_feeds threads.retransmission_feeds.feeds
  where
    members : Members
    members = record { downstream_feed = parts; shutdown_fd = shutdown_fd; threads = threads }

    by_feeds : (ts : List FeedThread) → Keeps s (join_feeds errno members ts s)
    by_feeds [] = unfold join_feeds in refl
    by_feeds (t ∷ ts) = unfold join_feeds in refl

pub behind_loop-Created :
    (spawn : Spawn) (num : ℕ) (parts : Setup.Parts) (shutdown_fd : ℕ) (p : Option ℕ × Server)
    (s : State)
    → Ends spawn num p
    → Returns (Created spawn num) (behind_loop parts shutdown_fd p s)
unfolding behind_loop
behind_loop-Created spawn num parts shutdown_fd (none, threads) s h = h
behind_loop-Created spawn num parts shutdown_fd (some errno, threads) s h =
    by_feeds threads.retransmission_feeds.feeds h
  where
    members : Members
    members = record { downstream_feed = parts; shutdown_fd = shutdown_fd; threads = threads }

    by_feeds :
        (ts : List FeedThread)
        → (1 ≤ length ts → IsStuck spawn num threads)
        → Returns (Created spawn num) (join_feeds errno members ts s)
    by_feeds [] h = unfold join_feeds in tt
    by_feeds (t ∷ ts) h = unfold join_feeds in h (omega arith)
