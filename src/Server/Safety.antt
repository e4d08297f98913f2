-- ===== src/Server/Safety.antt =====
-- When the threads of a server have returned.
use nasdaq_moldudp64_feed_si.Prelude.{
  ℕ, zero, suc, ◌≡◌, ◌≢◌, refl, false, List, [], ◌∷◌, length, All, get_elem?, some, arith,
}
use nasdaq_moldudp64_feed_si.Prelude.Counting.{owned}
use nasdaq_moldudp64_feed_si.Retransmission.FeedPool.{FeedThread, constructing, serving, returned}
use nasdaq_moldudp64_feed_si.Server.{destroyed, Server, construct, joinable, Steps}
use nasdaq_moldudp64_feed_si.Server.Invariant.{thread_steps, thread_ends, IsLive, phase_at}
use nasdaq_moldudp64_feed_si.Server.Reached.{reached-Inv}

pub returned-pending :
    (ts : List FeedThread) → owned thread_steps tt ts ≡ 0 → All (λ t. t ≡ returned) ts
returned-pending [] h = tt
returned-pending (returned ∷ ts) h = (refl, returned-pending ts (omega (arith, h)))
returned-pending (constructing ∷ ts) h = absurd (omega (arith, h))
returned-pending (serving ∷ ts) h = absurd (omega (arith, h))

ended-returned :
    (ts : List FeedThread) (i : ℕ) → get_elem? ts i ≡ some returned → owned thread_ends tt ts ≢ 0
ended-returned [] i e z = cc
ended-returned (returned ∷ ts) i e z = omega (arith, z)
ended-returned (constructing ∷ ts) zero e z = cc
ended-returned (serving ∷ ts) zero e z = cc
ended-returned (constructing ∷ ts) (suc i) e z = ended-returned ts i e (omega (arith, z))
ended-returned (serving ∷ ts) (suc i) e z = ended-returned ts i e (omega (arith, z))

-- When a server is destroyed, however its threads were interleaved, the thread of the downstream feed
-- was joined or never started, every retransmission feed has returned, and there are as many of them
-- as the constructor was asked for.
pub destroyed-returned :
    (num : ℕ) {s : Server}
    → Steps (construct num) s
    → s.owner ≡ destroyed
    → (joinable s.downstream_thread ≡ false)
      × All (λ t. t ≡ returned) s.retransmission_feeds.feeds
      × (length s.retransmission_feeds.feeds ≡ num)
destroyed-returned num {s} steps e =
    let p = phase_at (reached-Inv num steps) e in
    (p.0, returned-pending s.retransmission_feeds.feeds p.1, p.2)

-- A retransmission feed returns only after the event descriptor was written; and that has not
-- happened while the thread of the downstream feed is in `downstream_feed_.start` or right behind it:
-- the retransmission feeds serve as long as the replay goes on.
pub returned-replayed :
    (num i : ℕ) {s : Server}
    → Steps (construct num) s
    → get_elem? s.retransmission_feeds.feeds i ≡ some returned
    → (s.retransmission_feeds.shutdown_fd ≢ 0) × (IsLive s.downstream_thread → ⊥)
returned-replayed num i {s} steps e = (written, λ l. written ((reached-Inv num steps).quiet l))
  where
    written : s.retransmission_feeds.shutdown_fd ≢ 0
    written z = ended-returned s.retransmission_feeds.feeds i e ((reached-Inv num steps).in_order z)
