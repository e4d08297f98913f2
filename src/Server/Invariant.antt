-- ===== src/Server/Invariant.antt =====
-- What holds of a server after any steps.
use nasdaq_moldudp64_feed_si.Prelude.{
  ℕ, ◌+◌, ◌≡◌, ◌≢◌, refl, ap, subst, true, false, List, [], ◌∷◌, length, All, arith,
}
use nasdaq_moldudp64_feed_si.Prelude.Counting.{owned}
use nasdaq_moldudp64_feed_si.Retransmission.FeedPool.{FeedThread, constructing, serving, returned}
use nasdaq_moldudp64_feed_si.Server.{
  DownstreamThread, not_started, replaying, replayed, Owner, creating, unwinding, failed, owning,
  waiting, joining, stopping, joining_feeds, destroyed, Server, joinable,
}

-- The steps that a thread of the pool has left, and those that have returned.
abbrev pub thread_steps : Unit {0} → FeedThread → ℕ
thread_steps _ constructing = 2
thread_steps _ serving = 1
thread_steps _ returned = 0

abbrev pub thread_ends : Unit {0} → FeedThread → ℕ
thread_ends _ constructing = 0
thread_ends _ serving = 0
thread_ends _ returned = 1

abbrev pub pending : Server → ℕ
pending s = owned thread_steps tt s.retransmission_feeds.feeds

abbrev pub ended : Server → ℕ
ended s = owned thread_ends tt s.retransmission_feeds.feeds

-- In `downstream_feed_.start`, or behind it and before `retransmission_feeds_.stop`.
abbrev pub IsLive : DownstreamThread → Type 0
IsLive replaying = Unit
IsLive replayed = Unit
IsLive _ = ⊥

-- What the position of the owner says. `counter` is that of the event descriptor, `left` the steps
-- that the threads of the pool have left, `threads` their number.
abbrev pub Phase : ℕ → Owner → DownstreamThread → ℕ → ℕ → ℕ → Type 0
Phase num (creating n) d counter left threads =
    (d ≡ not_started) × (counter ≡ 0) × (n + threads ≡ num)
Phase num unwinding d counter left threads = (d ≡ not_started) × (counter ≡ 0)
Phase num failed d counter left threads = (d ≡ not_started) × (counter ≡ 0) × (left ≡ 0)
Phase num owning d counter left threads = (d ≡ not_started → counter ≡ 0) × (threads ≡ num)
Phase num waiting d counter left threads = (joinable d ≡ true) × (threads ≡ num)
Phase num joining d counter left threads = (joinable d ≡ true) × (threads ≡ num)
Phase num stopping d counter left threads = (joinable d ≡ false) × (threads ≡ num)
Phase num joining_feeds d counter left threads =
    (joinable d ≡ false) × (counter ≢ 0) × (threads ≡ num)
Phase num destroyed d counter left threads = (joinable d ≡ false) × (left ≡ 0) × (threads ≡ num)

abbrev pub PhaseOf : ℕ → Owner → Server → Type 0
PhaseOf num owner s =
    Phase num owner s.downstream_thread s.retransmission_feeds.shutdown_fd (pending s)
      (length s.retransmission_feeds.feeds)

pub record Inv (num : ℕ) (s : Server) : Type 0 where
  -- A feed returns only after the counter was written.
  pub in_order : s.retransmission_feeds.shutdown_fd ≡ 0 → ended s ≡ 0
  -- Nobody writes it before the replay is over.
  pub quiet : IsLive s.downstream_thread → s.retransmission_feeds.shutdown_fd ≡ 0
  pub phase : PhaseOf num s.owner s

pub phase_at :
    {num : ℕ} {s : Server} → Inv num s → {owner : Owner} → s.owner ≡ owner → PhaseOf num owner s
phase_at {num} {s} inv e = subst (λ o. PhaseOf num o s) e inv.phase

-- All threads returned exactly if no step is left.
pub pending-returned :
    (ts : List FeedThread) → All (λ t. t ≡ returned) ts → owned thread_steps tt ts ≡ 0
pending-returned [] h = refl
pending-returned (t ∷ ts) h = omega (arith, ap (thread_steps tt) h.0, pending-returned ts h.1)
