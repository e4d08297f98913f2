-- ===== src/Server/Unwinding.antt =====
-- The constructor of the pool when a thread cannot be created.
use nasdaq_moldudp64_feed_si.Prelude.{
  ℕ, suc, ◌≤◌, ◌<◌, ◌≡◌, ◌≢◌, refl, sym, ap, ◌∙◌, List, [], ◌∷◌, length, length-set, All, arith,
}
use nasdaq_moldudp64_feed_si.Prelude.Counting.{owned}
use nasdaq_moldudp64_feed_si.Retransmission.FeedPool.{FeedThread, returned}
use nasdaq_moldudp64_feed_si.Server.{
  creating, unwinding, DownstreamThread, Server, construct, move_feed, Step, creates,
  fails_to_create, unwinds, constructed, starts, waits, waited, stops, interrupts, destroys, joins,
  stops_feeds, joins_feeds, replays, completes, finishes, feeds, Steps, stop_here, go,
}
use nasdaq_moldudp64_feed_si.Server.Invariant.{thread_ends, Inv, phase_at}
use nasdaq_moldudp64_feed_si.Server.Reached.{Step-Inv, reached-Inv}

-- At least one thread of the pool was created.
abbrev pub IsStuck : ℕ → Server → Type 0
IsStuck num s = Inv num s × (s.owner ≡ unwinding) × (1 ≤ length s.retransmission_feeds.feeds)

none_left-ended :
    (ts : List FeedThread)
    → All (λ t. t ≡ returned) ts
    → 1 ≤ length ts
    → owned thread_ends tt ts ≢ 0
none_left-ended [] all h z = omega (arith, h)
none_left-ended (t ∷ ts) all h z = omega (arith, z, ap (thread_ends tt) all.0)

distinct : {A : Type 0} {d a b : DownstreamThread} → d ≡ a → d ≡ b → (a ≡ b → ⊥) → A
distinct p q f = absurd (f (sym p ∙ q))

Step-unwinding :
    {num : ℕ} {s t : Server}
    → Step s t
    → IsStuck num s
    → (t.owner ≡ unwinding) × (1 ≤ length t.retransmission_feeds.feeds)
unfolding move_feed
Step-unwinding (creates n e) (inv, o, h) = cc
Step-unwinding (fails_to_create n e) (inv, o, h) = cc
Step-unwinding {s} (unwinds e all) (inv, o, h) =
    absurd (none_left-ended s.retransmission_feeds.feeds all h (inv.in_order (phase_at inv o).1))
Step-unwinding (constructed e) (inv, o, h) = cc
Step-unwinding (starts e d) (inv, o, h) = cc
Step-unwinding (waits e) (inv, o, h) = cc
Step-unwinding (waited e d) (inv, o, h) = cc
Step-unwinding (stops e) (inv, o, h) = cc
Step-unwinding (interrupts e) (inv, o, h) = cc
Step-unwinding (destroys e) (inv, o, h) = cc
Step-unwinding (joins e d) (inv, o, h) = cc
Step-unwinding (stops_feeds e) (inv, o, h) = cc
Step-unwinding (joins_feeds e all) (inv, o, h) = cc
Step-unwinding {s} (replays d asked) (inv, o, h) = distinct (phase_at inv o).0 d (λ e. cc)
Step-unwinding {s} (completes d) (inv, o, h) = distinct (phase_at inv o).0 d (λ e. cc)
Step-unwinding {s} (finishes d) (inv, o, h) = distinct (phase_at inv o).0 d (λ e. cc)
Step-unwinding {s} (feeds i {t} {t'} at step) (inv, o, h) =
    (o, omega (arith, h, length-set s.retransmission_feeds.feeds i t'))

Steps-unwinding : (num : ℕ) {s t : Server} → Steps s t → IsStuck num s → IsStuck num t
Steps-unwinding num stop_here h = h
Steps-unwinding num (go steps step) h =
    let k = Steps-unwinding num steps h in
    let (o, at_least) = Step-unwinding step k in (Step-Inv num step k.0, o, at_least)

-- Once a thread of the pool was created, a failure to create the next one never gets out of the
-- constructor: nobody writes the event descriptor, the created feeds serve on, and the owner waits for
-- them after any number of steps.
pub create_feed-hangs :
    (num n : ℕ) {s t : Server}
    → Steps (construct num) s
    → s.owner ≡ creating (suc n)
    → suc n < num
    → Steps (record s { owner = unwinding }) t
    → t.owner ≡ unwinding
create_feed-hangs num n {s} steps e lt after =
    let inv = reached-Inv num steps in
    let p = phase_at inv e in
    (Steps-unwinding num after
      (Step-Inv num (fails_to_create n e) inv, refl, omega (arith, p.2, lt))).1
