-- ===== src/Server/Destroying.antt =====
-- The steps of a server in its destructor: how many are left, and what they rely on.
use nasdaq_moldudp64_feed_si.Prelude.{ℕ, suc, ◌+◌, ◌≡◌, ap, subst, Bool, true, arith}
use nasdaq_moldudp64_feed_si.Prelude.Counting.{owned-set}
use nasdaq_moldudp64_feed_si.Retransmission.FeedPool
use nasdaq_moldudp64_feed_si.Retransmission.FeedPool.{
  FeedThread, constructing, serving, returned, FeedStep, constructs, shuts_down,
}
use nasdaq_moldudp64_feed_si.Server.{
  DownstreamThread, replaying, replayed, Owner, joining, stopping, joining_feeds, destroyed, Server,
  join_downstream, stop_feeds, move_feed, Step, creates, fails_to_create, unwinds, constructed,
  starts, waits, waited, stops, interrupts, destroys, joins, stops_feeds, joins_feeds, replays,
  completes, finishes, feeds,
}
use nasdaq_moldudp64_feed_si.Server.Invariant.{thread_steps, pending}
use nasdaq_moldudp64_feed_si.Server.Reached.{FeedStep-thread_steps}

-- The steps that the owner has left in the destructor.
abbrev pub owner_steps : Owner → ℕ
owner_steps joining = 3
owner_steps stopping = 2
owner_steps joining_feeds = 1
owner_steps _ = 0

abbrev pub IsDestroying : Owner → Type 0
IsDestroying joining = Unit
IsDestroying stopping = Unit
IsDestroying joining_feeds = Unit
IsDestroying destroyed = Unit
IsDestroying _ = ⊥

abbrev pub downstream_steps : DownstreamThread → ℕ
downstream_steps replaying = 2
downstream_steps replayed = 1
downstream_steps _ = 0

abbrev pub steps_left : Server → ℕ
steps_left s = owner_steps s.owner + downstream_steps s.downstream_thread + pending s

-- A step that does not rely on the replay coming to its end by itself.
abbrev pub IsForced : {s t : Server} → Step s t → Type 0
IsForced (completes e) = ⊥
IsForced _ = Unit

abbrev pub Next : Server → Type 0
Next s = (t : Server) × (step : Step s t) × IsForced step

-- The destructor asks the downstream feed to stop before it waits for it.
abbrev pub IsAsked : Owner → Bool → Type 0
IsAsked joining asked = asked ≡ true
IsAsked _ asked = Unit

-- `n` steps.
pub data Run : ℕ → Server → Server → Type 0 where
  here : {s : Server} → Run 0 s s
  further : {n : ℕ} {s t u : Server} → Run n s t → Step t u → Run (suc n) s u

never : {A : Type 0} {o o' : Owner} → o ≡ o' → IsDestroying o → (IsDestroying o' → ⊥) → A
never e d f = absurd (f (subst IsDestroying e d))

-- In the destructor each step leaves one step less.
pub Step-steps_left :
    {s t : Server}
    → Step s t
    → IsDestroying s.owner
    → IsDestroying t.owner × (steps_left s ≡ suc (steps_left t))
unfolding join_downstream stop_feeds FeedPool.stop move_feed
Step-steps_left (creates n e) d = never e d (λ x. x)
Step-steps_left (fails_to_create n e) d = never e d (λ x. x)
Step-steps_left (unwinds e all) d = never e d (λ x. x)
Step-steps_left (constructed e) d = never e d (λ x. x)
Step-steps_left (starts e n) d = never e d (λ x. x)
Step-steps_left (waits e) d = never e d (λ x. x)
Step-steps_left (waited e f) d = never e d (λ x. x)
Step-steps_left (stops e) d = never e d (λ x. x)
Step-steps_left (interrupts e) d = never e d (λ x. x)
Step-steps_left (destroys e) d = never e d (λ x. x)
Step-steps_left (joins e f) d = (tt, omega (arith, ap owner_steps e, ap downstream_steps f))
Step-steps_left (stops_feeds e) d = (tt, omega (arith, ap owner_steps e))
Step-steps_left (joins_feeds e all) d = (tt, omega (arith, ap owner_steps e))
Step-steps_left (replays f asked) d = (d, omega (arith, ap downstream_steps f))
Step-steps_left (completes f) d = (d, omega (arith, ap downstream_steps f))
Step-steps_left (finishes f) d = (d, omega (arith, ap downstream_steps f))
Step-steps_left {s} (feeds i {t} {t'} e step) d = (
  d,
  omega (
    arith,
    FeedStep-thread_steps step,
    owned-set thread_steps tt s.retransmission_feeds.feeds i t t' e,
  ),
)

pub Step-IsAsked :
    {s t : Server}
    → Step s t
    → IsDestroying s.owner
    → IsAsked s.owner s.stop_requested
    → IsAsked t.owner t.stop_requested
unfolding join_downstream stop_feeds move_feed
Step-IsAsked (creates n e) d a = never e d (λ x. x)
Step-IsAsked (fails_to_create n e) d a = never e d (λ x. x)
Step-IsAsked (unwinds e all) d a = never e d (λ x. x)
Step-IsAsked (constructed e) d a = never e d (λ x. x)
Step-IsAsked (starts e n) d a = never e d (λ x. x)
Step-IsAsked (waits e) d a = never e d (λ x. x)
Step-IsAsked (waited e f) d a = never e d (λ x. x)
Step-IsAsked (stops e) d a = never e d (λ x. x)
Step-IsAsked (interrupts e) d a = never e d (λ x. x)
Step-IsAsked (destroys e) d a = never e d (λ x. x)
Step-IsAsked (joins e f) d a = tt
Step-IsAsked (stops_feeds e) d a = tt
Step-IsAsked (joins_feeds e all) d a = tt
Step-IsAsked (replays f asked) d a = a
Step-IsAsked (completes f) d a = a
Step-IsAsked (finishes f) d a = a
Step-IsAsked (feeds i e step) d a = a
