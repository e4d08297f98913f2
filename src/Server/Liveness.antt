-- ===== src/Server/Liveness.antt =====
-- The destructor ends.
use nasdaq_moldudp64_feed_si.Prelude.{
  ℕ, zero, suc, ◌+◌, ◌*◌, ◌≤◌, ◌≡◌, ◌≢◌, refl, true, false, List, [], ◌∷◌, length, get_elem?, some,
  ◌⊎◌, inl, inr, arith, if◌then◌else◌,
}
use nasdaq_moldudp64_feed_si.Prelude.Counting.{owned}
use nasdaq_moldudp64_feed_si.Retransmission.FeedPool.{
  FeedThread, constructing, serving, returned, FeedStep, constructs, shuts_down,
}
use nasdaq_moldudp64_feed_si.Server.{
  DownstreamThread, not_started, replaying, replayed, finished, joined, Owner, creating, unwinding,
  failed, owning, waiting, joining, stopping, joining_feeds, destroyed, Server, construct, joinable,
  request_stop, destroy, Step, destroys, joins, stops_feeds, joins_feeds, replays, finishes, feeds,
  Steps,
}
use nasdaq_moldudp64_feed_si.Server.Invariant.{thread_steps, pending, Phase, Inv, phase_at}
use nasdaq_moldudp64_feed_si.Server.Reached.{Step-Inv, reached-Inv}
use nasdaq_moldudp64_feed_si.Server.Safety.{returned-pending}
use nasdaq_moldudp64_feed_si.Server.Destroying.{
  owner_steps, IsDestroying, downstream_steps, steps_left, IsForced, Next, IsAsked, Run, here,
  further, Step-steps_left, Step-IsAsked,
}

-- Where a thread of the pool has a step left, one can be taken once the counter was written.
FeedStep-next :
    (c : ℕ) (ts : List FeedThread)
    → c ≢ 0
    → owned thread_steps tt ts ≢ 0
    → (i : ℕ) × (t : FeedThread) × (t' : FeedThread) × (get_elem? ts i ≡ some t) × FeedStep c t t'
FeedStep-next c [] w h = absurd (h refl)
FeedStep-next c (constructing ∷ ts) w h = (0, constructing, serving, refl, constructs)
FeedStep-next c (serving ∷ ts) w h = (0, serving, returned, refl, shuts_down w)
FeedStep-next c (returned ∷ ts) w h =
    let (i, t, t', e, step) = FeedStep-next c ts w (λ z. h (omega (arith, z))) in
    (suc i, t, t', e, step)

-- The destructor is never stuck.
downstream-Next :
    (s : Server) (d : DownstreamThread)
    → s.owner ≡ joining
    → s.downstream_thread ≡ d
    → joinable d ≡ true
    → s.stop_requested ≡ true
    → Next s
unfolding joinable
downstream-Next s replaying o e j asked = (_, replays e asked, tt)
downstream-Next s replayed o e j asked = (_, finishes e, tt)
downstream-Next s finished o e j asked = (_, joins o e, tt)
downstream-Next s not_started o e j asked = cc
downstream-Next s joined o e j asked = cc

feeds-Next :
    (s : Server)
    → s.owner ≡ joining_feeds
    → s.retransmission_feeds.shutdown_fd ≢ 0
    → (left : ℕ) → pending s ≡ left
    → Next s
feeds-Next s o w zero e = (_, joins_feeds o (returned-pending s.retransmission_feeds.feeds e), tt)
feeds-Next s o w (suc n) e =
    let (i, t, t', at, step) =
      FeedStep-next s.retransmission_feeds.shutdown_fd s.retransmission_feeds.feeds w
        (λ z. omega (arith, z, e)) in
    (_, feeds i at step, tt)

progress :
    (num : ℕ) (s : Server) (o : Owner)
    → s.owner ≡ o
    → Inv num s
    → IsDestroying o
    → IsAsked o s.stop_requested
    → (o ≡ destroyed) ⊎ Next s
progress num s joining e inv d a =
    inr (downstream-Next s s.downstream_thread e refl (phase_at inv e).0 a)
progress num s stopping e inv d a = inr (_, stops_feeds e, tt)
progress num s joining_feeds e inv d a = inr (feeds-Next s e (phase_at inv e).1 (pending s) refl)
progress num s destroyed e inv d a = inl refl
progress num s (creating n) e inv d a = absurd d
progress num s unwinding e inv d a = absurd d
progress num s failed e inv d a = absurd d
progress num s owning e inv d a = absurd d
progress num s waiting e inv d a = absurd d

Run-kept :
    (num : ℕ) {n : ℕ} {s t : Server}
    → Run n s t
    → Inv num s × IsDestroying s.owner × IsAsked s.owner s.stop_requested
    → Inv num t
      × IsDestroying t.owner
      × IsAsked t.owner t.stop_requested
      × (steps_left s ≡ n + steps_left t)
Run-kept num here (inv, d, a) = (inv, d, a, omega arith)
Run-kept num (further run step) h =
    let (inv, d, a, e) = Run-kept num run h in
    let (d', e') = Step-steps_left step d in
    (Step-Inv num step inv, d', Step-IsAsked step d a, omega (arith, e, e'))

pending-le : (ts : List FeedThread) → owned thread_steps tt ts ≤ 2 * length ts
pending-le [] = omega arith
pending-le (constructing ∷ ts) = omega (arith, pending-le ts)
pending-le (serving ∷ ts) = omega (arith, pending-le ts)
pending-le (returned ∷ ts) = omega (arith, pending-le ts)

downstream_steps-le : (d : DownstreamThread) → downstream_steps d ≤ 2
downstream_steps-le replaying = omega arith
downstream_steps-le replayed = omega arith
downstream_steps-le not_started = omega arith
downstream_steps-le finished = omega arith
downstream_steps-le joined = omega arith

owner_steps-le :
    (num : ℕ) (o : Owner) (d : DownstreamThread) (c left threads : ℕ)
    → IsDestroying o
    → Phase num o d c left threads
    → (owner_steps o ≤ 3) × (threads ≡ num)
owner_steps-le num joining d c left threads h p = (omega arith, p.1)
owner_steps-le num stopping d c left threads h p = (omega arith, p.1)
owner_steps-le num joining_feeds d c left threads h p = (omega arith, p.2)
owner_steps-le num destroyed d c left threads h p = (omega arith, p.2)
owner_steps-le num (creating n) d c left threads h p = absurd h
owner_steps-le num unwinding d c left threads h p = absurd h
owner_steps-le num failed d c left threads h p = absurd h
owner_steps-le num owning d c left threads h p = absurd h
owner_steps-le num waiting d c left threads h p = absurd h

steps_left-le :
    (num : ℕ) (s : Server) → Inv num s → IsDestroying s.owner → steps_left s ≤ 5 + 2 * num
steps_left-le num s inv d = omega (
  arith,
  downstream_steps-le s.downstream_thread,
  pending-le s.retransmission_feeds.feeds,
  owner_steps-le num s.owner _ _ _ _ d inv.phase,
)

destroy-IsDestroying : (s : Server) → IsDestroying (destroy s).owner
unfolding destroy
destroy-IsDestroying s =
    elim (joinable s.downstream_thread) as (λ j. IsDestroying (if j then joining else stopping)) [
      | true ↦ tt
      | false ↦ tt
    ]

-- A server whose downstream thread can be joined is asked to stop.
destroy-IsAsked : (s : Server) → IsAsked (destroy s).owner (destroy s).stop_requested
unfolding destroy joinable request_stop
destroy-IsAsked s = asked_by s.downstream_thread
  where
    asked_by :
        (d : DownstreamThread)
        → IsAsked (if joinable d then joining else stopping) (request_stop d s).stop_requested
    asked_by not_started = tt
    asked_by replaying = refl
    asked_by replayed = refl
    asked_by finished = refl
    asked_by joined = tt

-- A client that owns a server, started or not, calls the destructor. However the threads are
-- interleaved from there, they take no more than 5 + 2 * num_feeds steps, and unless the server is
-- destroyed there is a next step other than the replay coming to its end by itself, which it need never
-- do: every run that goes on ends with the server destroyed.
pub destroy-ends :
    (num n : ℕ) {s t : Server}
    → Steps (construct num) s
    → s.owner ≡ owning
    → Run n (destroy s) t
    → (n ≤ 5 + 2 * num)
      × ((t.owner ≡ destroyed) ⊎ ((u : Server) × (step : Step t u) × IsForced step))
destroy-ends num n {s} {t} steps e run =
    let begun = Step-Inv num (destroys e) (reached-Inv num steps) in
    let (inv, d, a, left) = Run-kept num run (begun, destroy-IsDestroying s, destroy-IsAsked s) in
    (
      omega (arith, left, steps_left-le num (destroy s) begun (destroy-IsDestroying s)),
      progress num t t.owner refl inv d a,
    )
