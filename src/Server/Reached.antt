-- ===== src/Server/Reached.antt =====
-- Every step of a server keeps the invariant.
use nasdaq_moldudp64_feed_si.Prelude.{
  ℕ, suc, ◌+◌, ◌≡◌, ◌≢◌, refl, sym, ap, ◌∙◌, subst, Bool, true, false, List, [], ◌∷◌, length-append,
  length-set, get_elem?, some, if◌then◌else◌, arith,
}
use nasdaq_moldudp64_feed_si.Prelude.Counting.{owned-append, owned-set}
use nasdaq_moldudp64_feed_si.Retransmission.FeedPool
use nasdaq_moldudp64_feed_si.Retransmission.FeedPool.{
  FeedThread, constructing, serving, returned, FeedPool, FeedStep, constructs, shuts_down,
}
use nasdaq_moldudp64_feed_si.Server.{
  DownstreamThread, not_started, replaying, replayed, finished, joined, Owner, creating, unwinding,
  failed, owning, waiting, joining, stopping, joining_feeds, destroyed, Server, construct,
  create_feed, start, joinable, request_stop, wait_for_downstream, stop, destroy, join_downstream,
  stop_feeds, move_feed, Step, creates, fails_to_create, unwinds, constructed, starts, waits,
  waited, stops, interrupts, destroys, joins, stops_feeds, joins_feeds, replays, completes,
  finishes, feeds, Steps, stop_here, go,
}
use nasdaq_moldudp64_feed_si.Server.Invariant.{
  thread_steps, thread_ends, IsLive, Phase, PhaseOf, Inv, phase_at, pending-returned,
}

not_joinable : {d : DownstreamThread} → d ≡ not_started → joinable d ≡ false
unfolding joinable
not_joinable e = ap joinable e

not_live : (d : DownstreamThread) → joinable d ≡ false → IsLive d → ⊥
unfolding joinable
not_live not_started e l = l
not_live replaying e l = cc
not_live replayed e l = cc
not_live finished e l = l
not_live joined e l = l

contradiction : {A : Type 0} {b : Bool} → b ≡ true → b ≡ false → A
contradiction t f = cc

-- The thread of the downstream feed moves on.
downstream-Phase :
    (num : ℕ) (o : Owner) (d d' : DownstreamThread) (c c' left threads : ℕ)
    → joinable d ≡ true
    → joinable d' ≡ true
    → Phase num o d c left threads
    → Phase num o d' c' left threads
downstream-Phase num (creating n) d d' c c' left threads j j' p = contradiction j (not_joinable p.0)
downstream-Phase num unwinding d d' c c' left threads j j' p = contradiction j (not_joinable p.0)
downstream-Phase num failed d d' c c' left threads j j' p = contradiction j (not_joinable p.0)
downstream-Phase num owning d d' c c' left threads j j' p =
    (λ e. contradiction j' (not_joinable e), p.1)
downstream-Phase num waiting d d' c c' left threads j j' p = (j', p.1)
downstream-Phase num joining d d' c c' left threads j j' p = (j', p.1)
downstream-Phase num stopping d d' c c' left threads j j' p = contradiction j p.0
downstream-Phase num joining_feeds d d' c c' left threads j j' p = contradiction j p.0
downstream-Phase num destroyed d d' c c' left threads j j' p = contradiction j p.0

-- A thread of the pool moves on.
feeds-Phase :
    (num : ℕ) (o : Owner) (d : DownstreamThread) (c left left' threads threads' : ℕ)
    → (left ≡ 0 → left' ≡ 0)
    → threads' ≡ threads
    → Phase num o d c left threads
    → Phase num o d c left' threads'
feeds-Phase num (creating n) d c left left' threads threads' l e p =
    (p.0, p.1, ap (λ t. n + t) e ∙ p.2)
feeds-Phase num unwinding d c left left' threads threads' l e p = p
feeds-Phase num failed d c left left' threads threads' l e p = (p.0, p.1, l p.2)
feeds-Phase num owning d c left left' threads threads' l e p = (p.0, e ∙ p.1)
feeds-Phase num waiting d c left left' threads threads' l e p = (p.0, e ∙ p.1)
feeds-Phase num joining d c left left' threads threads' l e p = (p.0, e ∙ p.1)
feeds-Phase num stopping d c left left' threads threads' l e p = (p.0, e ∙ p.1)
feeds-Phase num joining_feeds d c left left' threads threads' l e p = (p.0, p.1, e ∙ p.2)
feeds-Phase num destroyed d c left left' threads threads' l e p = (p.0, l p.1, e ∙ p.2)

-- Stopping changes nothing that the invariant reads.
requested :
    (d : DownstreamThread) (s : Server)
    → (b : Bool) × (request_stop d s ≡ record s { stop_requested = b })
unfolding request_stop
requested not_started s = (s.stop_requested, refl)
requested replaying s = (true, refl)
requested replayed s = (true, refl)
requested finished s = (true, refl)
requested joined s = (true, refl)

stop-Inv : (num : ℕ) (s : Server) → Inv num s → Inv num (stop s)
unfolding stop
stop-Inv num s inv =
    let (b, e) = requested s.downstream_thread s in
    subst (Inv num) (sym e)
      (record { in_order = inv.in_order; quiet = inv.quiet; phase = inv.phase })

-- The owner goes on by itself.
owner-Inv :
    {num : ℕ} {s : Server} (o : Owner)
    → Inv num s
    → PhaseOf num o s
    → Inv num (record s { owner = o })
owner-Inv o inv p = record { in_order = inv.in_order; quiet = inv.quiet; phase = p }

creates-Inv :
    (num n : ℕ) (s : Server) → s.owner ≡ creating (suc n) → Inv num s → Inv num (create_feed n s)
unfolding create_feed FeedPool.emplace_feed
creates-Inv num n s e inv = record {
  in_order = λ z. omega (arith, inv.in_order z, owned-append thread_ends tt fs constructing);
  quiet = inv.quiet;
  phase =
      let p = phase_at inv e in
      (p.0, p.1, omega (arith, p.2, length-append fs (constructing ∷ [])));
}
  where
    fs : List FeedThread
    fs = s.retransmission_feeds.feeds

wait_for_downstream-Inv :
    (num : ℕ) (s : Server) → s.owner ≡ owning → Inv num s → Inv num (wait_for_downstream s)
unfolding wait_for_downstream
wait_for_downstream-Inv num s e inv = by_test (joinable s.downstream_thread) refl
  where
    by_test :
        (b : Bool)
        → joinable s.downstream_thread ≡ b
        → Inv num (record s { owner = if b then waiting else owning })
    by_test true j = owner-Inv waiting inv (j, (phase_at inv e).1)
    by_test false j = owner-Inv owning inv (phase_at inv e)

destroy-Inv : (num : ℕ) (s : Server) → s.owner ≡ owning → Inv num s → Inv num (destroy s)
unfolding destroy
destroy-Inv num s e inv =
    let (b, eq) = requested s.downstream_thread s in
    subst
      (λ (t : Server).
        Inv num (record t { owner = if joinable s.downstream_thread then joining else stopping }))
      (sym eq) (by_test b (joinable s.downstream_thread) refl)
  where
    by_test :
        (b j : Bool)
        → joinable s.downstream_thread ≡ j
        → Inv num (record s { stop_requested = b; owner = if j then joining else stopping })
    by_test b true j = record {
      in_order = inv.in_order;
      quiet = inv.quiet;
      phase = (j, (phase_at inv e).1);
    }
    by_test b false j = record {
      in_order = inv.in_order;
      quiet = inv.quiet;
      phase = (j, (phase_at inv e).1);
    }

join_downstream-Inv :
    (num : ℕ) (s : Server) (next : Owner)
    → PhaseOf num next (record s { downstream_thread = joined })
    → Inv num s
    → Inv num (join_downstream next s)
unfolding join_downstream
join_downstream-Inv num s next p inv = record {
  in_order = inv.in_order;
  quiet = λ l. absurd l;
  phase = p;
}

pub FeedStep-thread_steps :
    {c : ℕ} {t t' : FeedThread} → FeedStep c t t' → thread_steps tt t ≡ suc (thread_steps tt t')
FeedStep-thread_steps constructs = refl
FeedStep-thread_steps (shuts_down h) = refl

move_feed-Inv :
    (num i : ℕ) (s : Server) (t t' : FeedThread)
    → get_elem? s.retransmission_feeds.feeds i ≡ some t
    → FeedStep s.retransmission_feeds.shutdown_fd t t'
    → Inv num s
    → Inv num (move_feed i t' s)
unfolding move_feed
move_feed-Inv num i s t t' e step inv = record {
  in_order =
      λ z. omega (arith, inv.in_order z, no_end step z, owned-set thread_ends tt fs i t t' e);
  quiet = inv.quiet;
  phase =
      feeds-Phase num s.owner _ _ _ _ _ _
        (λ z. omega (arith, FeedStep-thread_steps step, owned-set thread_steps tt fs i t t' e))
        (length-set fs i t') inv.phase;
}
  where
    fs : List FeedThread
    fs = s.retransmission_feeds.feeds

    no_end :
        {t t' : FeedThread}
        → FeedStep s.retransmission_feeds.shutdown_fd t t'
        → s.retransmission_feeds.shutdown_fd ≡ 0
        → thread_ends tt t' ≡ thread_ends tt t
    no_end constructs z = refl
    no_end (shuts_down h) z = absurd (h z)

start-Inv :
    (num : ℕ) (s : Server)
    → s.owner ≡ owning
    → s.downstream_thread ≡ not_started
    → Inv num s
    → Inv num (start s)
unfolding start
start-Inv num s e d inv = record {
  in_order = inv.in_order;
  quiet = λ l. p.0 d;
  phase = subst (λ o. PhaseOf num o (start s)) (sym e) ((λ j. cc), p.1);
}
  where
    p : PhaseOf num owning s
    p = phase_at inv e

written : (s : Server) → (stop_feeds s).retransmission_feeds.shutdown_fd ≢ 0
unfolding stop_feeds FeedPool.stop
written s z = omega arith

stop_feeds-Inv :
    (num : ℕ) (s : Server)
    → s.owner ≡ stopping
    → Inv num s
    → Inv num (record (stop_feeds s) { owner = joining_feeds })
unfolding stop_feeds FeedPool.stop
stop_feeds-Inv num s e inv = record {
  in_order = λ z. absurd (written s z);
  quiet = λ l. absurd (not_live s.downstream_thread p.0 l);
  phase = (p.0, written s, p.1);
}
  where
    p : PhaseOf num stopping s
    p = phase_at inv e

-- `downstream_feed_.start` has returned.
replayed-Inv :
    (num : ℕ) (s : Server)
    → s.downstream_thread ≡ replaying
    → Inv num s
    → Inv num (record s { downstream_thread = replayed })
unfolding joinable
replayed-Inv num s d inv = record {
  in_order = inv.in_order;
  quiet = λ l. inv.quiet (subst IsLive (sym d) tt);
  phase = downstream-Phase num s.owner _ _ _ _ _ _ (ap joinable d) refl inv.phase;
}

pub Step-Inv : (num : ℕ) {s t : Server} → Step s t → Inv num s → Inv num t
unfolding stop_feeds FeedPool.stop joinable
Step-Inv num {s} (creates n e) inv = creates-Inv num n s e inv
Step-Inv num (fails_to_create n e) inv =
    let p = phase_at inv e in owner-Inv unwinding inv (p.0, p.1)
Step-Inv num {s} (unwinds e all) inv =
    let p = phase_at inv e in
    owner-Inv failed inv (p.0, p.1, pending-returned s.retransmission_feeds.feeds all)
Step-Inv num (constructed e) inv =
    let p = phase_at inv e in owner-Inv owning inv ((λ _. p.1), omega (arith, p.2))
Step-Inv num {s} (starts e d) inv = start-Inv num s e d inv
Step-Inv num {s} (waits e) inv = wait_for_downstream-Inv num s e inv
Step-Inv num {s} (waited e d) inv =
    join_downstream-Inv num s owning ((λ j. cc), (phase_at inv e).1) inv
Step-Inv num {s} (stops e) inv = stop-Inv num s inv
Step-Inv num {s} (interrupts e) inv = stop-Inv num s inv
Step-Inv num {s} (destroys e) inv = destroy-Inv num s e inv
Step-Inv num {s} (joins e d) inv = join_downstream-Inv num s stopping (refl, (phase_at inv e).1) inv
Step-Inv num {s} (stops_feeds e) inv = stop_feeds-Inv num s e inv
Step-Inv num {s} (joins_feeds e all) inv =
    let p = phase_at inv e in
    owner-Inv destroyed inv (p.0, pending-returned s.retransmission_feeds.feeds all, p.2)
Step-Inv num {s} (replays d asked) inv = replayed-Inv num s d inv
Step-Inv num {s} (completes d) inv = replayed-Inv num s d inv
Step-Inv num {s} (finishes d) inv = record {
  in_order = λ z. absurd (written s z);
  quiet = λ l. absurd l;
  phase = downstream-Phase num s.owner _ _ _ _ _ _ (ap joinable d) refl inv.phase;
}
Step-Inv num {s} (feeds i e step) inv = move_feed-Inv num i s _ _ e step inv

Steps-Inv : (num : ℕ) {s t : Server} → Steps s t → Inv num s → Inv num t
Steps-Inv num stop_here inv = inv
Steps-Inv num (go steps step) inv = Step-Inv num step (Steps-Inv num steps inv)

construct-Inv : (num : ℕ) → Inv num (construct num)
unfolding construct FeedPool.make
construct-Inv num = record {
  in_order = λ _. refl;
  quiet = λ _. refl;
  phase = (refl, refl, omega arith);
}

pub reached-Inv : (num : ℕ) {s : Server} → Steps (construct num) s → Inv num s
reached-Inv num steps = Steps-Inv num steps (construct-Inv num)
