-- ===== src/Server/Tests.antt =====
-- Tests of src/server.cpp: runs of a server with one or two retransmission feeds.
use nasdaq_moldudp64_feed_si.Prelude.{
  ℕ, ◌+◌, ◌*◌, ◌≤◌, ◌≡◌, ◌≢◌, ◌⊎◌, refl, false, true, [], ◌∷◌, All, length, arith,
}
use nasdaq_moldudp64_feed_si.Retransmission.FeedPool
use nasdaq_moldudp64_feed_si.Retransmission.FeedPool.{
  FeedPool, constructing, serving, returned, constructs, shuts_down,
}
use nasdaq_moldudp64_feed_si.Server.{
  joinable, not_started, replaying, joined, creating, unwinding, owning, destroyed, Server,
  construct, create_feed, start, request_stop, destroy, join_downstream, stop_feeds, move_feed,
  Step, creates, constructed, starts, destroys, joins, stops_feeds, joins_feeds, replays, finishes,
  feeds, Steps, stop_here, go,
}
use nasdaq_moldudp64_feed_si.Server.Invariant.{IsLive}
use nasdaq_moldudp64_feed_si.Server.Safety.{destroyed-returned, returned-replayed}
use nasdaq_moldudp64_feed_si.Server.Destroying.{IsForced, Run, here, further}
use nasdaq_moldudp64_feed_si.Server.Liveness.{destroy-ends}
use nasdaq_moldudp64_feed_si.Server.Unwinding.{create_feed-hangs}

-- One feed; the client destroys the server while the replay goes on.
abbrev started : Server
started = record {
  owner = owning;
  downstream_thread = replaying;
  stop_requested = false;
  retransmission_feeds = record { shutdown_fd = 0; feeds = serving ∷ [] };
}

run-started : Steps (construct 1) started
unfolding construct FeedPool.make create_feed FeedPool.emplace_feed start move_feed
run-started =
    go (go (go (go stop_here (creates 0 refl)) (feeds 0 refl constructs)) (constructed refl))
      (starts refl refl)

abbrev done : Server
done = record {
  owner = destroyed;
  downstream_thread = joined;
  stop_requested = true;
  retransmission_feeds = record { shutdown_fd = 2; feeds = returned ∷ [] };
}

Run-done : Run 6 (destroy started) done
unfolding destroy request_stop joinable join_downstream stop_feeds FeedPool.stop move_feed
Run-done =
    further
      (further
        (further
          (further (further (further here (replays refl refl)) (finishes refl)) (joins refl refl))
          (stops_feeds refl))
        (feeds 0 refl (shuts_down (λ z. omega (arith, z)))))
      (joins_feeds refl (refl, tt))

Run-Steps : {n : ℕ} {r s t : Server} → Steps r s → Run n s t → Steps r t
Run-Steps steps here = steps
Run-Steps steps (further run step) = go (Run-Steps steps run) step

steps-done : Steps (construct 1) done
steps-done = Run-Steps (go run-started (destroys refl)) Run-done

destroyed-returned_example :
    (joinable done.downstream_thread ≡ false)
    × All (λ t. t ≡ returned) done.retransmission_feeds.feeds
    × (length done.retransmission_feeds.feeds ≡ 1)
destroyed-returned_example = destroyed-returned 1 steps-done refl

returned-replayed_example :
    (done.retransmission_feeds.shutdown_fd ≢ 0) × (IsLive done.downstream_thread → ⊥)
returned-replayed_example = returned-replayed 1 0 steps-done refl

destroy-ends_example :
    (6 ≤ 5 + 2 * 1)
    × ((done.owner ≡ destroyed) ⊎ ((u : Server) × (step : Step done u) × IsForced step))
destroy-ends_example = destroy-ends 1 6 run-started refl Run-done

-- The second of two threads cannot be created.
abbrev half : Server
half = record {
  owner = creating 1;
  downstream_thread = not_started;
  stop_requested = false;
  retransmission_feeds = record { shutdown_fd = 0; feeds = constructing ∷ [] };
}

run-half : Steps (construct 2) half
unfolding construct FeedPool.make create_feed FeedPool.emplace_feed
run-half = go stop_here (creates 1 refl)

abbrev hanging : Server
hanging = record half {
  owner = unwinding;
  retransmission_feeds = record { shutdown_fd = 0; feeds = serving ∷ [] };
}

run-hanging : Steps (record half { owner = unwinding }) hanging
unfolding move_feed
run-hanging = go stop_here (feeds 0 refl constructs)

create_feed-hangs_example : hanging.owner ≡ unwinding
create_feed-hangs_example = create_feed-hangs 2 0 run-half refl (omega arith) run-hanging
