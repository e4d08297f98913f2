-- ===== src/Retransmission/FeedPool.antt =====
-- include/imr/mold/retransmission/feed_pool.h and src/mold/retransmission/feed_pool.cpp: the threads
-- of the pool as steps.
use nasdaq_moldudp64_feed_si.Prelude.{ℕ, ◌+◌, ◌≢◌, List, [], ◌∷◌, ◌++◌}

-- Where the thread of a feed stands: in the constructor of `Feed`, in `feed.start()`, or behind it.
pub data FeedThread : Type 0 where
  constructing serving returned : FeedThread

-- `shutdown_fd_` as the counter of the event descriptor.
pub record FeedPool : Type 0 where
  pub shutdown_fd : ℕ
  pub feeds : List FeedThread

-- Before the loop of the constructor.
unfoldable pub make : FeedPool
make = record { shutdown_fd = 0; feeds = [] }

-- One round of the loop.
unfoldable pub emplace_feed : FeedPool → FeedPool
emplace_feed pool = record pool { feeds = pool.feeds ++ (constructing ∷ []) }

-- `stop`, when `write` succeeds.
unfoldable pub stop : FeedPool → FeedPool
stop pool = record pool { shutdown_fd = pool.shutdown_fd + 1 }

-- A step of a thread whose feed shares the counter. The event descriptor is readable while its
-- counter is not 0, and nobody reads it. The requests in between change nothing here.
pub data FeedStep (shutdown_fd : ℕ) : FeedThread → FeedThread → Type 0 where
  constructs : FeedStep shutdown_fd constructing serving
  shuts_down : shutdown_fd ≢ 0 → FeedStep shutdown_fd serving returned
