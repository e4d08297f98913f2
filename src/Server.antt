-- ===== src/Server.antt =====
-- include/imr/server.h and src/server.cpp: the thread that owns a server, the thread of the
-- downstream feed and those of the retransmission feeds, interleaved step by step.
-- The steps are those of a program that goes on: an exception that leaves the function of a thread,
-- or the destructor, ends it.
pub mod Invariant
pub mod Reached
pub mod Safety
pub mod Destroying
pub mod Liveness
pub mod Unwinding
pub mod Setup
mod Tests
use nasdaq_moldudp64_feed_si.Prelude.{
  ℕ, zero, suc, ◌-◌, ◌+◌, ◌%◌, ◌^◌, max, ◌≡◌, Bool, true, false, All, get_elem?, set, some,
  if◌then◌else◌,
}
use nasdaq_moldudp64_feed_si.Retransmission.FeedPool
use nasdaq_moldudp64_feed_si.Retransmission.FeedPool.{FeedThread, FeedPool, FeedStep, returned}

-- The default of `num_retransmission_feeds`, in 32-bit unsigned arithmetic.
unfoldable pub default_num_retransmission_feeds : ℕ → ℕ
default_num_retransmission_feeds hardware_concurrency =
    max ((hardware_concurrency + 2 ^ 32 - 1) % 2 ^ 32) 1

-- `downstream_thread_`: no thread yet, in `downstream_feed_.start`, about to call
-- `retransmission_feeds_.stop`, at its end, joined.
pub data DownstreamThread : Type 0 where
  not_started replaying replayed finished joined : DownstreamThread

-- Where the owner stands.
-- `creating n`: in the constructor of the pool, with `n` threads to create.
-- `unwinding`: an exception leaves the constructor of the pool, whose threads are joined.
-- `failed`: it has left the constructor of the server.
-- `owning`: between the calls of the client.
-- `waiting`: in `join` of `wait_for_downstream`.
-- `joining`, `stopping`: in `join` of the destructor, and before `retransmission_feeds_.stop`.
-- `joining_feeds`: behind the body of the destructor, which destroys the pool.
pub data Owner : Type 0 where
  creating : ℕ → Owner
  unwinding failed owning waiting joining stopping joining_feeds destroyed : Owner

-- `stop_requested` belongs to the stop state of `downstream_thread_`.
pub record Server : Type 0 where
  pub owner : Owner
  pub downstream_thread : DownstreamThread
  pub stop_requested : Bool
  pub retransmission_feeds : FeedPool

-- The constructor, from the loop of the pool on.
unfoldable pub construct : ℕ → Server
construct num_feeds = record {
  owner = creating num_feeds;
  downstream_thread = not_started;
  stop_requested = false;
  retransmission_feeds = FeedPool.make;
}

unfoldable pub create_feed : ℕ → Server → Server
create_feed n s = record s {
  owner = creating n;
  retransmission_feeds = FeedPool.emplace_feed s.retransmission_feeds;
}

-- `start`, on a server that was not started before.
unfoldable pub start : Server → Server
start s = record s { downstream_thread = replaying; stop_requested = false }

unfoldable pub joinable : DownstreamThread → Bool
joinable not_started = false
joinable replaying = true
joinable replayed = true
joinable finished = true
joinable joined = false

-- Without a thread there is no stop state.
unfoldable pub request_stop : DownstreamThread → Server → Server
request_stop not_started s = s
request_stop _ s = record s { stop_requested = true }

unfoldable pub wait_for_downstream : Server → Server
unfolding joinable
wait_for_downstream s = record s {
  owner = if joinable s.downstream_thread then waiting else owning;
}

unfoldable pub stop : Server → Server
unfolding request_stop
stop s = request_stop s.downstream_thread s

-- The destructor up to `join`.
unfoldable pub destroy : Server → Server
unfolding joinable request_stop
destroy s = record (request_stop s.downstream_thread s) {
  owner = if joinable s.downstream_thread then joining else stopping;
}

-- `join` has returned.
unfoldable pub join_downstream : Owner → Server → Server
join_downstream next s = record s { owner = next; downstream_thread = joined }

unfoldable pub stop_feeds : Server → Server
stop_feeds s = record s { retransmission_feeds = FeedPool.stop s.retransmission_feeds }

unfoldable pub move_feed : ℕ → FeedThread → Server → Server
move_feed i thread s = record s {
  retransmission_feeds = record s.retransmission_feeds {
    feeds = set s.retransmission_feeds.feeds i thread;
  };
}

pub data Step : Server → Server → Type 0 where
  -- The constructor.
  creates : {s : Server} (n : ℕ) → s.owner ≡ creating (suc n) → Step s (create_feed n s)
  fails_to_create :
      {s : Server} (n : ℕ) → s.owner ≡ creating (suc n) → Step s (record s { owner = unwinding })
  unwinds :
      {s : Server}
      → s.owner ≡ unwinding
      → All (λ t. t ≡ returned) s.retransmission_feeds.feeds
      → Step s (record s { owner = failed })
  constructed : {s : Server} → s.owner ≡ creating zero → Step s (record s { owner = owning })
  -- The client, who starts the server once.
  starts : {s : Server} → s.owner ≡ owning → s.downstream_thread ≡ not_started → Step s (start s)
  waits : {s : Server} → s.owner ≡ owning → Step s (wait_for_downstream s)
  waited :
      {s : Server}
      → s.owner ≡ waiting
      → s.downstream_thread ≡ finished
      → Step s (join_downstream owning s)
  stops : {s : Server} → s.owner ≡ owning → Step s (stop s)
  -- Another thread stops the server while its owner waits.
  interrupts : {s : Server} → s.owner ≡ waiting → Step s (stop s)
  -- The destructor.
  destroys : {s : Server} → s.owner ≡ owning → Step s (destroy s)
  joins :
      {s : Server}
      → s.owner ≡ joining
      → s.downstream_thread ≡ finished
      → Step s (join_downstream stopping s)
  stops_feeds :
      {s : Server} → s.owner ≡ stopping → Step s (record (stop_feeds s) { owner = joining_feeds })
  joins_feeds :
      {s : Server}
      → s.owner ≡ joining_feeds
      → All (λ t. t ≡ returned) s.retransmission_feeds.feeds
      → Step s (record s { owner = destroyed })
  -- The thread of the downstream feed. `downstream_feed_.start` returns because a stop was requested,
  -- or because the replay has come to its end, which it may never do.
  replays :
      {s : Server}
      → s.downstream_thread ≡ replaying
      → s.stop_requested ≡ true
      → Step s (record s { downstream_thread = replayed })
  completes :
      {s : Server}
      → s.downstream_thread ≡ replaying
      → Step s (record s { downstream_thread = replayed })
  finishes :
      {s : Server}
      → s.downstream_thread ≡ replayed
      → Step s (record (stop_feeds s) { downstream_thread = finished })
  -- The threads of the retransmission feeds.
  feeds :
      {s : Server} (i : ℕ) {t t' : FeedThread}
      → get_elem? s.retransmission_feeds.feeds i ≡ some t
      → FeedStep s.retransmission_feeds.shutdown_fd t t'
      → Step s (move_feed i t' s)

pub data Steps : Server → Server → Type 0 where
  stop_here : {s : Server} → Steps s s
  go : {s t u : Server} → Steps s t → Step t u → Steps s u
