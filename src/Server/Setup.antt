-- ===== src/Server/Setup.antt =====
-- The constructor of the server, member by member, and `make_server`: src/server.cpp, with the
-- constructor of the pool in src/mold/retransmission/feed_pool.cpp. Memory is not exhausted.
pub mod Pool
pub mod Initialise
pub mod Release
pub mod Answer
mod Tests
use nasdaq_moldudp64_feed_si.Prelude.{
  ℕ, zero, suc, [], ◌∷◌, Option, none, some, List, length, ◌⊎◌, inl, inr,
}
use nasdaq_moldudp64_feed_si.BinaryIo.{Endian}
use nasdaq_moldudp64_feed_si.Exception.{Exception, Result, ok, throws, undefined, system_error}
use nasdaq_moldudp64_feed_si.PacketBuilder
use nasdaq_moldudp64_feed_si.RetransmissionBuffer
use nasdaq_moldudp64_feed_si.RetransmissionBuffer.{RetransmissionBuffer}
use nasdaq_moldudp64_feed_si.MemoryMappedFile
use nasdaq_moldudp64_feed_si.MemoryMappedFile.{Answers}
use nasdaq_moldudp64_feed_si.System.{
  Call, create_event, Kernel, State, Action, pure, raise, lift, ◌>>=◌, ◌>>◌, guarded,
  open_descriptor,
}
use nasdaq_moldudp64_feed_si.Downstream.Setup
use nasdaq_moldudp64_feed_si.Retransmission.FeedPool.{FeedThread}
use nasdaq_moldudp64_feed_si.Server.{Server, owning, unwinding, construct, create_feed}

-- `madvise_flags` is that of `mapped_itch_file_cfg`; what its path leads to is in `Answers`.
pub record Config : Type 0 where
  pub madvise_flags : ℕ
  pub packet_builder_cfg : PacketBuilder.Config
  pub downstream_feed_config : Setup.Config
  pub retransmission_buffer_size : ℕ
  pub num_retransmission_feeds : ℕ

pub record Members : Type 0 where
  pub downstream_feed : Setup.Parts
  pub shutdown_fd : ℕ
  pub threads : Server

-- `complete`: the constructor has returned. `stuck`: it has not, and never will; it is in the pool's
-- constructor, where an exception waits for the threads that were created.
pub data Construction : Type 0 where
  complete stuck : Members → Construction

-- What creating a thread of the pool gives behind `n` others: nothing, or the errno with which it fails.
abbrev pub Spawn : Type 0
Spawn = ℕ → Option ℕ

-- The loop of the pool's constructor, with `n` threads to create: how it ends, and the threads by then,
-- each still in the constructor of its feed.
unfoldable pub create_feeds : Spawn → ℕ → Server → Option ℕ × Server
create_feeds spawn zero s = (none, record s { owner = owning })
create_feeds spawn (suc n) s =
    let rest = create_feeds spawn n (create_feed n s) in
    elim (spawn (length s.retransmission_feeds.feeds)) [
      | none ↦ rest
      | some errno ↦ (some errno, record s { owner = unwinding })
    ]

-- An exception of the loop destroys `feeds_`: each thread in it is joined, and no thread of the pool
-- returns, since nobody writes the counter. Without a thread it goes on.
unfoldable pub join_feeds : ℕ → Members → List FeedThread → Action Construction
join_feeds errno members [] = raise (system_error errno)
join_feeds errno members (t ∷ ts) = pure (stuck members)

unfoldable pub behind_loop : Setup.Parts → ℕ → Option ℕ × Server → Action Construction
unfolding join_feeds
behind_loop parts shutdown_fd (none, threads) =
    pure
      (complete (record { downstream_feed = parts; shutdown_fd = shutdown_fd; threads = threads }))
behind_loop parts shutdown_fd (some errno, threads) =
    join_feeds errno
      (record { downstream_feed = parts; shutdown_fd = shutdown_fd; threads = threads })
      threads.retransmission_feeds.feeds

-- The calls made so far, and the objects that own mappings and descriptors.
pub record Machine : Type 0 where
  pub calls : List Call
  pub mappings : MemoryMappedFile.World

module _ (host : Endian) (kernel : Kernel) (spawn : Spawn) (cfg : Config) where
  -- The members behind the mapped file. A descriptor that an exception passes is destroyed.
  unfoldable pub initialise : List ℕ → Action Construction
  unfolding behind_loop create_feeds
  initialise file = do
    retransmission_buffer ← lift (RetransmissionBuffer.make cfg.retransmission_buffer_size)
    downstream_feed ←
        Setup.construct host kernel cfg.downstream_feed_config cfg.packet_builder_cfg file
          retransmission_buffer
    guarded downstream_feed.socket (do
      shutdown_fd ← open_descriptor kernel create_event
      guarded shutdown_fd (
          behind_loop downstream_feed shutdown_fd (
            create_feeds spawn cfg.num_retransmission_feeds
              (construct cfg.num_retransmission_feeds))))

-- Behind the destructor of the mapped file.
unfoldable pub released :
    Exception
    → List Call
    → MemoryMappedFile.World
    → Result MemoryMappedFile.World
    → Result Construction × Machine
released e calls before (ok mappings) = (throws e, record { calls = calls; mappings = mappings })
released e calls before _ = (undefined, record { calls = calls; mappings = before })

-- The mapped file is the object at `index`.
unfoldable pub release :
    ℕ → MemoryMappedFile.World → Result Construction × State → Result Construction × Machine
unfolding released
release index mappings (ok construction, s) =
    (ok construction, record { calls = s.calls; mappings = record mappings { files = s.world } })
release index mappings (undefined, s) =
    (undefined, record { calls = s.calls; mappings = record mappings { files = s.world } })
release index mappings (throws e, s) =
    let unwound = record mappings { files = s.world } in
    released e s.calls unwound (MemoryMappedFile.destroy index unwound)

unfoldable pub behind_file :
    Action Construction
    → Machine
    → Result (Unit {0}) × MemoryMappedFile.World
    → Result Construction × Machine
unfolding release
behind_file rest m (ok _, mappings) =
    release (length m.mappings.objects) mappings
      (rest (record { calls = m.calls; world = mappings.files }))
behind_file rest m (throws e, mappings) = (throws e, record m { mappings = mappings })
behind_file rest m (undefined, mappings) = (undefined, record m { mappings = mappings })

module _ (host : Endian) (kernel : Kernel) (spawn : Spawn) (cfg : Config) where
  -- `Server::Server`; `file` is what the mapping holds.
  unfoldable pub make : Answers → List ℕ → Machine → Result Construction × Machine
  unfolding behind_file
  make answers file m =
      behind_file (initialise host kernel spawn cfg file) m
        (MemoryMappedFile.make cfg.madvise_flags answers m.mappings)

-- `std::expected`: `inr` is the unexpected value, the text of the exception.
unfoldable pub caught : Result Construction × Machine → Result (Construction ⊎ Exception) × Machine
caught (ok construction, m) = (ok (inl construction), m)
caught (throws e, m) = (ok (inr e), m)
caught (undefined, m) = (undefined, m)

unfoldable pub make_server :
    Endian
    → Kernel
    → Spawn
    → Config
    → Answers
    → List ℕ
    → Machine
    → Result (Construction ⊎ Exception) × Machine
unfolding caught make
make_server host kernel spawn cfg answers file m =
    caught (make host kernel spawn cfg answers file m)
