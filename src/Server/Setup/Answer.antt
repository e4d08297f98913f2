-- ===== src/Server/Setup/Answer.antt =====
-- What `make_server` returns and leaves.
use nasdaq_moldudp64_feed_si.Prelude.{ℕ, ◌≡◌, ◌≢◌, refl, sym, subst, List, ◌⊎◌, inl, inr}
use nasdaq_moldudp64_feed_si.BinaryIo.{Endian}
use nasdaq_moldudp64_feed_si.Exception.{Exception, Result, ok, throws, undefined}
use nasdaq_moldudp64_feed_si.MemoryMappedFile
use nasdaq_moldudp64_feed_si.MemoryMappedFile.{
  MemoryMappedFile, Answers, gives, advised, cleanup, unmap, closed, destroy_object,
}
use nasdaq_moldudp64_feed_si.MemoryMappedFile.Ownership.{IsBalanced}
use nasdaq_moldudp64_feed_si.MemoryMappedFile.Operations.{Step-IsBalanced, makes}
use nasdaq_moldudp64_feed_si.MemoryMappedFile.Outcome.{make-Made}
use nasdaq_moldudp64_feed_si.System.{Kernel}
use nasdaq_moldudp64_feed_si.Server.Setup.{
  Config, Construction, Spawn, Machine, initialise, make, caught, make_server,
}
use nasdaq_moldudp64_feed_si.Server.Setup.Initialise.{initialise-Constructs, initialise-Created}
use nasdaq_moldudp64_feed_si.Server.Setup.Pool.{Created}
use nasdaq_moldudp64_feed_si.Server.Setup.Release.{
  Opens, Closes, Serves, behind_file-Serves, behind_file-IsBalanced,
}

-- What `make_server` does: it returns a server whose descriptors are open and whose feeds were created;
-- it is stuck, with the same left open; or it returns an error with nothing left behind.
abbrev pub Answered : Spawn → ℕ → Machine → Result (Construction ⊎ Exception) × Machine → Type 0
Answered spawn num m (ok (inl construction), m') = Opens m m' × Created spawn num construction
Answered spawn num m (ok (inr e), m') = Closes m m'
Answered spawn num m (throws e, m') = ⊥
Answered spawn num m (undefined, m') = ⊥

caught-Answered :
    (spawn : Spawn) (num : ℕ) (m : Machine) (p : Result Construction × Machine)
    → Serves spawn num m p
    → Answered spawn num m (caught p)
unfolding caught
caught-Answered spawn num m (ok construction, m') h = h
caught-Answered spawn num m (throws e, m') h = h
caught-Answered spawn num m (undefined, m') h = h

caught-machine : (p : Result Construction × Machine) → (caught p).1 ≡ p.1
unfolding caught
caught-machine (ok construction, m') = refl
caught-machine (throws e, m') = refl
caught-machine (undefined, m') = refl

module _ (host : Endian) (kernel : Kernel) (spawn : Spawn) (cfg : Config) (a : Answers)
    (file : List ℕ) (m : Machine) (positive : cfg.packet_builder_cfg.min_message_size ≢ 0) where
  -- `make_server` never throws. It returns a server with the descriptors of the mapped file, of the
  -- downstream socket and of the shutdown event open, the file mapped and as many retransmission
  -- feeds created as the configuration asks for; or an error with every descriptor closed and every
  -- mapped file destroyed that the constructor had made; or, when a thread of the pool behind the
  -- first cannot be created, it never returns, whatever the threads do, with the same open as when it
  -- returns a server. The smallest message size of the packet
  -- builder is not 0.
  pub make_server-Answered :
      Answered spawn cfg.num_retransmission_feeds m (make_server host kernel spawn cfg a file m)
  unfolding make_server make
  make_server-Answered =
      caught-Answered spawn cfg.num_retransmission_feeds m (make host kernel spawn cfg a file m) (
        behind_file-Serves spawn cfg.num_retransmission_feeds
          (initialise host kernel spawn cfg file) m
          (MemoryMappedFile.make cfg.madvise_flags a m.mappings)
          (λ s. initialise-Constructs host kernel spawn cfg file s positive)
          (λ s. initialise-Created host kernel spawn cfg file s)
          (make-Made cfg.madvise_flags a m.mappings))

  -- Unless `madvise` fails, `make_server` keeps the books of mappings and descriptors, whether it
  -- returns a server or an error or never returns: each that was made is owned by one object or was
  -- given back once. The smallest message size of the packet builder is not 0.
  pub make_server-IsBalanced :
      advised cfg.madvise_flags a.madvise ≡ gives tt
      → IsBalanced m.mappings
      → IsBalanced (make_server host kernel spawn cfg a file m).1.mappings
  unfolding make_server make
  make_server-IsBalanced h b =
      subst (λ (n : Machine). IsBalanced n.mappings)
        (sym (caught-machine (make host kernel spawn cfg a file m)))
        (behind_file-IsBalanced (initialise host kernel spawn cfg file) m
          (MemoryMappedFile.make cfg.madvise_flags a m.mappings)
          (λ s. initialise-Constructs host kernel spawn cfg file s positive)
          (make-Made cfg.madvise_flags a m.mappings)
          (Step-IsBalanced (makes cfg.madvise_flags a h) b))
