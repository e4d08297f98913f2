-- ===== src/Server/Setup/Initialise.antt =====
-- The members of the server behind the mapped file.
use nasdaq_moldudp64_feed_si.Prelude.{ℕ, ◌≢◌, refl, List, length, Option, arith}
use nasdaq_moldudp64_feed_si.BinaryIo.{Endian}
use nasdaq_moldudp64_feed_si.Exception.{undefined}
use nasdaq_moldudp64_feed_si.RetransmissionBuffer
use nasdaq_moldudp64_feed_si.RetransmissionBuffer.{RetransmissionBuffer}
use nasdaq_moldudp64_feed_si.System.{
  create_event, Kernel, State, Action, lift, ◌>>=◌, guarded, open_descriptor,
}
use nasdaq_moldudp64_feed_si.System.Guard.{Constructs, Keeps-Constructs, guarded-Constructs}
use nasdaq_moldudp64_feed_si.System.Compose.{
  then-Constructs, lift-Constructs, Returns, bind-Returns, guarded-Returns, trivially,
}
use nasdaq_moldudp64_feed_si.Downstream.Setup
use nasdaq_moldudp64_feed_si.Downstream.Setup.Construct.{construct-Constructs, construct-Returns}
use nasdaq_moldudp64_feed_si.Server.{Server, construct, stop_here}
use nasdaq_moldudp64_feed_si.Server.Setup.{
  Config, Construction, Spawn, create_feeds, behind_loop, initialise,
}
use nasdaq_moldudp64_feed_si.Server.Setup.Pool.{
  Created, create_feeds-Ends, behind_loop-Keeps, behind_loop-Created,
}

buffer_defined : (size : ℕ) → RetransmissionBuffer.make size ≢ undefined
unfolding RetransmissionBuffer.make
buffer_defined size e = ground arith

-- The members behind the mapped file.
pub initialise-Constructs :
    (host : Endian) (kernel : Kernel) (spawn : Spawn) (cfg : Config) (file : List ℕ) (s : State)
    → cfg.packet_builder_cfg.min_message_size ≢ 0
    → Constructs 2 s (initialise host kernel spawn cfg file s)
unfolding initialise
initialise-Constructs host kernel spawn cfg file s positive =
    lift-Constructs 2 s (RetransmissionBuffer.make cfg.retransmission_buffer_size) from_downstream
      (buffer_defined cfg.retransmission_buffer_size)
      λ b.
        then-Constructs 1 s
          (Setup.construct host kernel cfg.downstream_feed_config cfg.packet_builder_cfg file b)
          (λ parts. parts.socket) from_pool
          (construct-Constructs host kernel cfg.downstream_feed_config cfg.packet_builder_cfg file b
            s positive)
          (construct-Returns host kernel cfg.downstream_feed_config cfg.packet_builder_cfg file b s)
          λ parts t. guarded-Constructs kernel create_event 0 t (last parts) λ u.
            Keeps-Constructs u (last parts (length t.world.objects) u)
              (behind_loop-Keeps parts (length t.world.objects) looped u)
  where
    looped : Option ℕ × Server
    looped =
        create_feeds spawn cfg.num_retransmission_feeds (construct cfg.num_retransmission_feeds)

    last : Setup.Parts → ℕ → Action Construction
    last parts shutdown_fd = behind_loop parts shutdown_fd looped

    from_pool : Setup.Parts → Action Construction
    from_pool parts = open_descriptor kernel create_event >>= λ shutdown_fd.
        guarded shutdown_fd (last parts shutdown_fd)

    from_downstream : RetransmissionBuffer → Action Construction
    from_downstream b =
        Setup.construct host kernel cfg.downstream_feed_config cfg.packet_builder_cfg file b
        >>= λ parts. guarded parts.socket (from_pool parts)

-- What is constructed has all its feeds, or is stuck.
pub initialise-Created :
    (host : Endian) (kernel : Kernel) (spawn : Spawn) (cfg : Config) (file : List ℕ) (s : State)
    → Returns (Created spawn cfg.num_retransmission_feeds) (initialise host kernel spawn cfg file s)
unfolding initialise
initialise-Created host kernel spawn cfg file s =
    bind-Returns (λ _. Unit {0}) created s
      (lift (RetransmissionBuffer.make cfg.retransmission_buffer_size)) from_downstream
      (trivially _)
      λ b t _.
        bind-Returns (λ _. Unit {0}) created t (downstream b)
          (λ parts. guarded parts.socket (from_pool parts)) (trivially _)
          λ parts u _. guarded-Returns created parts.socket (from_pool parts) u (
            bind-Returns (λ _. Unit {0}) created u (open_descriptor kernel create_event)
              (λ shutdown_fd. guarded shutdown_fd (last parts shutdown_fd)) (trivially _)
              λ shutdown_fd v _. guarded-Returns created shutdown_fd (last parts shutdown_fd) v (
                behind_loop-Created spawn cfg.num_retransmission_feeds parts shutdown_fd looped v (
                  create_feeds-Ends spawn cfg.num_retransmission_feeds cfg.num_retransmission_feeds
                    (construct cfg.num_retransmission_feeds) stop_here (unfold construct in refl))))
  where
    created : Construction → Type 0
    created = Created spawn cfg.num_retransmission_feeds

    looped : Option ℕ × Server
    looped =
        create_feeds spawn cfg.num_retransmission_feeds (construct cfg.num_retransmission_feeds)

    last : Setup.Parts → ℕ → Action Construction
    last parts shutdown_fd = behind_loop parts shutdown_fd looped

    from_pool : Setup.Parts → Action Construction
    from_pool parts = open_descriptor kernel create_event >>= λ shutdown_fd.
        guarded shutdown_fd (last parts shutdown_fd)

    downstream : RetransmissionBuffer → Action Setup.Parts
    downstream b =
        Setup.construct host kernel cfg.downstream_feed_config cfg.packet_builder_cfg file b

    from_downstream : RetransmissionBuffer → Action Construction
    from_downstream b = downstream b >>= λ parts. guarded parts.socket (from_pool parts)
