-- ===== src/Downstream/Setup/Construct.antt =====
-- The downstream constructor and its socket.
use nasdaq_moldudp64_feed_si.Prelude.{◌≡◌, ℕ, ◌≢◌, refl, List, length, get_elem?, arith}
use nasdaq_moldudp64_feed_si.Prelude.Int.{ℤ}
use nasdaq_moldudp64_feed_si.BinaryIo.{Endian}
use nasdaq_moldudp64_feed_si.Exception.{undefined}
use nasdaq_moldudp64_feed_si.PacketBuilder
use nasdaq_moldudp64_feed_si.RetransmissionBuffer.{RetransmissionBuffer}
use nasdaq_moldudp64_feed_si.System.{
  SocketAddress, open_socket, Kernel, State, Action, pure, lift, ◌>>=◌, guarded, open_descriptor,
}
use nasdaq_moldudp64_feed_si.System.Guard.{
  Follows-Keeps, bind-Keeps, lift-Keeps, Constructs, Keeps-Constructs, guarded-Constructs,
}
use nasdaq_moldudp64_feed_si.System.Compose.{
  Returns, bind-Returns, guarded-Returns, open_descriptor-Returns, trivially,
}
use nasdaq_moldudp64_feed_si.FileDescriptor
use nasdaq_moldudp64_feed_si.Downstream.Pacer
use nasdaq_moldudp64_feed_si.Downstream.Heartbeat
use nasdaq_moldudp64_feed_si.Downstream.Feed
use nasdaq_moldudp64_feed_si.Downstream.Setup.Socket.{configure_socket-Follows}
use nasdaq_moldudp64_feed_si.Downstream.Setup.{
  Config, Parts, configure_socket, initialise, construct,
}

-- With a positive `min_message_size` the constructor of the packet builder is defined.
pub builder_defined :
    (cfg : PacketBuilder.Config) → cfg.min_message_size ≢ 0 → PacketBuilder.make cfg ≢ undefined
unfolding PacketBuilder.make
builder_defined cfg h e = ground arith

module _ (host : Endian) (kernel : Kernel) (cfg : Config)
    (packet_builder_cfg : PacketBuilder.Config) (file : List ℕ)
    (retransmission_buffer : RetransmissionBuffer) where
  -- The parts of `initialise` behind `configure_socket`.
  abbrev made : ℕ → SocketAddress → PacketBuilder.PacketBuilder → Action Parts
  made socket group b = pure (record {
    socket = socket;
    mcast_group = group;
    feed = Feed.make file retransmission_buffer (Pacer.make cfg.skip_before) b;
    heartbeat = Heartbeat.make host cfg.heartbeat_period packet_builder_cfg.session;
    end_of_session_duration = cfg.end_of_session_duration;
  })

  abbrev rest : ℕ → SocketAddress → Action Parts
  rest socket group = lift (PacketBuilder.make packet_builder_cfg) >>= made socket group

  -- The constructor returns the object that holds the socket.
  pub construct-Returns :
      (s : State)
      → Returns
          (λ parts. parts.socket ≡ length s.world.objects)
          (construct host kernel cfg packet_builder_cfg file retransmission_buffer s)
  unfolding construct initialise
  construct-Returns s =
      bind-Returns (λ socket. socket ≡ length s.world.objects) holds_socket s
        (open_descriptor kernel open_socket)
        (λ socket.
          guarded socket
            (initialise host kernel cfg packet_builder_cfg file retransmission_buffer socket))
        (open_descriptor-Returns kernel open_socket s)
        λ socket t e.
          guarded-Returns holds_socket socket
            (initialise host kernel cfg packet_builder_cfg file retransmission_buffer socket) t
            (bind-Returns (λ _. Unit {0}) holds_socket t
              (configure_socket host kernel cfg
                (FileDescriptor.get (get_elem? t.world.objects socket)))
              (rest socket) (trivially _)
              λ group u _.
                bind-Returns (λ _. Unit {0}) holds_socket u
                  (lift (PacketBuilder.make packet_builder_cfg)) (made socket group) (trivially _)
                  λ b v _. e)
    where
      holds_socket : Parts → Type 0
      holds_socket parts = parts.socket ≡ length s.world.objects

-- The constructor returns with its socket open, or throws with the socket closed and nothing else
-- changed of the descriptors. The smallest message size of the packet builder is not 0.
pub construct-Constructs :
    (host : Endian) (kernel : Kernel) (cfg : Config) (packet_builder_cfg : PacketBuilder.Config)
    (file : List ℕ) (retransmission_buffer : RetransmissionBuffer) (s : State)
    → packet_builder_cfg.min_message_size ≢ 0
    → Constructs 1 s (construct host kernel cfg packet_builder_cfg file retransmission_buffer s)
unfolding construct initialise
construct-Constructs host kernel cfg packet_builder_cfg file retransmission_buffer s positive =
    guarded-Constructs kernel open_socket 0 s
      (initialise host kernel cfg packet_builder_cfg file retransmission_buffer)
      λ t. Keeps-Constructs t _ (
        bind-Keeps t (configure_socket host kernel cfg (fd t))
          (rest host kernel cfg packet_builder_cfg file retransmission_buffer socket)
          (Follows-Keeps kernel t _ _ (configure_socket-Follows host kernel cfg (fd t) t))
          λ group u _.
            bind-Keeps u (lift (PacketBuilder.make packet_builder_cfg))
              (made host kernel cfg packet_builder_cfg file retransmission_buffer socket group)
              (lift-Keeps u _ (builder_defined packet_builder_cfg positive)) λ b v _. refl)
  where
    socket : ℕ
    socket = length s.world.objects

    fd : State → ℤ
    fd t = FileDescriptor.get (get_elem? t.world.objects socket)
