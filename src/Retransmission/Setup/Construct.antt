-- ===== src/Retransmission/Setup/Construct.antt =====
-- The retransmission constructor and its two descriptors.
use nasdaq_moldudp64_feed_si.Prelude.{
  ℕ, ◌≢◌, refl, Bool, true, false, List, [], ◌∷◌, length, get_elem?, replicate, if◌then◌else◌,
}
use nasdaq_moldudp64_feed_si.Prelude.Int.{ℤ, pos, pos_part, leb_ℤ}
use nasdaq_moldudp64_feed_si.Exception.{invalid_shutdown_fd}
use nasdaq_moldudp64_feed_si.PacketBuilder
use nasdaq_moldudp64_feed_si.PacketBuilder.{PacketBuilder}
use nasdaq_moldudp64_feed_si.RetransmissionBuffer.{RetransmissionBuffer}
use nasdaq_moldudp64_feed_si.FileDescriptor
use nasdaq_moldudp64_feed_si.System.{
  open_socket, create_epoll, Kernel, State, Action, pure, raise, lift, ◌>>=◌, ◌>>◌, guarded,
  open_descriptor, descriptor,
}
use nasdaq_moldudp64_feed_si.System.Guard.{
  Keeps, Follows-Keeps, bind-Keeps, lift-Keeps, Constructs, Keeps-Constructs, guarded-Constructs,
}
use nasdaq_moldudp64_feed_si.Downstream.Setup.Construct.{builder_defined}
use nasdaq_moldudp64_feed_si.Retransmission.Setup.Socket.{configure_socket-Follows}
use nasdaq_moldudp64_feed_si.Retransmission.Setup.{
  Config, Parts, zero_event, configure_socket, configure, initialise, construct,
}

module _ (kernel : Kernel) (cfg : Config) (shutdown_fd : ℤ) where
  checked-Keeps :
      (b : Bool) (t : State) → Keeps t ((if b then raise invalid_shutdown_fd else pure tt) t)
  checked-Keeps true t = refl
  checked-Keeps false t = refl

  configure-Keeps :
      (socket epoll : ℕ) (t : State) → Keeps t (configure kernel cfg socket epoll shutdown_fd t)
  unfolding configure
  configure-Keeps socket epoll t =
      bind-Keeps t (if leb_ℤ shutdown_fd (pos 0) then raise invalid_shutdown_fd else pure tt)
        (λ _. rest) (checked-Keeps (leb_ℤ shutdown_fd (pos 0)) t)
        λ _ u _.
          Follows-Keeps kernel u _ _
            (configure_socket-Follows kernel cfg
              (FileDescriptor.get (get_elem? u.world.objects socket))
              (FileDescriptor.get (get_elem? u.world.objects epoll)) shutdown_fd u).1
    where
      rest : Action (Unit {0})
      rest = descriptor socket >>= λ fd.
          descriptor epoll >>= λ epoll_fd. configure_socket kernel cfg fd epoll_fd shutdown_fd

-- The constructor returns with its socket and its epoll open, or throws with every descriptor that it
-- had opened closed and nothing else changed of the descriptors. The smallest message size of the
-- packet builder is not 0.
pub construct-Constructs_two :
    (Address : Type 0) (kernel : Kernel) (cfg : Config) (packet_builder_cfg : PacketBuilder.Config)
    (file : List ℕ) (retransmission_buffer : RetransmissionBuffer) (shutdown_fd : ℤ) (s : State)
    → packet_builder_cfg.min_message_size ≢ 0
    → Constructs 2 s (
        construct kernel {Address = Address} cfg packet_builder_cfg file retransmission_buffer
          shutdown_fd s)
unfolding construct initialise
construct-Constructs_two Address kernel cfg packet_builder_cfg file retransmission_buffer
      shutdown_fd s positive =
    guarded-Constructs kernel open_socket 1 s inner λ t.
      guarded-Constructs kernel create_epoll 0 t (made (length s.world.objects)) λ u.
        Keeps-Constructs u _ (
          bind-Keeps u (lift (PacketBuilder.make packet_builder_cfg))
            (rest (length s.world.objects) (length t.world.objects))
            (lift-Keeps u _ (builder_defined packet_builder_cfg positive))
            λ b v _.
              bind-Keeps v
                (configure kernel cfg (length s.world.objects) (length t.world.objects) shutdown_fd)
                (λ _. finished (length s.world.objects) (length t.world.objects) b)
                (configure-Keeps kernel cfg shutdown_fd (length s.world.objects)
                  (length t.world.objects) v)
                λ _ w _. refl)
  where
    made : ℕ → ℕ → Action (Parts Address)
    made = initialise kernel cfg packet_builder_cfg file retransmission_buffer shutdown_fd

    inner : ℕ → Action (Parts Address)
    inner socket =
        open_descriptor kernel create_epoll >>= λ epoll. guarded epoll (made socket epoll)

    finished : ℕ → ℕ → PacketBuilder → Action (Parts Address)
    finished socket epoll packet_builder = pure (record {
      socket = socket;
      epoll = epoll;
      feed = record {
        shutdown_fd = pos_part shutdown_fd;
        recv_buffer = replicate 20 0;
        packet_builder = packet_builder;
        file = file;
        epoll_events = zero_event retransmission_buffer ∷ zero_event retransmission_buffer ∷ [];
        sent = [];
      };
    })

    rest : ℕ → ℕ → PacketBuilder → Action (Parts Address)
    rest socket epoll packet_builder =
        configure kernel cfg socket epoll shutdown_fd >> finished socket epoll packet_builder
