-- ===== src/Retransmission/Setup.antt =====
-- The constructor and `configure_socket` of include/imr/mold/retransmission/feed.h and
-- src/mold/retransmission/feed.cpp.
pub mod Socket
pub mod Construct
mod Tests
use nasdaq_moldudp64_feed_si.Prelude.{ℕ, List, [], ◌∷◌, replicate, false, if◌then◌else◌}
use nasdaq_moldudp64_feed_si.Prelude.Int.{ℤ, pos, pos_part, leb_ℤ}
use nasdaq_moldudp64_feed_si.Types.{header_length}
use nasdaq_moldudp64_feed_si.Exception.{invalid_shutdown_fd}
use nasdaq_moldudp64_feed_si.BinaryIo.{byteswap}
use nasdaq_moldudp64_feed_si.PacketBuilder
use nasdaq_moldudp64_feed_si.RetransmissionBuffer.{RetransmissionBuffer}
use nasdaq_moldudp64_feed_si.System.{
  SocketAddress, open_socket, create_epoll, set_option, reuse_address, reuse_port, bind_socket,
  epollin, epoll_add, Kernel, Action, pure, raise, lift, ◌>>=◌, ◌>>◌, guarded, check, address_of,
  open_descriptor, descriptor,
}
use nasdaq_moldudp64_feed_si.Retransmission.Feed
use nasdaq_moldudp64_feed_si.Retransmission.Feed.{Feed, Event, failed}

pub record Config : Type 0 where
  pub address : List ℕ
  pub port : ℕ

-- The object: its descriptors by their index, and the other members.
pub record Parts (Address : Type 0) : Type 0 where
  pub socket : ℕ
  pub epoll : ℕ
  pub feed : Feed Address

-- A value-initialised `epoll_event`. It asks for no read: what a read would give stands for nothing.
abbrev zero_event : {Address : Type 0} → RetransmissionBuffer → Event Address
zero_event buffer = record { fd = 0; epollin = false; reception = failed 0; buffer = buffer }

module _ (kernel : Kernel) where
  unfoldable pub configure_socket : Config → ℤ → ℤ → ℤ → Action (Unit {0})
  configure_socket cfg fd epoll_fd shutdown_fd = do
    check kernel (set_option fd reuse_address 1)
    check kernel (set_option fd reuse_port 1)
    address ← address_of kernel cfg.address
    check kernel (bind_socket fd (record { sin_port = byteswap 2 cfg.port; sin_addr = address }))
    check kernel (epoll_add epoll_fd fd (record { events = epollin; fd = fd }))
    check kernel (epoll_add epoll_fd shutdown_fd (record { events = epollin; fd = shutdown_fd }))

  -- The constructor's body.
  unfoldable pub configure : Config → ℕ → ℕ → ℤ → Action (Unit {0})
  unfolding configure_socket
  configure cfg socket epoll shutdown_fd = do
    if leb_ℤ shutdown_fd (pos 0) then raise invalid_shutdown_fd else pure tt
    fd ← descriptor socket
    epoll_fd ← descriptor epoll
    configure_socket cfg fd epoll_fd shutdown_fd

  module _ {Address : Type 0} where
    unfoldable pub initialise :
        Config
        → PacketBuilder.Config
        → List ℕ
        → RetransmissionBuffer
        → ℤ
        → ℕ
        → ℕ
        → Action (Parts Address)
    unfolding configure
    initialise cfg packet_builder_cfg file retransmission_buffer shutdown_fd socket epoll = do
      packet_builder ← lift (PacketBuilder.make packet_builder_cfg)
      configure cfg socket epoll shutdown_fd
      pure (record {
        socket = socket;
        epoll = epoll;
        feed = record {
          shutdown_fd = pos_part shutdown_fd;
          recv_buffer = replicate header_length 0;
          packet_builder = packet_builder;
          file = file;
          epoll_events = zero_event retransmission_buffer ∷ zero_event retransmission_buffer ∷ [];
          sent = [];
        };
      })

    -- `Feed::Feed`: the two descriptors first, then the other members and the body.
    unfoldable pub construct :
        Config → PacketBuilder.Config → List ℕ → RetransmissionBuffer → ℤ → Action (Parts Address)
    unfolding initialise
    construct cfg packet_builder_cfg file retransmission_buffer shutdown_fd = do
      socket ← open_descriptor kernel open_socket
      guarded socket (do
        epoll ← open_descriptor kernel create_epoll
        guarded epoll
            (initialise cfg packet_builder_cfg file retransmission_buffer shutdown_fd socket epoll))
