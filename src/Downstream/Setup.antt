-- ===== src/Downstream/Setup.antt =====
-- The constructor and `configure_socket` of include/imr/mold/downstream/feed.h and
-- src/mold/downstream/feed.cpp. A text is the list of its characters.
pub mod Socket
pub mod Construct
mod Tests
use nasdaq_moldudp64_feed_si.Prelude.{ℕ, Bool, List, if◌then◌else◌}
use nasdaq_moldudp64_feed_si.Prelude.Int.{ℤ}
use nasdaq_moldudp64_feed_si.BinaryIo.{Endian, byteswap}
use nasdaq_moldudp64_feed_si.PacketBuilder
use nasdaq_moldudp64_feed_si.RetransmissionBuffer.{RetransmissionBuffer}
use nasdaq_moldudp64_feed_si.System.{
  SocketAddress, open_socket, set_option, reuse_address, multicast_ttl, multicast_loop,
  multicast_interface, Kernel, Action, pure, lift, ◌>>=◌, ◌>>◌, guarded, check, address_of,
  open_descriptor, descriptor,
}
use nasdaq_moldudp64_feed_si.Downstream.Pacer
use nasdaq_moldudp64_feed_si.Downstream.Heartbeat
use nasdaq_moldudp64_feed_si.Downstream.Heartbeat.{Heartbeat}
use nasdaq_moldudp64_feed_si.Downstream.Feed
use nasdaq_moldudp64_feed_si.Downstream.Feed.{Feed}

pub record Config : Type 0 where
  pub mcast_group : List ℕ
  pub port : ℕ
  pub ttl : ℕ
  pub loopback : Bool
  pub egress_interface : ℕ
  pub heartbeat_period : ℤ
  pub end_of_session_duration : ℤ
  pub skip_before : ℤ

-- The object: the members of `Feed`, and the socket as the index of its descriptor.
pub record Parts : Type 0 where
  pub socket : ℕ
  pub mcast_group : SocketAddress
  pub feed : Feed
  pub heartbeat : Heartbeat
  pub end_of_session_duration : ℤ

module _ (host : Endian) (kernel : Kernel) where
  unfoldable pub configure_socket : Config → ℤ → Action SocketAddress
  configure_socket cfg fd = do
    check kernel (set_option fd reuse_address 1)
    check kernel (set_option fd multicast_ttl cfg.ttl)
    address ← address_of kernel cfg.mcast_group
    if cfg.loopback then check kernel (set_option fd multicast_loop 1) else pure tt
    check kernel (set_option fd multicast_interface cfg.egress_interface)
    pure (record { sin_port = byteswap 2 cfg.port; sin_addr = address })

  unfoldable pub initialise :
      Config → PacketBuilder.Config → List ℕ → RetransmissionBuffer → ℕ → Action Parts
  unfolding configure_socket
  initialise cfg packet_builder_cfg file retransmission_buffer socket = do
    fd ← descriptor socket
    mcast_group ← configure_socket cfg fd
    packet_builder ← lift (PacketBuilder.make packet_builder_cfg)
    pure (record {
      socket = socket;
      mcast_group = mcast_group;
      feed = Feed.make file retransmission_buffer (Pacer.make cfg.skip_before) packet_builder;
      heartbeat = Heartbeat.make host cfg.heartbeat_period packet_builder_cfg.session;
      end_of_session_duration = cfg.end_of_session_duration;
    })

  -- `Feed::Feed`: the socket first, then the other members.
  unfoldable pub construct :
      Config → PacketBuilder.Config → List ℕ → RetransmissionBuffer → Action Parts
  unfolding initialise
  construct cfg packet_builder_cfg file retransmission_buffer = do
    socket ← open_descriptor kernel open_socket
    guarded socket (initialise cfg packet_builder_cfg file retransmission_buffer socket)
