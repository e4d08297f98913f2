-- ===== src/Retransmission/Setup/Tests.antt =====
-- Tests of the retransmission constructor, on a kernel on which every call succeeds.
use nasdaq_moldudp64_feed_si.Prelude.{◌+◌, ◌≡◌, refl, List, [], ◌∷◌, ◌++◌, length, arith}
use nasdaq_moldudp64_feed_si.Prelude.Int.{pos}
use nasdaq_moldudp64_feed_si.FileDescriptor.Ownership.{empty}
use nasdaq_moldudp64_feed_si.System.{Call, SocketAddress, Kernel, State, check, address_of}
use nasdaq_moldudp64_feed_si.System.Guard.{Constructs}
use nasdaq_moldudp64_feed_si.Retransmission.Setup.{Config, configure_socket, construct}
use nasdaq_moldudp64_feed_si.Retransmission.Setup.Socket.{
  readable, watched, configure_socket-watches,
}
use nasdaq_moldudp64_feed_si.Retransmission.Setup.Construct.{construct-Constructs_two}
use nasdaq_moldudp64_feed_si.Examples.{config, empty_buffer}

-- The n-th call returns n + 3.
abbrev works : Kernel
works calls c = record { result = pos (length calls + 3); errno = 0; address = 16777343 }

-- "127.0.0.1".
abbrev cfg : Config
cfg = record { address = 49 ∷ 50 ∷ 55 ∷ 46 ∷ 48 ∷ 46 ∷ 48 ∷ 46 ∷ 49 ∷ []; port = 31000 }

abbrev initial : State
initial = record { calls = []; world = empty }

configure_socket-watches_example :
    (new : List Call) × ((configure_socket works cfg (pos 3) (pos 4) (pos 9) initial).1.calls
      ≡ initial.calls ++ new)
    × (watched new ≡ (pos 4, pos 3, readable (pos 3)) ∷ (pos 4, pos 9, readable (pos 9)) ∷ [])
unfolding configure_socket check address_of
configure_socket-watches_example =
    configure_socket-watches works cfg (pos 3) (pos 4) (pos 9) initial refl

construct-Constructs_two_example :
    Constructs 2 initial
      (construct works {Address = SocketAddress} cfg config [] empty_buffer (pos 9) initial)
construct-Constructs_two_example =
    construct-Constructs_two SocketAddress works cfg config [] empty_buffer (pos 9) initial
      (λ e. omega (arith, e))
