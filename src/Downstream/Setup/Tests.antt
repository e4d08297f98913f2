-- ===== src/Downstream/Setup/Tests.antt =====
-- Tests of the downstream constructor, on a kernel on which every call succeeds.
use nasdaq_moldudp64_feed_si.Prelude.{◌+◌, false, [], ◌∷◌, length, arith}
use nasdaq_moldudp64_feed_si.Prelude.Int.{pos}
use nasdaq_moldudp64_feed_si.BinaryIo.{little}
use nasdaq_moldudp64_feed_si.FileDescriptor.Ownership.{empty}
use nasdaq_moldudp64_feed_si.System.{Kernel, State}
use nasdaq_moldudp64_feed_si.System.Guard.{Constructs}
use nasdaq_moldudp64_feed_si.Downstream.Setup.{Config, construct}
use nasdaq_moldudp64_feed_si.Downstream.Setup.Construct.{construct-Constructs}
use nasdaq_moldudp64_feed_si.Examples.{config, empty_buffer}

-- The n-th call returns n + 3.
abbrev works : Kernel
works calls c = record { result = pos (length calls + 3); errno = 0; address = 16777343 }

-- "239.0.0.1", without loopback.
abbrev cfg : Config
cfg = record {
  mcast_group = 50 ∷ 51 ∷ 57 ∷ 46 ∷ 48 ∷ 46 ∷ 48 ∷ 46 ∷ 49 ∷ [];
  port = 12000;
  ttl = 1;
  loopback = false;
  egress_interface = 0;
  heartbeat_period = pos 1000;
  end_of_session_duration = pos 30000;
  skip_before = pos 0;
}

abbrev initial : State
initial = record { calls = []; world = empty }

construct-Constructs_example :
    Constructs 1 initial (construct little works cfg config [] empty_buffer initial)
construct-Constructs_example =
    construct-Constructs little works cfg config [] empty_buffer initial (λ e. omega (arith, e))
