-- ===== src/Server/Setup/Tests.antt =====
-- Tests of `make_server`.
use nasdaq_moldudp64_feed_si.Prelude.{
  ◌+◌, ◌≡◌, refl, zero, suc, none, some, [], ◌∷◌, length, false, arith,
}
use nasdaq_moldudp64_feed_si.Prelude.Int.{pos, negsuc}
use nasdaq_moldudp64_feed_si.BinaryIo.{little}
use nasdaq_moldudp64_feed_si.MemoryMappedFile.{Answers, gives}
use nasdaq_moldudp64_feed_si.MemoryMappedFile.Ownership.{IsBalanced}
use nasdaq_moldudp64_feed_si.MemoryMappedFile.Operations.{empty}
use nasdaq_moldudp64_feed_si.MemoryMappedFile.Failure.{readable}
use nasdaq_moldudp64_feed_si.System.{create_event, Kernel}
use nasdaq_moldudp64_feed_si.Server.{default_num_retransmission_feeds}
use nasdaq_moldudp64_feed_si.Server.Setup.{Config, Spawn, Machine, make_server}
use nasdaq_moldudp64_feed_si.Server.Setup.Answer.{
  Answered, make_server-Answered, make_server-IsBalanced,
}
use nasdaq_moldudp64_feed_si.Examples.{config}

-- The n-th call returns n + 3, but there are no event descriptors: EMFILE.
abbrev few_descriptors : Kernel
few_descriptors calls create_event = record { result = negsuc 0; errno = 24; address = 0 }
few_descriptors calls c = record { result = pos (length calls + 4); errno = 0; address = 16777343 }

abbrev answers : Answers
answers = record { path = readable 3; file_size = gives 100; mmap = gives 4096; madvise = gives tt }

abbrev cfg : Config
cfg = record {
  madvise_flags = 0;
  packet_builder_cfg = config;
  downstream_feed_config = record {
    mcast_group = 50 ∷ 51 ∷ 57 ∷ 46 ∷ 48 ∷ 46 ∷ 48 ∷ 46 ∷ 49 ∷ [];
    port = 12000;
    ttl = 1;
    loopback = false;
    egress_interface = 0;
    heartbeat_period = pos 1000;
    end_of_session_duration = pos 30000;
    skip_before = pos 0;
  };
  retransmission_buffer_size = 4;
  num_retransmission_feeds = default_num_retransmission_feeds 4;
}

abbrev machine : Machine
machine = record { calls = []; mappings = empty }

-- The n-th call returns n + 4.
abbrev willing : Kernel
willing calls c = record { result = pos (length calls + 4); errno = 0; address = 16777343 }

-- One thread, and no more: EAGAIN.
abbrev one_thread : Spawn
one_thread zero = none
one_thread (suc n) = some 11

make_server-Answered_example :
    Answered one_thread 3 machine (make_server little willing one_thread cfg answers [] machine)
unfolding default_num_retransmission_feeds
make_server-Answered_example =
    make_server-Answered little willing one_thread cfg answers [] machine (λ e. omega (arith, e))

make_server-IsBalanced_example :
    IsBalanced (make_server little few_descriptors one_thread cfg answers [] machine).1.mappings
make_server-IsBalanced_example =
    make_server-IsBalanced little few_descriptors one_thread cfg answers [] machine
      (λ e. omega (arith, e)) refl ((λ x. refl), (λ x. refl))

-- Four hardware threads, and a number that cannot be told.
default_of_four : default_num_retransmission_feeds 4 ≡ 3
unfolding default_num_retransmission_feeds
default_of_four = refl

default_of_none : default_num_retransmission_feeds 0 ≡ 4294967295
unfolding default_num_retransmission_feeds
default_of_none = refl
