-- ===== src/FileDescriptor/Tests.antt =====
-- Tests of src/util/file_descriptor.cpp.
use nasdaq_moldudp64_feed_si.Prelude.{◌+◌, ◌≡◌, refl, none, some, [], ◌∷◌}
use nasdaq_moldudp64_feed_si.Prelude.Int.{pos, negsuc}
use nasdaq_moldudp64_feed_si.Prelude.Counting.{count}
use nasdaq_moldudp64_feed_si.Exception.{throws, negative_fd}
use nasdaq_moldudp64_feed_si.FileDescriptor.{
  World, adopt, of_fd, of_syscall, cleanup, moved, move_construct, destroyed, destroy,
}
use nasdaq_moldudp64_feed_si.FileDescriptor.Ownership.{
  owned, calls, move_constructs, destroys, stop, go, Steps, empty, Steps-owned,
}

of_fd-negative : of_fd (negsuc 0) empty ≡ throws negative_fd
unfolding of_fd
of_fd-negative = refl

-- Descriptor 5 was created, moved and then closed by the object that it was moved to.
abbrev after : World
after = record { objects = some (negsuc 0) ∷ none ∷ []; opened = 5 ∷ []; closed = 5 ∷ [] }

run-after : Steps empty after
unfolding of_syscall adopt cleanup move_construct moved destroy destroyed
run-after =
    go {w' = record { objects = some (pos 5) ∷ []; opened = 5 ∷ []; closed = [] }}
      (calls (pos 5) 0 refl)
      (go
        {w' = record {
          objects = some (negsuc 0) ∷ some (pos 5) ∷ [];
          opened = 5 ∷ [];
          closed = [];
        }}
        (move_constructs 0 refl) (go (destroys 1 refl) stop))

Steps-owned_example : count 5 after.opened ≡ count 5 after.closed + owned 5 after.objects
Steps-owned_example = Steps-owned 5 run-after
