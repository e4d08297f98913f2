-- ===== src/MemoryMappedFile/Tests.antt =====
-- Tests of src/util/memory_mapped_file.cpp.
use nasdaq_moldudp64_feed_si.Prelude.{◌+◌, ◌≡◌, refl, none, some, [], ◌∷◌, arith}
use nasdaq_moldudp64_feed_si.Prelude.Int.{negsuc}
use nasdaq_moldudp64_feed_si.Prelude.Counting.{count, owned}
use nasdaq_moldudp64_feed_si.Exception.{throws, system_error}
use nasdaq_moldudp64_feed_si.FileDescriptor
use nasdaq_moldudp64_feed_si.FileDescriptor.Ownership
use nasdaq_moldudp64_feed_si.MemoryMappedFile.{
  World, Answers, fails, gives, from_file, map_file, advise, finish, make, moved, move_from,
  move_construct, emptied, closed, destroy_object, destroy, cleanup, unmap,
}
use nasdaq_moldudp64_feed_si.MemoryMappedFile.Ownership.{same, holds}
use nasdaq_moldudp64_feed_si.MemoryMappedFile.Operations.{
  makes, move_constructs, destroys, stop, go, Steps, empty, Steps-mapped,
}
use nasdaq_moldudp64_feed_si.MemoryMappedFile.Failure.{readable, passed, make-leaks}

-- A file of 100 bytes with the descriptor 3, mapped at 4096.
abbrev answers : Answers
answers = record { path = readable 3; file_size = gives 100; mmap = gives 4096; madvise = gives tt }

-- It was mapped, moved, and unmapped by the object that it was moved to.
abbrev after : World
after = record {
  files = record { objects = some (negsuc 0) ∷ none ∷ []; opened = 3 ∷ []; closed = 3 ∷ [] };
  objects = some (record { file = 0; length = 0; mapped_file = none }) ∷ none ∷ [];
  mapped = (4096, 100) ∷ [];
  unmapped = (4096, 100) ∷ [];
}

run-after : Steps empty after
unfolding make from_file map_file advise finish moved move_from move_construct emptied closed
    destroy_object destroy cleanup unmap FileDescriptor.of_path FileDescriptor.adopt
    FileDescriptor.cleanup FileDescriptor.move_construct FileDescriptor.moved FileDescriptor.destroy
    FileDescriptor.destroyed
run-after = go (makes 0 answers refl) (go (move_constructs 0 refl) (go (destroys 1 refl) stop))

Steps-mapped_example :
    (owned same (4096, 100) after.mapped
      ≡ owned same (4096, 100) after.unmapped + owned holds (4096, 100) after.objects)
    × (count 3 after.files.opened
        ≡ count 3 after.files.closed + FileDescriptor.Ownership.owned 3 after.files.objects)
Steps-mapped_example = Steps-mapped (4096, 100) 3 run-after

-- EINVAL.
make-leaks_example : make 7 (record answers { madvise = fails 22 }) empty ≡ (
  throws (system_error 22),
  record empty { files = passed 3 empty.files; mapped = (4096, 100) ∷ empty.mapped },
)
make-leaks_example = make-leaks 3 100 4096 7 22 empty (λ e. omega (arith, e))
