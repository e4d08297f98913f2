-- ===== src/MemoryMappedFile/Failure.antt =====
-- The constructor when `madvise` fails.
use nasdaq_moldudp64_feed_si.Prelude.{
  ℕ, ◌≡◌, ◌≢◌, ap, ◌∙◌, true, false, [], ◌∷◌, ◌++◌, length, get_elem?-behind, set-behind, none,
  some, ◌==◌, if◌then◌else◌, arith,
}
use nasdaq_moldudp64_feed_si.Prelude.Int.{pos}
use nasdaq_moldudp64_feed_si.Exception.{ok, throws, system_error}
use nasdaq_moldudp64_feed_si.FileDescriptor
use nasdaq_moldudp64_feed_si.MemoryMappedFile.{
  World, Answers, fails, gives, abandon, fail, finish, advise, map_file, from_file, make,
}

-- A file that opens.
abbrev pub readable : ℕ → FileDescriptor.PathInfo
readable fd = record { exists = true; is_directory = false; open_result = pos fd; errno = 0 }

of_path-readable :
    (fd : ℕ) (w : FileDescriptor.World)
    → FileDescriptor.of_path (readable fd) w ≡ ok (FileDescriptor.adopt (pos fd) w)
unfolding FileDescriptor.of_path
of_path-readable fd w = ground arith

-- What is left of a descriptor object that was adopted and destroyed.
abbrev pub passed : ℕ → FileDescriptor.World → FileDescriptor.World
passed fd w = record {
  objects = w.objects ++ (none ∷ []);
  opened = fd ∷ w.opened;
  closed = fd ∷ w.closed;
}

pub destroy-adopt :
    (fd : ℕ) (w : FileDescriptor.World)
    → FileDescriptor.destroy (length w.objects) (FileDescriptor.adopt (pos fd) w) ≡ ok (passed fd w)
unfolding FileDescriptor.destroy FileDescriptor.destroyed FileDescriptor.adopt
    FileDescriptor.cleanup
destroy-adopt fd w =
    ap (λ o. FileDescriptor.destroyed (length w.objects) o (FileDescriptor.adopt (pos fd) w))
      (get_elem?-behind w.objects [] (some (pos fd)))
    ∙ ap (λ os. ok (record { objects = os; opened = fd ∷ w.opened; closed = fd ∷ w.closed }))
        (set-behind w.objects [] (some (pos fd)) none)

-- When everything but `madvise` succeeds, the constructor throws what `madvise` reports and closes
-- the descriptor, but the new mapping is never unmapped, and no object owns it.
pub make-leaks :
    (fd size address madvise_flags errno : ℕ) (w : World)
    → madvise_flags ≢ 0
    → make madvise_flags
        (record {
          path = readable fd;
          file_size = gives size;
          mmap = gives address;
          madvise = fails errno;
        })
        w
      ≡ (
        throws (system_error errno),
        record w { files = passed fd w.files; mapped = (address, size) ∷ w.mapped },
      )
unfolding make from_file map_file advise finish fail abandon
make-leaks fd size address madvise_flags errno w h =
    ap (λ r. from_file madvise_flags a r w) (of_path-readable fd w.files)
    ∙ ap
        (λ t.
          finish n (record { file = n; length = size; mapped_file = some address })
            (if t then gives tt else fails errno) left)
        advises
    ∙ ap (abandon errno left) (destroy-adopt fd w.files)
  where
    n : ℕ
    n = length w.files.objects

    a : Answers
    a = record {
      path = readable fd;
      file_size = gives size;
      mmap = gives address;
      madvise = fails errno;
    }

    left : World
    left = record w {
      files = FileDescriptor.adopt (pos fd) w.files;
      mapped = (address, size) ∷ w.mapped;
    }

    advises : madvise_flags == 0 ≡ false
    advises = ground arith
