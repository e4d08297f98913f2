-- ===== src/MemoryMappedFile.antt =====
-- include/imr/util/memory_mapped_file.h and src/util/memory_mapped_file.cpp.
-- The objects stand in a list by the order in which they were constructed, `none` after the
-- destructor. The descriptor of an object is one of the objects of FileDescriptor. A mapping is its
-- address and its length: `mapped` has those that `mmap` made, `unmapped` those given to `munmap`.
pub mod Ownership
pub mod Operations
pub mod Failure
pub mod Outcome
mod Tests
use nasdaq_moldudp64_feed_si.Prelude.{
  ℕ, Bool, List, [], ◌∷◌, ◌++◌, length, set, get_elem?, Option, none, some, ◌==◌, if◌then◌else◌,
}
use nasdaq_moldudp64_feed_si.Prelude.Int.{ℤ, pos, negsuc}
use nasdaq_moldudp64_feed_si.Exception.{Exception, Result, ok, throws, undefined, system_error}
use nasdaq_moldudp64_feed_si.FileDescriptor
use nasdaq_moldudp64_feed_si.FileDescriptor.{PathInfo}

-- `fd_` as the index of its object.
pub record MemoryMappedFile : Type 0 where
  pub file : ℕ
  pub length : ℕ
  pub mapped_file : Option ℕ

pub record World : Type 0 where
  pub files : FileDescriptor.World
  pub objects : List (Option MemoryMappedFile)
  pub mapped : List (ℕ × ℕ)
  pub unmapped : List (ℕ × ℕ)

-- A call fails with an errno, or gives a value.
pub data Answer (A : Type 0) : Type 0 where
  fails : ℕ → Answer A
  gives : A → Answer A

-- What the system answers to a constructor: of the path, its size, the address that `mmap` returns,
-- and whether `madvise` succeeds.
pub record Answers : Type 0 where
  pub path : PathInfo
  pub file_size : Answer ℕ
  pub mmap : Answer ℕ
  pub madvise : Answer (Unit {0})

-- An exception leaves the constructor: its member `fd_` is destroyed.
unfoldable pub abandon : ℕ → World → Result FileDescriptor.World → Result (Unit {0}) × World
abandon errno w (ok files) = (throws (system_error errno), record w { files = files })
abandon errno w _ = (undefined, w)

unfoldable pub fail : ℕ → ℕ → World → Result (Unit {0}) × World
unfolding abandon
fail errno file w = abandon errno w (FileDescriptor.destroy file w.files)

-- `madvise`, which is not called with the flags 0.
unfoldable pub finish : ℕ → MemoryMappedFile → Answer (Unit {0}) → World → Result (Unit {0}) × World
unfolding fail
finish file object (fails errno) w = fail errno file w
finish file object (gives _) w = (ok tt, record w { objects = w.objects ++ (some object ∷ []) })

abbrev pub advised : ℕ → Answer (Unit {0}) → Answer (Unit {0})
advised madvise_flags madvise = if madvise_flags == 0 then gives tt else madvise

-- From `mmap` on.
unfoldable pub advise : ℕ → ℕ → ℕ → Answers → Answer ℕ → World → Result (Unit {0}) × World
unfolding finish fail
advise file size madvise_flags a (fails errno) w = fail errno file w
advise file size madvise_flags a (gives address) w =
    finish file (record { file = file; length = size; mapped_file = some address })
      (advised madvise_flags a.madvise) (record w { mapped = (address, size) ∷ w.mapped })

unfoldable pub map_file : ℕ → ℕ → Answers → Answer ℕ → World → Result (Unit {0}) × World
unfolding advise fail
map_file file madvise_flags a (fails errno) w = fail errno file w
map_file file madvise_flags a (gives size) w = advise file size madvise_flags a a.mmap w

unfoldable pub from_file :
    ℕ → Answers → Result FileDescriptor.World → World → Result (Unit {0}) × World
unfolding map_file
from_file madvise_flags a (throws e) w = (throws e, w)
from_file madvise_flags a undefined w = (undefined, w)
from_file madvise_flags a (ok files) w =
    map_file (length w.files.objects) madvise_flags a a.file_size (record w { files = files })

-- The constructor.
unfoldable pub make : ℕ → Answers → World → Result (Unit {0}) × World
unfolding from_file
make madvise_flags a w = from_file madvise_flags a (FileDescriptor.of_path a.path w.files) w

-- `munmap` of the mapping, unless `mapped_file_` is null. `mmap` never returns null.
unfoldable pub unmap : Option ℕ → ℕ → World → World
unmap none size w = w
unmap (some address) size w = record w { unmapped = (address, size) ∷ w.unmapped }

unfoldable pub cleanup : MemoryMappedFile → World → World
unfolding unmap
cleanup object w = unmap object.mapped_file object.length w

-- What a move leaves of the other object.
unfoldable pub emptied : MemoryMappedFile → MemoryMappedFile
emptied object = record object { length = 0; mapped_file = none }

unfoldable pub moved : ℕ → MemoryMappedFile → World → Result FileDescriptor.World → Result World
unfolding emptied
moved other object w (ok files) = ok (record w {
  files = files;
  objects =
      set w.objects other (some (emptied object))
      ++ (some (record object { file = length w.files.objects }) ∷ []);
})
moved other object w _ = undefined

unfoldable pub move_from : ℕ → Option (Option MemoryMappedFile) → World → Result World
unfolding moved
move_from other (some (some object)) w =
    moved other object w (FileDescriptor.move_construct object.file w.files)
move_from other _ w = undefined

unfoldable pub move_construct : ℕ → World → Result World
unfolding move_from
move_construct other w = move_from other (get_elem? w.objects other) w

-- `w` is the state after `cleanup`.
unfoldable pub assigned :
    ℕ → ℕ → MemoryMappedFile → MemoryMappedFile → World → Result FileDescriptor.World → Result World
unfolding emptied
assigned this other old object w (ok files) = ok (record w {
  files = files;
  objects =
      set (set w.objects other (some (emptied object))) this
        (some (record object { file = old.file }));
})
assigned this other old object w _ = undefined

unfoldable pub assign_from :
    ℕ
    → ℕ
    → Option (Option MemoryMappedFile)
    → Option (Option MemoryMappedFile)
    → World
    → Result World
unfolding assigned cleanup
assign_from this other (some (some old)) (some (some object)) w =
    if this == other
    then ok w
    else assigned this other old object (cleanup old w)
        (FileDescriptor.move_assign old.file object.file w.files)
assign_from this other _ _ w = undefined

unfoldable pub move_assign : ℕ → ℕ → World → Result World
unfolding assign_from
move_assign this other w =
    assign_from this other (get_elem? w.objects this) (get_elem? w.objects other) w

unfoldable pub closed : ℕ → World → Result FileDescriptor.World → Result World
closed this w (ok files) = ok (record w { files = files; objects = set w.objects this none })
closed this w _ = undefined

unfoldable pub destroy_object : ℕ → Option (Option MemoryMappedFile) → World → Result World
unfolding closed cleanup
destroy_object this (some (some object)) w =
    closed this (cleanup object w) (FileDescriptor.destroy object.file w.files)
destroy_object this _ w = undefined

-- The destructor: `cleanup`, then that of the member `fd_`.
unfoldable pub destroy : ℕ → World → Result World
unfolding destroy_object
destroy this w = destroy_object this (get_elem? w.objects this) w

-- The address and the length of the span.
as_span : MemoryMappedFile → Option ℕ × ℕ
as_span object = (object.mapped_file, object.length)
