-- ===== src/MemoryMappedFile/Ownership.antt =====
-- Every mapping is owned by one object or was unmapped once, and every descriptor behind a mapping
-- is open in one object or was closed once.
use nasdaq_moldudp64_feed_si.Prelude.{
  ℕ, ◌+◌, ◌≡◌, refl, sym, subst, [], ◌∷◌, ◌++◌, length, Option, none, some, ◌==◌, if◌then◌else◌,
  arith,
}
use nasdaq_moldudp64_feed_si.Prelude.Counting.{one, owned, owned-append}
use nasdaq_moldudp64_feed_si.Exception.{Result, ok, throws, undefined}
use nasdaq_moldudp64_feed_si.FileDescriptor
use nasdaq_moldudp64_feed_si.FileDescriptor.Ownership
use nasdaq_moldudp64_feed_si.MemoryMappedFile.{
  MemoryMappedFile, World, Answer, Answers, fails, gives, advised, abandon, fail, finish, advise,
  map_file, from_file,
}

-- Whether two mappings have the same address and the same length.
abbrev pub same : ℕ × ℕ → ℕ × ℕ → ℕ
same (a, n) (b, m) = if a == b then one n m else 0

abbrev pub holds_mapping : ℕ × ℕ → Option ℕ → ℕ → ℕ
holds_mapping x none n = 0
holds_mapping x (some address) n = same x (address, n)

abbrev pub holds : ℕ × ℕ → Option MemoryMappedFile → ℕ
holds x none = 0
holds x (some object) = holds_mapping x object.mapped_file object.length

abbrev pub IsBalanced : World → Type 0
IsBalanced w =
    ((x : ℕ × ℕ) → owned same x w.mapped ≡ owned same x w.unmapped + owned holds x w.objects)
    × FileDescriptor.Ownership.IsBalanced w.files

abandon-IsBalanced :
    (errno : ℕ) (w : World) (r : Result FileDescriptor.World)
    → ((files : FileDescriptor.World) → r ≡ ok files → FileDescriptor.Ownership.IsBalanced files)
    → IsBalanced w
    → IsBalanced (abandon errno w r).1
unfolding abandon
abandon-IsBalanced errno w (ok files) f b = (b.0, f files refl)
abandon-IsBalanced errno w (throws e') f b = b
abandon-IsBalanced errno w undefined f b = b

fail-IsBalanced : (errno file : ℕ) (w : World) → IsBalanced w → IsBalanced (fail errno file w).1
unfolding fail
fail-IsBalanced errno file w b =
    abandon-IsBalanced errno w (FileDescriptor.destroy file w.files)
      (λ files eq.
        FileDescriptor.Ownership.Step-IsBalanced (FileDescriptor.Ownership.destroys file eq) b.1)
      b

finish-IsBalanced :
    (file size address madvise_flags : ℕ) (a : Answer (Unit {0})) (w : World)
    → advised madvise_flags a ≡ gives tt
    → IsBalanced w
    → IsBalanced
        (finish file
          (record { file = file; length = size; mapped_file = some address })
          (advised madvise_flags a)
          (record w { mapped = (address, size) ∷ w.mapped })).1
unfolding finish
finish-IsBalanced file size address madvise_flags a w h b =
    subst
      (λ r. IsBalanced (finish file object r (record w { mapped = (address, size) ∷ w.mapped })).1)
      (sym h) (kept, b.1)
  where
    object : MemoryMappedFile
    object = record { file = file; length = size; mapped_file = some address }

    kept :
        (x : ℕ × ℕ)
        → same x (address, size) + owned same x w.mapped
          ≡ owned same x w.unmapped + owned holds x (w.objects ++ (some object ∷ []))
    kept x = omega (arith, b.0 x, owned-append holds x w.objects (some object))

advise-IsBalanced :
    (file size madvise_flags : ℕ) (a : Answers) (r : Answer ℕ) (w : World)
    → advised madvise_flags a.madvise ≡ gives tt
    → IsBalanced w
    → IsBalanced (advise file size madvise_flags a r w).1
unfolding advise
advise-IsBalanced file size madvise_flags a (fails errno) w h b = fail-IsBalanced errno file w b
advise-IsBalanced file size madvise_flags a (gives address) w h b =
    finish-IsBalanced file size address madvise_flags a.madvise w h b

map_file-IsBalanced :
    (file madvise_flags : ℕ) (a : Answers) (r : Answer ℕ) (w : World)
    → advised madvise_flags a.madvise ≡ gives tt
    → IsBalanced w
    → IsBalanced (map_file file madvise_flags a r w).1
unfolding map_file
map_file-IsBalanced file madvise_flags a (fails errno) w h b = fail-IsBalanced errno file w b
map_file-IsBalanced file madvise_flags a (gives size) w h b =
    advise-IsBalanced file size madvise_flags a a.mmap w h b

pub from_file-IsBalanced :
    (madvise_flags : ℕ) (a : Answers) (r : Result FileDescriptor.World) (w : World)
    → FileDescriptor.of_path a.path w.files ≡ r
    → advised madvise_flags a.madvise ≡ gives tt
    → IsBalanced w
    → IsBalanced (from_file madvise_flags a r w).1
unfolding from_file
from_file-IsBalanced madvise_flags a (throws e) w eq h b = b
from_file-IsBalanced madvise_flags a undefined w eq h b = b
from_file-IsBalanced madvise_flags a (ok files) w eq h b =
    map_file-IsBalanced (length w.files.objects) madvise_flags a a.file_size
      (record w { files = files }) h
      (
        b.0,
        FileDescriptor.Ownership.Step-IsBalanced (FileDescriptor.Ownership.opens_path a.path eq)
            b.1,
      )
