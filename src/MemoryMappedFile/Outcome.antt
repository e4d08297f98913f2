-- ===== src/MemoryMappedFile/Outcome.antt =====
-- What the constructor leaves, when it returns and when it throws.
use nasdaq_moldudp64_feed_si.Prelude.{
  ℕ, ◌≡◌, refl, sym, subst, Bool, true, false, not, ◌||◌, List, [], ◌∷◌, ◌++◌, length, append-nil,
  none, some, if◌then◌else◌, ◌⊎◌, inl, inr, arith,
}
use nasdaq_moldudp64_feed_si.Prelude.Int.{ℤ, pos, negsuc, ltb_ℤ}
use nasdaq_moldudp64_feed_si.Exception.{
  Exception, Result, ok, throws, undefined, path_not_a_file, system_error,
}
use nasdaq_moldudp64_feed_si.FileDescriptor
use nasdaq_moldudp64_feed_si.FileDescriptor.{PathInfo, adopt}
use nasdaq_moldudp64_feed_si.FileDescriptor.Ownership.{adopt-IsBalanced, Step-IsBalanced, destroys}
use nasdaq_moldudp64_feed_si.System.Guard.{IsClosed, Adds}
use nasdaq_moldudp64_feed_si.MemoryMappedFile.{
  MemoryMappedFile, World, Answer, Answers, fails, gives, advised, abandon, fail, finish, advise,
  map_file, from_file, make,
}
use nasdaq_moldudp64_feed_si.MemoryMappedFile.Failure.{passed, destroy-adopt}

-- The new object with the descriptor `fd`, behind the others.
pub record Makes (w w' : World) : Type 0 where
  pub fd : ℕ
  pub adopts : w'.files ≡ adopt (pos fd) w.files
  pub object : MemoryMappedFile
  pub file : object.file ≡ length w.files.objects
  pub address : ℕ
  pub mapped_file : object.mapped_file ≡ some address
  pub behind : w'.objects ≡ w.objects ++ (some object ∷ [])

-- No new object, and any new descriptor closed.
pub record Abandons (w w' : World) : Type 0 where
  pub descriptors : ℕ
  pub files : Adds w.files w'.files descriptors IsClosed
  pub objects : w'.objects ≡ w.objects

abbrev pub Made : World → Result (Unit {0}) × World → Type 0
Made w (ok _, w') = Makes w w'
Made w (throws e, w') = Abandons w w'
Made w (undefined, w') = ⊥

of_path-cases :
    (path : PathInfo) (w : FileDescriptor.World)
    → ((e : Exception) × (FileDescriptor.of_path path w ≡ throws e))
      ⊎ ((fd : ℕ) × (FileDescriptor.of_path path w ≡ ok (adopt (pos fd) w)))
unfolding FileDescriptor.of_path
of_path-cases path w = by_checks (not path.exists || path.is_directory) path.open_result
  where
    checked : Bool → ℤ → Result FileDescriptor.World
    checked bad result =
        if bad
        then throws path_not_a_file
        else if ltb_ℤ result (pos 0)
        then throws (system_error path.errno)
        else ok (adopt result w)

    by_checks :
        (bad : Bool) (result : ℤ)
        → ((e : Exception) × (checked bad result ≡ throws e))
          ⊎ ((fd : ℕ) × (checked bad result ≡ ok (adopt (pos fd) w)))
    by_checks true result = inl (path_not_a_file, refl)
    by_checks false (pos fd) = inr (fd, ground arith)
    by_checks false (negsuc n) = inl (system_error path.errno, ground arith)

passed-Adds : (fd : ℕ) (w : FileDescriptor.World) → Adds w (passed fd w) 1 IsClosed
passed-Adds fd w = record {
  new = none ∷ [];
  as_many = refl;
  behind = refl;
  each = (refl, tt);
  balanced = λ b.
      Step-IsBalanced (destroys (length w.objects) (destroy-adopt fd w))
        (adopt-IsBalanced (pos fd) w b);
}

module _ (w : World) (fd : ℕ) where
  -- While the constructor runs, whatever was mapped.
  abbrev begun : List (ℕ × ℕ) → World
  begun mapped = record w { files = adopt (pos fd) w.files; mapped = mapped }

  fail-Made :
      (errno : ℕ) (mapped : List (ℕ × ℕ))
      → Made w (fail errno (length w.files.objects) (begun mapped))
  unfolding fail abandon
  fail-Made errno mapped =
      subst (λ r. Made w (abandon errno (begun mapped) r)) (sym (destroy-adopt fd w.files))
        (record { descriptors = 1; files = passed-Adds fd w.files; objects = refl })

  finish-Made :
      (address size : ℕ) (madvise : Answer (Unit {0})) (mapped : List (ℕ × ℕ))
      → Made w (
          finish
            (length w.files.objects)
            (record { file = length w.files.objects; length = size; mapped_file = some address })
            madvise
            (begun mapped))
  unfolding finish
  finish-Made address size (fails errno) mapped = fail-Made errno mapped
  finish-Made address size (gives u) mapped = record {
    fd = fd;
    adopts = refl;
    object = record { file = length w.files.objects; length = size; mapped_file = some address };
    file = refl;
    address = address;
    mapped_file = refl;
    behind = refl;
  }

  advise-Made :
      (size madvise_flags : ℕ) (a : Answers) (mmap : Answer ℕ)
      → Made w (advise (length w.files.objects) size madvise_flags a mmap (begun w.mapped))
  unfolding advise
  advise-Made size madvise_flags a (fails errno) = fail-Made errno w.mapped
  advise-Made size madvise_flags a (gives address) =
      finish-Made address size (advised madvise_flags a.madvise) ((address, size) ∷ w.mapped)

  map_file-Made :
      (madvise_flags : ℕ) (a : Answers) (file_size : Answer ℕ)
      → Made w (map_file (length w.files.objects) madvise_flags a file_size (begun w.mapped))
  unfolding map_file
  map_file-Made madvise_flags a (fails errno) = fail-Made errno w.mapped
  map_file-Made madvise_flags a (gives size) = advise-Made size madvise_flags a a.mmap

-- The constructor returns with a new object that owns a mapping and the descriptor that it opened, or
-- throws with no new object and that descriptor, if it was opened, closed.
pub make-Made : (madvise_flags : ℕ) (a : Answers) (w : World) → Made w (make madvise_flags a w)
unfolding make from_file
make-Made madvise_flags a w = elim (of_path-cases a.path w.files) [
  | inl (e, eq) ↦
      subst (λ r. Made w (from_file madvise_flags a r w)) (sym eq)
        (record {
          descriptors = 0;
          files = record {
            new = [];
            as_many = refl;
            behind = sym (append-nil w.files.objects);
            each = tt;
            balanced = λ b. b;
          };
          objects = refl;
        })
  | inr (fd, eq) ↦
      subst (λ r. Made w (from_file madvise_flags a r w)) (sym eq)
        (map_file-Made w fd madvise_flags a a.file_size)
]
