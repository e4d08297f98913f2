-- ===== src/FileDescriptor.antt =====
-- include/imr/util/file_descriptor.h and src/util/file_descriptor.cpp.
-- The objects stand in a list by the order in which they were constructed: `some fd_`, or `none`
-- after the destructor. A descriptor that an object gets is added to `opened`, and one that the
-- object closes to `closed`.
pub mod Ownership
mod Tests
use nasdaq_moldudp64_feed_si.Prelude.{
  ℕ, Bool, not, ◌||◌, List, [], ◌∷◌, ◌++◌, set, get_elem?, Option, none, some, ◌==◌, if◌then◌else◌,
}
use nasdaq_moldudp64_feed_si.Prelude.Int.{ℤ, pos, negsuc, ltb_ℤ}
use nasdaq_moldudp64_feed_si.Exception.{
  Result, ok, throws, undefined, negative_fd, path_not_a_file, system_error,
}

pub record World : Type 0 where
  pub objects : List (Option ℤ)
  pub opened : List ℕ
  pub closed : List ℕ

-- What the system says of a path: whether it exists, whether it is a directory, what `open` returns,
-- and the errno.
pub record PathInfo : Type 0 where
  pub exists : Bool
  pub is_directory : Bool
  pub open_result : ℤ
  pub errno : ℕ

-- A new object that takes a descriptor over.
unfoldable pub adopt : ℤ → World → World
adopt (pos fd) w = record w { objects = w.objects ++ (some (pos fd) ∷ []); opened = fd ∷ w.opened }
adopt (negsuc n) w = record w { objects = w.objects ++ (some (negsuc n) ∷ []) }

-- The default constructor.
unfoldable pub construct : World → World
unfolding adopt
construct w = adopt (negsuc 0) w

unfoldable pub of_fd : ℤ → World → Result World
of_fd fd w = if ltb_ℤ fd (pos 0) then throws negative_fd else ok (adopt fd w)

unfoldable pub of_path : PathInfo → World → Result World
of_path path w =
    if not path.exists || path.is_directory
    then throws path_not_a_file
    else if ltb_ℤ path.open_result (pos 0)
    then throws (system_error path.errno)
    else ok (adopt path.open_result w)

-- `syscall` returns `result`, and sets `errno` if that is negative.
unfoldable pub of_syscall : ℤ → ℕ → World → Result World
of_syscall result errno w =
    if ltb_ℤ result (pos 0) then throws (system_error errno) else ok (adopt result w)

-- `cleanup` on an object whose `fd_` is given.
unfoldable pub cleanup : ℤ → World → World
cleanup (pos fd) w = record w { closed = fd ∷ w.closed }
cleanup (negsuc n) w = w

-- `get` on an object that may not be alive.
unfoldable pub get : Option (Option ℤ) → ℤ
get (some (some fd)) = fd
get _ = negsuc 0

-- An object that is not alive is not to be used.
unfoldable pub moved : Option (Option ℤ) → ℕ → World → Result World
moved (some (some fd)) other w =
    ok (record w { objects = set w.objects other (some (negsuc 0)) ++ (some fd ∷ []) })
moved _ other w = undefined

unfoldable pub move_construct : ℕ → World → Result World
unfolding moved
move_construct other w = moved (get_elem? w.objects other) other w

unfoldable pub assigned : ℕ → ℕ → Option (Option ℤ) → Option (Option ℤ) → World → Result World
unfolding cleanup
assigned this other (some (some old)) (some (some fd)) w =
    if this == other
    then ok w
    else (let w' = cleanup old w in
        ok (record w' { objects = set (set w'.objects other (some (negsuc 0))) this (some fd) }))
assigned this other _ _ w = undefined

unfoldable pub move_assign : ℕ → ℕ → World → Result World
unfolding assigned
move_assign this other w =
    assigned this other (get_elem? w.objects this) (get_elem? w.objects other) w

unfoldable pub destroyed : ℕ → Option (Option ℤ) → World → Result World
unfolding cleanup
destroyed this (some (some fd)) w =
    let w' = cleanup fd w in ok (record w' { objects = set w'.objects this none })
destroyed this _ w = undefined

unfoldable pub destroy : ℕ → World → Result World
unfolding destroyed
destroy this w = destroyed this (get_elem? w.objects this) w
