-- ===== src/Log.antt =====
-- include/imr/util/log.h.
-- A text is the list of its bytes. `isatty` and `strerror` are parameters: the terminal that a stream
-- stands for, and the message of an errno. Of `std::format` the code uses `{}` with texts.
pub mod Lines
mod Tests
use Prim.Native.Char.{code}
use Prim.Native.String.{String}
use nasdaq_moldudp64_feed_si.Prelude.{
  ℕ, Bool, not, ◌&&◌, false, List, [], ◌∷◌, ◌++◌, Option, none, some, ◌==◌, if◌then◌else◌,
}
use nasdaq_moldudp64_feed_si.Prelude.Int.{ℤ, pos, leb_ℤ}

abbrev pub bytes_of : String → List ℕ
bytes_of String.[] = []
bytes_of (String.◌∷◌ c s) = code c ∷ bytes_of s

-- `std::FILE*`.
pub data Stream : Type 0 where
  stdout stderr : Stream

-- What was printed, in order.
abbrev pub Output : Type 0
Output = List (Stream × List ℕ)

-- `IMR_LOG_LEVEL`, if the build defines it.
abbrev pub level : Option ℤ → ℤ
level none = pos 0
level (some n) = n

-- The escape sequences of the colours.
abbrev pub escape : ℕ
escape = 27

abbrev pub color_error : List ℕ
color_error = escape ∷ bytes_of "[1;31m"

abbrev pub color_warn : List ℕ
color_warn = escape ∷ bytes_of "[1;33m"

abbrev pub color_info : List ℕ
color_info = escape ∷ bytes_of "[36m"

abbrev pub color_debug : List ℕ
color_debug = escape ∷ bytes_of "[35m"

abbrev pub color_off : List ℕ
color_off = escape ∷ bytes_of "[0m"

pub head_of : List (List ℕ) → List ℕ
head_of [] = []
head_of (arg ∷ args) = arg

pub tail_of : List (List ℕ) → List (List ℕ)
tail_of [] = []
tail_of (arg ∷ args) = args

-- `std::format`: each `{}` is the next argument. `opened`: behind a `{`, whose `}` the compiler has
-- checked.
unfoldable pub format_from : Bool → List ℕ → List (List ℕ) → List ℕ
unfolding head_of tail_of
format_from opened [] args = []
format_from opened (c ∷ fmt) args =
    let rest = format_from (not opened && c == b'{') fmt (if opened then tail_of args else args) in
    if opened then head_of args ++ rest else if c == b'{' then rest else c ∷ rest

unfoldable pub format : List ℕ → List (List ℕ) → List ℕ
unfolding format_from
format fmt args = format_from false fmt args

module _ (isatty : Stream → Bool) where
  -- `std::print` of the prefix, and `std::println`.
  unfoldable pub base : Stream → List ℕ → List ℕ → List ℕ → List (List ℕ) → Output → Output
  unfolding format
  base stream tag color fmt args out =
      let prefix =
        if isatty stream
        then format (bytes_of "{}[imr:{}]" ++ color_off ++ bytes_of " ") (color ∷ tag ∷ [])
        else format (bytes_of "[imr:{}] ") (tag ∷ []) in
      out ++ ((stream, prefix) ∷ (stream, format fmt args ++ (b'\n' ∷ [])) ∷ [])

  module _ (level : ℤ) where
    unfoldable pub error : List ℕ → List (List ℕ) → Output → Output
    unfolding base
    error fmt args out =
        if leb_ℤ (pos 0) level then base stderr (bytes_of "error") color_error fmt args out else out

    unfoldable pub perror : (ℕ → List ℕ) → List ℕ → ℕ → Output → Output
    unfolding error
    perror strerror function_name errno out =
        if leb_ℤ (pos 0) level
        then error (bytes_of "{}: {}") (function_name ∷ strerror errno ∷ []) out
        else out

    unfoldable pub warn : List ℕ → List (List ℕ) → Output → Output
    unfolding base
    warn fmt args out =
        if leb_ℤ (pos 1) level then base stdout (bytes_of "warn") color_warn fmt args out else out

    unfoldable pub info : List ℕ → List (List ℕ) → Output → Output
    unfolding base
    info fmt args out =
        if leb_ℤ (pos 2) level then base stdout (bytes_of "info") color_info fmt args out else out

    unfoldable pub debug : List ℕ → List (List ℕ) → Output → Output
    unfolding base
    debug fmt args out =
        if leb_ℤ (pos 3) level then base stdout (bytes_of "debug") color_debug fmt args out else out

    -- `debug()`, which prints where it was called.
    unfoldable pub debug_location : List ℕ → Output → Output
    unfolding debug
    debug_location function_name out =
        if leb_ℤ (pos 3) level then debug (bytes_of "{}") (function_name ∷ []) out else out
