-- ===== src/ZstringView.antt =====
-- include/imr/util/zstring_view.h.
-- A pointer to characters is the list of the bytes from there on.
pub mod Termination
mod Tests
use mathlib.Core.Option.{map}
use nasdaq_moldudp64_feed_si.Prelude.{
  ℕ, suc, Bool, List, [], ◌∷◌, ◌++◌, length, take, Option, none, some, ◌==◌, if◌then◌else◌,
}

-- The length of a C string; none if no NUL ends it.
unfoldable pub strlen : List ℕ → Option ℕ
strlen [] = none
strlen (c ∷ cs) = let rest = strlen cs in if c == 0 then some 0 else map suc rest

-- `sv_`: where it starts, and its length.
pub record ZstringView : Type 0 where
  pub memory : List ℕ
  pub length_of_view : ℕ

-- `zstring_view(const char*)`. `std::string_view` looks for the NUL; without one the behaviour is
-- undefined.
unfoldable pub of_c_str : List ℕ → Option ZstringView
unfolding strlen
of_c_str str = map (λ n. record { memory = str; length_of_view = n }) (strlen str)

-- `zstring_view(const std::string&)`: the characters of a `std::string` have a NUL behind them.
unfoldable pub of_string : List ℕ → ZstringView
of_string str = record { memory = str ++ (0 ∷ []); length_of_view = length str }

abbrev pub c_str : ZstringView → List ℕ
c_str z = z.memory

abbrev pub sv : ZstringView → List ℕ
sv z = take z.length_of_view z.memory

abbrev pub data_of : ZstringView → List ℕ
data_of z = z.memory

abbrev pub size : ZstringView → ℕ
size z = z.length_of_view

abbrev pub empty : ZstringView → Bool
empty z = size z == 0

-- `operator std::string_view`.
abbrev pub to_string_view : ZstringView → List ℕ
to_string_view z = sv z
