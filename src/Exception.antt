-- ===== src/Exception.antt =====
-- What the constructors of the library throw, and the outcome of a call that may throw.
-- An exception is named for the check that throws it; `std::system_error` carries its errno.
use nasdaq_moldudp64_feed_si.Prelude.{ℕ}

pub data Exception : Type 0 where
  mtu_too_small session_not_ten_characters buffer_size_zero : Exception
  negative_fd path_not_a_file invalid_address invalid_shutdown_fd : Exception
  system_error : ℕ → Exception

-- `undefined` is no C++ outcome: the behaviour of the program is undefined from there on.
pub data Result {ℓ} (A : Type ℓ) : Type ℓ where
  ok : A → Result A
  throws : Exception → Result A
  undefined : Result A

infixl 5 ◌>>=◌
abbrev pub ◌>>=◌ {ℓ κ} : {A : Type ℓ} {B : Type κ} → Result A → (A → Result B) → Result B
ok a >>= f = f a
throws e >>= f = throws e
undefined >>= f = undefined
