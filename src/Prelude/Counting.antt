-- ===== src/Prelude/Counting.antt =====
-- How often a number stands in a list, and how many objects of a store own it.
use Prim.Native.Nat.{ℕ, zero, suc, ◌+◌}
use mathlib.Core.Path.{◌≡◌, ap}
use mathlib.Core.List.{List, [], ◌∷◌, ◌++◌}
use mathlib.Core.Option.{Option, none, some}
use native.Mathlib.Omega.{arith}
use nasdaq_moldudp64_feed_si.Prelude.Tests.{◌==◌, if◌then◌else◌}
use nasdaq_moldudp64_feed_si.Prelude.Lists.{get_elem?, set}

abbrev pub one : ℕ → ℕ → ℕ
one x y = if x == y then 1 else 0

abbrev pub count : ℕ → List ℕ → ℕ
count x [] = 0
count x (y ∷ ys) = one x y + count x ys

-- `holds x o`: how often the object `o` owns `x`.
module _ {K A : Type 0} (holds : K → A → ℕ) where
  abbrev pub owned : K → List A → ℕ
  owned x [] = 0
  owned x (o ∷ os) = holds x o + owned x os

  pub owned-append :
      (x : K) (os : List A) (o : A) → owned x (os ++ (o ∷ [])) ≡ owned x os + holds x o
  owned-append x [] o = omega arith
  owned-append x (p ∷ os) o = omega (arith, owned-append x os o)

  held_in : K → Option A → ℕ
  held_in x none = 0
  held_in x (some o) = holds x o

  pub owned-set :
      (x : K) (os : List A) (i : ℕ) (o o' : A)
      → get_elem? os i ≡ some o
      → owned x (set os i o') + holds x o ≡ owned x os + holds x o'
  unfolding held_in
  owned-set x [] i o o' e = cc
  owned-set x (p ∷ os) zero o o' e = omega (arith, ap (held_in x) e)
  owned-set x (p ∷ os) (suc i) o o' e = omega (arith, owned-set x os i o o' e)
