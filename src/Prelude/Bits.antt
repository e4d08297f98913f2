-- ===== src/Prelude/Bits.antt =====
-- `seq & (size - 1)` as a remainder, for a power-of-two `size`.
use Prim.Native.Nat.{ℕ, zero, suc, ◌+◌, ◌-◌, ◌*◌, ◌/◌, ◌%◌, ◌≤◌, ◌<◌}
use native.Mathlib.Nat.{mul-add-mod_self_left, mod-eq_of_lt, mod-lt, div-add-mod}
use native.Mathlib.Decide.{ℕ_discrete}
use Prim.Native.Nat.{min, bit_and, digits, bit_and-bitwise}
use mathlib.Core.Path.{◌≡◌, refl, ap, ◌∙◌}
use mathlib.Core.Logic.{◌≢◌}
use native.Mathlib.Omega.{arith}

-- What `bit_and` stands for: the digits combined, one round of fuel for each.
abbrev combine : ℕ → ℕ → ℕ → ℕ
combine fuel a b = digits (λ d. zero) min fuel a b

-- More fuel than digits changes nothing.
combine_more : (f g a b : ℕ) → a ≤ f → a ≤ g → combine f a b ≡ combine g a b
combine_more zero zero zero b p q = refl
combine_more zero (suc g) zero b p q = refl
combine_more (suc f) zero zero b p q = refl
combine_more (suc f) (suc g) zero b p q = refl
combine_more zero g (suc a) b p q = absurd (omega arith)
combine_more (suc f) zero (suc a) b p q = absurd (omega arith)
combine_more (suc f) (suc g) (suc a) b p q =
    omega (arith, combine_more f g (suc a / 2) (b / 2) (omega arith) (omega arith))

-- `&` digit by digit.
pub bit_and_halves : (a b : ℕ) → bit_and a b ≡ 2 * bit_and (a / 2) (b / 2) + min (a % 2) (b % 2)
bit_and_halves zero b = omega (arith, bit_and-bitwise 0 b, bit_and-bitwise 0 (b / 2))
bit_and_halves (suc a) b = omega (
  arith,
  bit_and-bitwise (suc a) b,
  bit_and-bitwise (suc a / 2) (b / 2),
  combine_more a (suc a / 2) (suc a / 2) (b / 2) (omega arith) (omega arith),
)

bit_and-zero_below : (k a : ℕ) → a < k → bit_and a 0 ≡ 0
bit_and-zero_below zero a h = absurd (omega arith)
bit_and-zero_below (suc k) zero h = refl
bit_and-zero_below (suc k) (suc a) h =
    omega (arith, bit_and_halves (suc a) 0, bit_and-zero_below k (suc a / 2) (omega arith))

bit_and_self_below : (k a : ℕ) → a < k → bit_and a a ≡ a
bit_and_self_below zero a h = absurd (omega arith)
bit_and_self_below (suc k) zero h = refl
bit_and_self_below (suc k) (suc a) h =
    omega (arith, bit_and_halves (suc a) (suc a), bit_and_self_below k (suc a / 2) (omega arith))

-- The remainder by an even number, from the remainder of the half.
mod_halves : (s m : ℕ) → 0 < m → s % (2 * m) ≡ 2 * (s / 2 % m) + s % 2
mod_halves s m h =
    ap (λ x. x % (2 * m)) split
    ∙ mul-add-mod_self_left (2 * m) (s / 2 / m) (2 * (s / 2 % m) + s % 2)
    ∙ mod-eq_of_lt (omega (arith, mod-lt (s / 2) h))
  where
    split : s ≡ 2 * m * (s / 2 / m) + (2 * (s / 2 % m) + s % 2)
    split = omega (arith, ap (λ (t : ℕ). 2 * t) (div-add-mod (s / 2) m))

-- An odd `n` and `n - 1` share every bit of `n` but the lowest.
odd_shares : (n : ℕ) → n % 2 ≡ 1 → bit_and n (n - 1) ≡ 2 * (n / 2)
odd_shares n odd = omega (
  arith,
  bit_and_halves n (n - 1),
  ap (λ (t : ℕ). bit_and (n / 2) t) half,
  bit_and_self_below (suc (n / 2)) (n / 2) (omega arith),
)
  where
    half : (n - 1) / 2 ≡ n / 2
    half = omega arith

-- One round for an even `n`: both the test and the masked value halve.
even_halves :
    (n a : ℕ) → n ≢ 0 → n % 2 ≡ 0 → bit_and a (n - 1) ≡ 2 * bit_and (a / 2) (n / 2 - 1) + a % 2
even_halves n a ne even =
    omega (arith, bit_and_halves a (n - 1), ap (λ (t : ℕ). bit_and (a / 2) t) half)
  where
    half : (n - 1) / 2 ≡ n / 2 - 1
    half = omega arith

mask_below : (k n s : ℕ) → n < k → n ≢ 0 → bit_and n (n - 1) ≡ 0 → bit_and s (n - 1) ≡ s % n
mask_below zero n s h ne e = absurd (omega arith)
mask_below (suc k) n s h ne e = elim (ℕ_discrete (n % 2) 0) [
  | yes even ↦ omega (
    arith,
    even_halves n s ne even,
    mask_below k (n / 2) (s / 2) (omega arith) (omega arith)
        (omega (arith, even_halves n n ne even)),
    mod_halves s (n / 2) (omega arith),
    ap (λ (t : ℕ). s % t) (halve even),
  )
  | no odd ↦ rw (is_one odd) (omega (arith, bit_and-zero_below (suc s) s (omega arith)))
]
  where
    halve : n % 2 ≡ 0 → n ≡ 2 * (n / 2)
    halve p = omega arith

    is_one : n % 2 ≢ 0 → n ≡ 1
    is_one p = omega (arith, odd_shares n (omega arith))

-- If `n & (n - 1)` is 0, then `s & (n - 1)` is `s % n`.
pub bit_and_pred : (n s : ℕ) → n ≢ 0 → bit_and n (n - 1) ≡ 0 → bit_and s (n - 1) ≡ s % n
bit_and_pred n s ne e = mask_below (suc n) n s (omega arith) ne e
