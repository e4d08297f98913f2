-- ===== src/BinaryIo/Bytes.antt =====
-- The bytes of a number and the number of some bytes, in both orders.
use native.Mathlib.Nat.{pow-suc}
use mathlib.Core.List.{reverse-reverse}
use nasdaq_moldudp64_feed_si.Prelude.{
  ℕ, zero, suc, ◌+◌, ◌*◌, ◌^◌, ◌/◌, ◌<◌, ◌≡◌, refl, sym, ap, ap₂, ◌∙◌, List, [], ◌∷◌, ◌++◌, reverse,
  length, length-reverse, reverse-cons, All, All-append, arith,
}
use nasdaq_moldudp64_feed_si.BinaryIo.{IsByte, le_bytes, le_value}

-- The number that bytes make with the highest first, as on the wire.
abbrev pub be_from : ℕ → List ℕ → ℕ
be_from acc [] = acc
be_from acc (b ∷ bs) = be_from (acc * 256 + b) bs

abbrev pub be_value : List ℕ → ℕ
be_value bs = be_from 0 bs

-- The `width` low bytes of `v`, highest first.
unfoldable pub be_bytes : ℕ → ℕ → List ℕ
unfolding le_bytes
be_bytes width v = reverse (le_bytes width v)

pub length-le_bytes : (w v : ℕ) → length (le_bytes w v) ≡ w
unfolding le_bytes
length-le_bytes zero v = refl
length-le_bytes (suc w) v = ap suc (length-le_bytes w (v / 256))

pub length-be_bytes : (w v : ℕ) → length (be_bytes w v) ≡ w
unfolding be_bytes
length-be_bytes w v = length-reverse (le_bytes w v) ∙ length-le_bytes w v

pub le_bytes-IsByte : (w v : ℕ) → All IsByte (le_bytes w v)
unfolding le_bytes
le_bytes-IsByte zero v = tt
le_bytes-IsByte (suc w) v = (omega arith, le_bytes-IsByte w (v / 256))

pub reverse-IsByte : (bs : List ℕ) → All IsByte bs → All IsByte (reverse bs)
reverse-IsByte [] h = tt
reverse-IsByte (b ∷ bs) h =
    rw reverse-cons (All-append IsByte (reverse bs) (b ∷ []) (reverse-IsByte bs h.1) (h.0, tt))

pub be_bytes-IsByte : (w v : ℕ) → All IsByte (be_bytes w v)
unfolding be_bytes
be_bytes-IsByte w v = reverse-IsByte (le_bytes w v) (le_bytes-IsByte w v)

pub le_value-le_bytes : (w v : ℕ) → v < 256 ^ w → le_value (le_bytes w v) ≡ v
unfolding le_bytes le_value
le_value-le_bytes zero v h = omega arith
le_value-le_bytes (suc w) v h =
    omega (arith, le_value-le_bytes w (v / 256) (omega (arith, pow-suc 256 w)))

pub le_bytes-le_value : (bs : List ℕ) → All IsByte bs → le_bytes (length bs) (le_value bs) ≡ bs
unfolding le_bytes le_value
le_bytes-le_value [] h = refl
le_bytes-le_value (b ∷ bs) h =
    ap₂ ◌∷◌ (omega arith) (ap (le_bytes (length bs)) (omega arith) ∙ le_bytes-le_value bs h.1)

pub le_value-lt : (bs : List ℕ) → All IsByte bs → le_value bs < 256 ^ length bs
unfolding le_value
le_value-lt [] h = omega arith
le_value-lt (b ∷ bs) h = omega (arith, le_value-lt bs h.1, pow-suc 256 (length bs))

le_value-append-one :
    (bs : List ℕ) (b : ℕ) → le_value (bs ++ (b ∷ [])) ≡ le_value bs + b * 256 ^ length bs
unfolding le_value
le_value-append-one [] b = omega arith
le_value-append-one (c ∷ bs) b =
    omega (arith, le_value-append-one bs b, ap (λ (t : ℕ). b * t) (pow-suc 256 (length bs)))

be_from-acc : (acc : ℕ) (bs : List ℕ) → be_from acc bs ≡ acc * 256 ^ length bs + be_value bs
be_from-acc acc [] = omega arith
be_from-acc acc (b ∷ bs) =
    be_from-acc (acc * 256 + b) bs
    ∙ omega (
      arith,
      be_from-acc (0 * 256 + b) bs,
      ap (λ (t : ℕ). acc * t) (pow-suc 256 (length bs)),
      cons_zero b bs,
    )
  where
    cons_zero : (b : ℕ) (bs : List ℕ) → be_value (b ∷ bs) ≡ be_from (0 * 256 + b) bs
    cons_zero b bs = refl

pub le_value-reverse : (bs : List ℕ) → le_value (reverse bs) ≡ be_value bs
le_value-reverse [] = unfold le_value in refl
le_value-reverse (b ∷ bs) =
    ap le_value (reverse-cons b bs)
    ∙ le_value-append-one (reverse bs) b
    ∙ omega (
      arith,
      le_value-reverse bs,
      be_from-acc (0 * 256 + b) bs,
      ap (λ (t : ℕ). b * 256 ^ t) (length-reverse bs),
    )
    ∙ sym (be_from-acc (0 * 256 + b) bs)

pub be_value-be_bytes : (w v : ℕ) → v < 256 ^ w → be_value (be_bytes w v) ≡ v
unfolding be_bytes
be_value-be_bytes w v h =
    sym (le_value-reverse (reverse (le_bytes w v)))
    ∙ ap le_value (reverse-reverse (le_bytes w v))
    ∙ le_value-le_bytes w v h

pub be_value-lt : (bs : List ℕ) → All IsByte bs → be_value bs < 256 ^ length bs
be_value-lt bs h = omega (
  arith,
  le_value-reverse bs,
  le_value-lt (reverse bs) (reverse-IsByte bs h),
  ap (λ (t : ℕ). 256 ^ t) (length-reverse bs),
)
