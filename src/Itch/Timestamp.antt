-- ===== src/Itch/Timestamp.antt =====
-- The timestamp of an ITCH message as a little-endian host computes it.
use nasdaq_moldudp64_feed_si.Io.Frames.{frame, length-frame}
use nasdaq_moldudp64_feed_si.Prelude.{
  zero, suc, refl, replicate, false, some, none, ltb, if◌then◌else◌, append_assoc, drop-front,
  le→ltb-false, ℕ, ◌+◌, ◌*◌, ◌/◌, ◌^◌, ◌≤◌, ◌<◌, ◌≡◌, ap, ◌∙◌, List, [], ◌∷◌, ◌++◌, reverse, length,
  take, drop, length-append, length-take, length-drop, All, All-append, All-take, All-drop, arith,
}
use nasdaq_moldudp64_feed_si.BinaryIo.{
  Endian, little, IsByte, object_value, byteswap, le_bytes, le_value,
}
use nasdaq_moldudp64_feed_si.BinaryIo.Bytes.{
  be_bytes, length-be_bytes, be_from, be_value, le_bytes-le_value, le_value-reverse, be_value-lt,
}
use nasdaq_moldudp64_feed_si.Itch.{extract_timestamp, peek_timestamp}

-- Bytes 5 to 10.
abbrev pub timestamp_field : List ℕ → List ℕ
timestamp_field message = take 6 (drop 5 message)

-- Two zero bytes behind six shift their big-endian value up by 16 bits.
be_value-zeros :
    (acc : ℕ) (bs : List ℕ) → be_from acc (bs ++ (0 ∷ 0 ∷ [])) ≡ be_from acc bs * 2 ^ 16
be_value-zeros acc [] = omega arith
be_value-zeros acc (b ∷ bs) = be_value-zeros (acc * 256 + b) bs

-- On a little-endian host, `extract_timestamp` of at least eleven bytes is the big-endian number
-- in bytes 5 to 10, and it is below 2 ^ 48.
pub extract_timestamp_lem :
    (message : List ℕ)
    → All IsByte message
    → 11 ≤ length message
    → (extract_timestamp little message ≡ be_value (timestamp_field message))
      × (extract_timestamp little message < 2 ^ 48)
unfolding extract_timestamp byteswap object_value
extract_timestamp_lem message bytes enough = (value, omega (arith, value, small))
  where
    field : List ℕ
    field = timestamp_field message

    field-IsByte : All IsByte field
    field-IsByte = All-take IsByte 6 (drop 5 message) (All-drop IsByte 5 message bytes)

    six : length field ≡ 6
    six = omega (arith, length-take 6 (drop 5 message), length-drop 5 message)

    copied : List ℕ
    copied = field ++ (0 ∷ 0 ∷ [])

    swapped : byteswap 8 (le_value copied) ≡ be_value field * 2 ^ 16
    swapped =
        ap (λ w. le_value (reverse (le_bytes w (le_value copied)))) width
        ∙ ap (λ x. le_value (reverse x))
            (le_bytes-le_value copied (All-append IsByte field _ field-IsByte (omega arith)))
        ∙ le_value-reverse copied
        ∙ be_value-zeros 0 field
      where
        width : 8 ≡ length copied
        width = omega (arith, length-append field (0 ∷ 0 ∷ []), six)

    value : byteswap 8 (le_value copied) / 2 ^ 16 ≡ be_value field
    value = omega (arith, swapped)

    small : be_value field < 2 ^ 48
    small = omega (arith, be_value-lt field field-IsByte, ap (λ (t : ℕ). 256 ^ t) six)

take_in_front : (n : ℕ) (xs ys : List ℕ) → n ≤ length xs → take n (xs ++ ys) ≡ take n xs
take_in_front zero xs ys h = refl
take_in_front (suc n) [] ys h = absurd (omega arith)
take_in_front (suc n) (x ∷ xs) ys h = ap (λ l. x ∷ l) (take_in_front n xs ys (omega arith))

field_in_front :
    (i n : ℕ) (xs ys : List ℕ) → i + n ≤ length xs → take n (drop i (xs ++ ys)) ≡ take n (drop i xs)
field_in_front zero n xs ys h = take_in_front n xs ys (omega arith)
field_in_front (suc i) zero [] ys h = refl
field_in_front (suc i) (suc n) [] ys h = absurd (omega arith)
field_in_front (suc i) n (x ∷ xs) ys h = field_in_front i n xs ys (omega arith)

-- What follows a message of at least eleven bytes does not change its timestamp.
extract_timestamp-append :
    (host : Endian) (m rest : List ℕ)
    → 11 ≤ length m
    → extract_timestamp host (m ++ rest) ≡ extract_timestamp host m
unfolding extract_timestamp
extract_timestamp-append host m rest h =
    ap (λ bs. byteswap 8 (object_value host (bs ++ replicate 2 0)) / 2 ^ 16)
      (field_in_front 5 6 m rest (omega arith))

-- Peeked at the start of a well-formed message of at least eleven bytes: its timestamp.
pub peek_timestamp-frame :
    (host : Endian) (m rest : List ℕ)
    → 11 ≤ length m
    → peek_timestamp host (frame m ++ rest) ≡ some (extract_timestamp host m)
unfolding peek_timestamp
peek_timestamp-frame host m rest h =
    ap (λ b. if b then none else some (extract_timestamp host (drop 2 (frame m ++ rest)))) enough
    ∙ ap (λ bs. some (extract_timestamp host bs)) body
    ∙ ap some (extract_timestamp-append host m rest h)
  where
    enough : ltb (length (frame m ++ rest)) 8 ≡ false
    enough = le→ltb-false _ _ (omega (arith, length-append (frame m) rest, length-frame m))

    body : drop 2 (frame m ++ rest) ≡ m ++ rest
    body =
        ap (drop 2) (append_assoc (be_bytes 2 (length m)) m rest)
        ∙ drop-front 2 (be_bytes 2 (length m)) (m ++ rest) (length-be_bytes 2 (length m))
