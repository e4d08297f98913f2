-- ===== src/Io/Reading.antt =====
-- The outcomes of the readers on any file.
use nasdaq_moldudp64_feed_si.Prelude.{
  ℕ, ◌+◌, ◌^◌, ◌≤◌, ◌<◌, ◌≡◌, refl, sym, ap, ◌∙◌, not, ◌∷◌, ◌⊎◌, inl, inr, List, [], Option, none,
  some, Bool, true, false, length, take, drop, All, All-take, All-drop, length-take, length-drop,
  arith,
}
use native.Mathlib.Decide.{dec_lt}
use nasdaq_moldudp64_feed_si.BinaryIo.{Endian, IsByte, read_be}
use nasdaq_moldudp64_feed_si.BinaryIo.Bytes.{be_value, be_value-lt}
use nasdaq_moldudp64_feed_si.BinaryIo.BigEndian.{read_be_lem}
use nasdaq_moldudp64_feed_si.Io.{
  get_and_check_length_prefix, message_of, read_message, has_value, skip_message,
}

-- A span of `char` is shorter than 2 ^ 63, the largest `std::ptrdiff_t`.
abbrev pub IsSpan : List ℕ → Type 0
IsSpan bytes = All IsByte bytes × (length bytes < 2 ^ 63)

-- The length that stands in the two bytes from `pos` on, highest byte first.
abbrev pub prefix_at : List ℕ → ℕ → ℕ
prefix_at bytes pos = be_value (take 2 (drop pos bytes))

abbrev pub is_empty : List ℕ → Bool
is_empty [] = true
is_empty (_ ∷ _) = false

pub is_empty-false : (bs : List ℕ) → 0 < length bs → is_empty bs ≡ false
is_empty-false [] h = absurd (omega arith)
is_empty-false (b ∷ bs) h = refl

-- What one read does, by what is left of the file from `pos` on.
abbrev pub Reads : List ℕ → ℕ → Option ℕ × ℕ → Type 0
Reads bytes pos r =
    ((length bytes < pos + 2) × (r ≡ (none, pos)))
    ⊎ ((pos + 2 ≤ length bytes)
        × (length bytes < pos + 2 + prefix_at bytes pos)
        × (r ≡ (none, pos + 2)))
    ⊎ ((pos + 2 + prefix_at bytes pos ≤ length bytes)
        × (r ≡ (some (prefix_at bytes pos), pos + 2 + prefix_at bytes pos)))

module _ (host : Endian) (bytes : List ℕ) (pos : ℕ) (span : IsSpan bytes)
    (here : pos ≤ length bytes) where
  prefix-lt : pos + 2 ≤ length bytes → prefix_at bytes pos < 2 ^ 16
  prefix-lt h = omega (
    arith,
    be_value-lt (take 2 (drop pos bytes))
        (All-take IsByte 2 (drop pos bytes) (All-drop IsByte pos bytes span.0)),
    ap (λ (t : ℕ). 256 ^ t) two,
  )
    where
      two : length (take 2 (drop pos bytes)) ≡ 2
      two = omega (arith, length-take 2 (drop pos bytes), length-drop pos bytes)

  read_prefix : pos + 2 ≤ length bytes → read_be host 2 bytes pos ≡ (prefix_at bytes pos, pos + 2)
  read_prefix h =
      read_be_lem host 2 bytes pos span.0 h ∙ ap (λ n. (prefix_at bytes pos, n)) (omega arith)

  pub get_and_check_length_prefix-short :
      length bytes < pos + 2 → get_and_check_length_prefix host bytes pos ≡ (none, pos)
  unfolding get_and_check_length_prefix
  get_and_check_length_prefix-short h = ground arith

  pub get_and_check_length_prefix-overrun :
      pos + 2 ≤ length bytes
      → length bytes < pos + 2 + prefix_at bytes pos
      → get_and_check_length_prefix host bytes pos ≡ (none, pos + 2)
  unfolding get_and_check_length_prefix
  get_and_check_length_prefix-overrun room h = ground (arith, read_prefix room, prefix-lt room)

  pub get_and_check_length_prefix-whole :
      pos + 2 + prefix_at bytes pos ≤ length bytes
      → get_and_check_length_prefix host bytes pos
        ≡ (some (prefix_at bytes pos), pos + 2 + prefix_at bytes pos)
  unfolding get_and_check_length_prefix
  get_and_check_length_prefix-whole h = ground (arith, read_prefix (omega arith))

  -- The three outcomes of `get_and_check_length_prefix`: too little left for a prefix, with the
  -- position unchanged; a prefix that overruns the file, with the position past the prefix; and
  -- the prefix, with the position past the message.
  pub get_and_check_length_prefix-Reads :
      Reads bytes pos (get_and_check_length_prefix host bytes pos)
  get_and_check_length_prefix-Reads = elim (dec_lt (length bytes) (pos + 2)) [
    | yes short ↦ inl (short, get_and_check_length_prefix-short short)
    | no room ↦ elim (dec_lt (length bytes) (pos + 2 + prefix_at bytes pos)) [
      | yes over ↦
          inr (inl (omega arith, over, get_and_check_length_prefix-overrun (omega arith) over))
      | no fits ↦ inr (inr (omega arith, get_and_check_length_prefix-whole (omega arith)))
    ]
  ]

  -- A whole message is the bytes from its prefix on, and the position moves past it.
  pub read_message-whole :
      pos + 2 + prefix_at bytes pos ≤ length bytes
      → read_message host bytes pos
        ≡ (take (2 + prefix_at bytes pos) (drop pos bytes), pos + 2 + prefix_at bytes pos)
  unfolding read_message
  read_message-whole h = ap (message_of bytes pos) (get_and_check_length_prefix-whole h)

  pub read_message-short : length bytes < pos + 2 → read_message host bytes pos ≡ ([], pos)
  unfolding read_message
  read_message-short h = ap (message_of bytes pos) (get_and_check_length_prefix-short h)

  pub read_message-overrun :
      pos + 2 ≤ length bytes
      → length bytes < pos + 2 + prefix_at bytes pos
      → read_message host bytes pos ≡ ([], pos + 2)
  unfolding read_message
  read_message-overrun room h =
      ap (message_of bytes pos) (get_and_check_length_prefix-overrun room h)

  length-whole :
      pos + 2 + prefix_at bytes pos ≤ length bytes
      → length (take (2 + prefix_at bytes pos) (drop pos bytes)) ≡ 2 + prefix_at bytes pos
  length-whole h =
      omega (arith, length-take (2 + prefix_at bytes pos) (drop pos bytes), length-drop pos bytes)

  skip_agrees :
      (r : Option ℕ × ℕ)
      → Reads bytes pos r
      → ◌≡◌ {A = Bool × ℕ}
          (has_value r.0, r.1)
          (not (is_empty (message_of bytes pos r).0), (message_of bytes pos r).1)
  unfolding has_value message_of
  skip_agrees (none, p) h = refl
  skip_agrees (some n, p) (inl (_, e)) = cc
  skip_agrees (some n, p) (inr (inl (_, _, e))) = cc
  skip_agrees (some n, p) (inr (inr (fits, e))) =
      ap (λ b. (not b, p))
        (sym (
          is_empty-false (take (2 + n) (drop pos bytes))
            (omega (arith, length-take (2 + n) (drop pos bytes), length-drop pos bytes, enough))))
    where
      enough : pos + 2 ≤ length bytes
      enough = omega arith

  -- `skip_message` leaves the position where `read_message` does, and returns true exactly when
  -- `read_message` finds a message.
  pub skip_message-read_message :
      skip_message host bytes pos
      ≡ (not (is_empty (read_message host bytes pos).0), (read_message host bytes pos).1)
  unfolding skip_message read_message
  skip_message-read_message =
      skip_agrees (get_and_check_length_prefix host bytes pos) get_and_check_length_prefix-Reads

  -- `read_message` leaves a position within the file, and returns either nothing or the bytes
  -- between the two positions, which are at least two.
  pub read_message_bounds :
      let (message, pos') = read_message host bytes pos in
      (pos' ≤ length bytes)
      × ((message ≡ [])
          ⊎ ((2 ≤ length message)
              × (pos' ≡ pos + length message)
              × (message ≡ take (length message) (drop pos bytes))))
  read_message_bounds = elim get_and_check_length_prefix-Reads [
    | inl (short, _) ↦ rw (read_message-short short) (here, inl refl)
    | inr (inl (room, over, _)) ↦ rw (read_message-overrun room over) (room, inl refl)
    | inr (inr (fits, _)) ↦ rw (read_message-whole fits) (
      fits,
      inr (
        omega (arith, length-whole fits),
        omega (arith, length-whole fits),
        ap (λ n. take n (drop pos bytes)) (sym (length-whole fits)),
      ),
    )
  ]
