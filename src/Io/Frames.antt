-- ===== src/Io/Frames.antt =====
-- Well-formed files: every message stands behind its length, two bytes, highest first.
use nasdaq_moldudp64_feed_si.Prelude.{
  ℕ, ◌+◌, ◌^◌, ◌≤◌, ◌<◌, ◌≡◌, sym, ap, ap₂, ◌∙◌, Bool, true, not, List, [], ◌∷◌, ◌++◌, length, take,
  drop, length-append, take-length, drop-length, append_assoc, All, All-append, arith,
}
use nasdaq_moldudp64_feed_si.BinaryIo.{Endian, IsByte}
use nasdaq_moldudp64_feed_si.BinaryIo.Bytes.{
  be_bytes, be_value, length-be_bytes, be_bytes-IsByte, be_value-be_bytes,
}
use nasdaq_moldudp64_feed_si.Io.{read_message, skip_message}
use nasdaq_moldudp64_feed_si.Io.Reading.{
  IsSpan, prefix_at, read_message-whole, skip_message-read_message, is_empty, is_empty-false,
}

-- A message of the file format, with its length prefix.
abbrev pub frame : List ℕ → List ℕ
frame message = be_bytes 2 (length message) ++ message

abbrev pub frames : List (List ℕ) → List ℕ
frames [] = []
frames (m ∷ ms) = frame m ++ frames ms

-- A message is of bytes, and its length fits the prefix.
abbrev pub IsMessage : List ℕ → Type 0
IsMessage m = All IsByte m × (length m < 2 ^ 16)

pub length-frame : (m : List ℕ) → length (frame m) ≡ 2 + length m
length-frame m =
    omega (arith, length-append (be_bytes 2 (length m)) m, length-be_bytes 2 (length m))

pub frame-IsByte : (m : List ℕ) → IsMessage m → All IsByte (frame m)
frame-IsByte m h = All-append IsByte (be_bytes 2 (length m)) m (be_bytes-IsByte 2 (length m)) h.0

pub frames-IsByte : (ms : List (List ℕ)) → All IsMessage ms → All IsByte (frames ms)
frames-IsByte [] h = tt
frames-IsByte (m ∷ ms) h =
    All-append IsByte (frame m) (frames ms) (frame-IsByte m h.0) (frames-IsByte ms h.1)

module _ (done : List ℕ) (m rest : List ℕ) (ok : IsMessage m) where
  -- The message stands behind `done`.
  prefix-frame : prefix_at (done ++ (frame m ++ rest)) (length done) ≡ length m
  prefix-frame =
      ap (λ bs. be_value (take 2 bs)) (drop-length done (frame m ++ rest))
      ∙ ap (λ bs. be_value (take 2 bs)) (append_assoc (be_bytes 2 (length m)) m rest)
      ∙ ap (λ n. be_value (take n (be_bytes 2 (length m) ++ (m ++ rest))))
          (sym (length-be_bytes 2 (length m)))
      ∙ ap be_value (take-length (be_bytes 2 (length m)) (m ++ rest))
      ∙ be_value-be_bytes 2 (length m) ok.1

  -- `read_message` at the start of a well-formed message returns it with its prefix, and leaves
  -- the position just behind it, whatever precedes and follows it.
  pub read_message-frame :
      (host : Endian)
      → IsSpan (done ++ (frame m ++ rest))
      → read_message host (done ++ (frame m ++ rest)) (length done)
        ≡ (frame m, length done + length (frame m))
  read_message-frame host span =
      read_message-whole host bytes (length done) span (omega (arith, sizes)) fits
      ∙ ap (λ n. (take (2 + n) (drop (length done) bytes), length done + 2 + n)) prefix-frame
      ∙ ap₂ pair taken ended
    where
      pair : List ℕ → ℕ → List ℕ × ℕ
      pair message pos = (message, pos)

      bytes : List ℕ
      bytes = done ++ (frame m ++ rest)

      sizes : length bytes ≡ length done + (2 + length m + length rest)
      sizes = omega (
        arith,
        length-append done (frame m ++ rest),
        length-append (frame m) rest,
        length-frame m,
      )

      fits : length done + 2 + prefix_at bytes (length done) ≤ length bytes
      fits = omega (arith, sizes, prefix-frame)

      taken : take (2 + length m) (drop (length done) bytes) ≡ frame m
      taken =
          ap (take (2 + length m)) (drop-length done (frame m ++ rest))
          ∙ ap (λ n. take n (frame m ++ rest)) (sym (length-frame m))
          ∙ take-length (frame m) rest

      ended : length done + 2 + length m ≡ length done + length (frame m)
      ended = omega (arith, length-frame m)

  -- `skip_message` at the start of a well-formed message succeeds, and leaves the position just
  -- behind it.
  pub skip_message-frame :
      (host : Endian)
      → IsSpan (done ++ (frame m ++ rest))
      → skip_message host (done ++ (frame m ++ rest)) (length done)
        ≡ (true, length done + length (frame m))
  skip_message-frame host span =
      skip_message-read_message host bytes (length done) span
        (omega (arith, length-append done (frame m ++ rest)))
      ∙ ap outcome (read_message-frame host span)
      ∙ ap (λ b. (not b, length done + length (frame m)))
          (is_empty-false (frame m) (omega (arith, length-frame m)))
    where
      bytes : List ℕ
      bytes = done ++ (frame m ++ rest)

      outcome : List ℕ × ℕ → Bool × ℕ
      outcome (message, pos) = (not (is_empty message), pos)
