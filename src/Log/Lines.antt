-- ===== src/Log/Lines.antt =====
-- What any sequence of log calls prints.
use nasdaq_moldudp64_feed_si.Prelude.{
  ℕ, zero, suc, ◌≡◌, refl, sym, ap, ap₂, ◌∙◌, Bool, true, false, ◌&&◌, List, [], ◌∷◌, ◌++◌,
  if◌then◌else◌, append-nil, append_assoc, Bool-cases, inl, inr,
}
use nasdaq_moldudp64_feed_si.Prelude.Int.{ℤ, pos, leb_ℤ}
use nasdaq_moldudp64_feed_si.Log.{
  bytes_of, Stream, stdout, stderr, Output, color_error, color_warn, color_info, color_debug,
  color_off, format, base, error, perror, warn, info, debug, debug_location,
}

-- A call of one of the functions.
pub data Call : Type 0 where
  error_call warn_call info_call debug_call : List ℕ → List (List ℕ) → Call
  perror_call : List ℕ → ℕ → Call
  location_call : List ℕ → Call

abbrev pub same_stream : Stream → Stream → Bool
same_stream stdout stdout = true
same_stream stderr stderr = true
same_stream _ _ = false

-- All that was printed on one stream.
abbrev pub printed : Stream → Output → List ℕ
printed stream [] = []
printed stream ((s, text) ∷ out) =
    let rest = printed stream out in if same_stream s stream then text ++ rest else rest

abbrev pub severity : Call → ℕ
severity (error_call fmt args) = 0
severity (perror_call function_name errno) = 0
severity (warn_call fmt args) = 1
severity (info_call fmt args) = 2
severity (debug_call fmt args) = 3
severity (location_call function_name) = 3

-- Errors go to `stderr`, all else to `stdout`.
abbrev pub stream_of : Call → Stream
stream_of (error_call fmt args) = stderr
stream_of (perror_call function_name errno) = stderr
stream_of _ = stdout

abbrev tag_of : ℕ → List ℕ
tag_of zero = bytes_of "error"
tag_of (suc zero) = bytes_of "warn"
tag_of (suc (suc zero)) = bytes_of "info"
tag_of _ = bytes_of "debug"

abbrev color_of : ℕ → List ℕ
color_of zero = color_error
color_of (suc zero) = color_warn
color_of (suc (suc zero)) = color_info
color_of _ = color_debug

abbrev marker : Bool → List ℕ → List ℕ → List ℕ
marker colored color tag =
    if colored
    then color ++ (bytes_of "[imr:" ++ (tag ++ (bytes_of "]" ++ (color_off ++ bytes_of " "))))
    else bytes_of "[imr:" ++ (tag ++ bytes_of "] ")

module _ (isatty : Stream → Bool) (level : ℤ) (strerror : ℕ → List ℕ) where
  abbrev pub message : Call → List ℕ
  message (perror_call function_name errno) = function_name ++ (bytes_of ": " ++ strerror errno)
  message (location_call function_name) = function_name
  message (error_call fmt args) = format fmt args
  message (warn_call fmt args) = format fmt args
  message (info_call fmt args) = format fmt args
  message (debug_call fmt args) = format fmt args

  -- The line that a call prints if its severity is not above the level.
  abbrev pub line : Call → List ℕ
  line c =
      marker (isatty (stream_of c)) (color_of (severity c)) (tag_of (severity c))
      ++ (message c ++ (b'\n' ∷ []))

  abbrev pub lines : Stream → List Call → List ℕ
  lines stream [] = []
  lines stream (c ∷ calls) =
      let rest = lines stream calls in
      if leb_ℤ (pos (severity c)) level && same_stream (stream_of c) stream
      then line c ++ rest
      else rest

  abbrev log : Call → Output → Output
  log (error_call fmt args) = error isatty level fmt args
  log (perror_call function_name errno) = perror isatty level strerror function_name errno
  log (warn_call fmt args) = warn isatty level fmt args
  log (info_call fmt args) = info isatty level fmt args
  log (debug_call fmt args) = debug isatty level fmt args
  log (location_call function_name) = debug_location isatty level function_name

  abbrev pub log_all : List Call → Output → Output
  log_all [] out = out
  log_all (c ∷ calls) out = log_all calls (log c out)

printed-append : (s : Stream) (xs ys : Output) → printed s (xs ++ ys) ≡ printed s xs ++ printed s ys
printed-append s [] ys = refl
printed-append s ((t, text) ∷ xs) ys = elim (Bool-cases (same_stream t s)) [
  | inl same ↦ rw same (
      ap (λ l. text ++ l) (printed-append s xs ys)
      ∙ sym (append_assoc text (printed s xs) (printed s ys)))
  | inr other ↦ rw other (printed-append s xs ys)
]

format-marker :
    (colored : Bool) (color tag : List ℕ)
    → (if colored
        then format (bytes_of "{}[imr:{}]" ++ color_off ++ bytes_of " ") (color ∷ tag ∷ [])
        else format (bytes_of "[imr:{}] ") (tag ∷ []))
      ≡ marker colored color tag
unfolding format
format-marker true color tag = refl
format-marker false color tag = refl

module _ (isatty : Stream → Bool) (s stream : Stream) (tag color fmt : List ℕ)
    (args : List (List ℕ)) (out : Output) where
  base-printed :
      printed s (base isatty stream tag color fmt args out)
      ≡ printed s out
        ++ (if same_stream stream s
            then marker (isatty stream) color tag ++ (format fmt args ++ (b'\n' ∷ []))
            else [])
  unfolding base
  base-printed = printed-append s out _ ∙ elim (Bool-cases (same_stream stream s)) [
    | inl same ↦ rw same (
        ap₂ (λ m l. printed s out ++ (m ++ l)) (format-marker (isatty stream) color tag)
          (append-nil (format fmt args ++ (b'\n' ∷ []))))
    | inr other ↦ rw other refl
  ]

module _ (isatty : Stream → Bool) (level : ℤ) (strerror : ℕ → List ℕ) where
  -- What a call has formatted.
  abbrev formatted : Call → List ℕ × List (List ℕ)
  formatted (perror_call function_name errno) =
      (bytes_of "{}: {}", function_name ∷ strerror errno ∷ [])
  formatted (location_call function_name) = (bytes_of "{}", function_name ∷ [])
  formatted (error_call fmt args) = (fmt, args)
  formatted (warn_call fmt args) = (fmt, args)
  formatted (info_call fmt args) = (fmt, args)
  formatted (debug_call fmt args) = (fmt, args)

  format-formatted :
      (c : Call) → format (formatted c).0 (formatted c).1 ≡ message isatty level strerror c
  unfolding format
  format-formatted (perror_call function_name errno) =
      ap (λ l. function_name ++ (bytes_of ": " ++ l)) (append-nil (strerror errno))
  format-formatted (location_call function_name) = append-nil function_name
  format-formatted (error_call fmt args) = refl
  format-formatted (warn_call fmt args) = refl
  format-formatted (info_call fmt args) = refl
  format-formatted (debug_call fmt args) = refl

  log-shown :
      (c : Call) (out : Output)
      → leb_ℤ (pos (severity c)) level ≡ true
      → log isatty level strerror c out
        ≡ base isatty
            (stream_of c)
            (tag_of (severity c))
            (color_of (severity c))
            (formatted c).0
            (formatted c).1
            out
  unfolding error perror warn info debug debug_location
  log-shown (error_call fmt args) out shown = rw shown refl
  log-shown (perror_call function_name errno) out shown = rw shown refl
  log-shown (warn_call fmt args) out shown = rw shown refl
  log-shown (info_call fmt args) out shown = rw shown refl
  log-shown (debug_call fmt args) out shown = rw shown refl
  log-shown (location_call function_name) out shown = rw shown refl

  log-hidden :
      (c : Call) (out : Output)
      → leb_ℤ (pos (severity c)) level ≡ false
      → log isatty level strerror c out ≡ out
  unfolding error perror warn info debug debug_location
  log-hidden (error_call fmt args) out hidden = rw hidden refl
  log-hidden (perror_call function_name errno) out hidden = rw hidden refl
  log-hidden (warn_call fmt args) out hidden = rw hidden refl
  log-hidden (info_call fmt args) out hidden = rw hidden refl
  log-hidden (debug_call fmt args) out hidden = rw hidden refl
  log-hidden (location_call function_name) out hidden = rw hidden refl

  printed-log :
      (s : Stream) (c : Call) (out : Output)
      → printed s (log isatty level strerror c out)
        ≡ printed s out
          ++ (if leb_ℤ (pos (severity c)) level && same_stream (stream_of c) s
              then line isatty level strerror c
              else [])
  printed-log s c out = elim (Bool-cases (leb_ℤ (pos (severity c)) level)) [
    | inl shown ↦
        ap (printed s) (log-shown c out shown)
        ∙ base-printed isatty s (stream_of c) (tag_of (severity c)) (color_of (severity c))
            (formatted c).0 (formatted c).1 out
        ∙ ap₂
            (λ m b.
              printed s out
              ++ (if b && same_stream (stream_of c) s
                  then marker (isatty (stream_of c)) (color_of (severity c)) (tag_of (severity c))
                    ++ (m ++ (b'\n' ∷ []))
                  else []))
            (format-formatted c) (sym shown)
    | inr hidden ↦
        ap (printed s) (log-hidden c out hidden)
        ∙ sym (append-nil (printed s out))
        ∙ ap
            (λ b.
              printed s out
              ++ (if b && same_stream (stream_of c) s then line isatty level strerror c else []))
            (sym hidden)
  ]

  -- Any sequence of log calls appends to each stream exactly the lines of the calls that are for this
  -- stream and whose severity is not above the level, in order: the tag, in its colour on a
  -- terminal, the message, and a line feed.
  pub log_all-lines :
      (s : Stream) (calls : List Call) (out : Output)
      → printed s (log_all isatty level strerror calls out)
        ≡ printed s out ++ lines isatty level strerror s calls
  log_all-lines s [] out = sym (append-nil (printed s out))
  log_all-lines s (c ∷ calls) out =
      log_all-lines s calls (log isatty level strerror c out)
      ∙ ap (λ l. l ++ lines isatty level strerror s calls) (printed-log s c out)
      ∙ append_assoc (printed s out) _ (lines isatty level strerror s calls)
      ∙ ap (λ l. printed s out ++ l)
          (front (leb_ℤ (pos (severity c)) level && same_stream (stream_of c) s))
    where
      front :
          (b : Bool)
          → (if b then line isatty level strerror c else []) ++ lines isatty level strerror s calls
            ≡ (if b
                then line isatty level strerror c ++ lines isatty level strerror s calls
                else lines isatty level strerror s calls)
      front true = refl
      front false = refl
