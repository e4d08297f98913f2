-- ===== src/Log/Tests.antt =====
-- Tests of include/imr/util/log.h.
use nasdaq_moldudp64_feed_si.Prelude.{ℕ, ◌≡◌, refl, Bool, true, false, List, [], ◌∷◌, ◌++◌}
use nasdaq_moldudp64_feed_si.Prelude.Int.{pos}
use nasdaq_moldudp64_feed_si.Log.{bytes_of, Stream, stdout, stderr, escape, perror, warn}
use nasdaq_moldudp64_feed_si.Log.Lines.{
  Call, perror_call, warn_call, location_call, printed, lines, log_all, log_all-lines,
}

-- Only errors go to a terminal.
abbrev terminal : Stream → Bool
terminal stdout = false
terminal stderr = true

abbrev reason : ℕ → List ℕ
reason errno = bytes_of "Bad file descriptor"

abbrev calls : List Call
calls =
    perror_call (bytes_of "send") 9
    ∷ warn_call (bytes_of "{} left") (bytes_of "2" ∷ [])
    ∷ location_call (bytes_of "start")
    ∷ []

perror-runs :
    printed stderr (perror terminal (pos 0) reason (bytes_of "send") 9 [])
    ≡ (escape ∷ bytes_of "[1;31m[imr:error]")
      ++ ((escape ∷ bytes_of "[0m send: Bad file descriptor") ++ (b'\n' ∷ []))
unfolding perror
perror-runs = refl

warn-runs :
    printed stdout (warn terminal (pos 1) (bytes_of "{} left") (bytes_of "2" ∷ []) [])
    ≡ bytes_of "[imr:warn] 2 left" ++ (b'\n' ∷ [])
unfolding warn
warn-runs = refl

warn-hidden : warn terminal (pos 0) (bytes_of "{} left") (bytes_of "2" ∷ []) [] ≡ []
unfolding warn
warn-hidden = refl

log_all-lines_example :
    printed stdout (log_all terminal (pos 1) reason calls [])
    ≡ lines terminal (pos 1) reason stdout calls
log_all-lines_example = log_all-lines terminal (pos 1) reason stdout calls []
