-- ===== src/Downstream/Heartbeat/Tests.antt =====
-- Tests of src/mold/downstream/heartbeat.cpp.
use nasdaq_moldudp64_feed_si.Prelude.{◌≡◌, refl, true, false, List, [], ◌∷◌}
use nasdaq_moldudp64_feed_si.Downstream.Heartbeat.{Beat}
use nasdaq_moldudp64_feed_si.Downstream.Heartbeat.Thread.{numbers}

-- Two heartbeats, then the token is triggered.
abbrev beats : List Beat
beats =
    record { stop_requested = false; next_seq = 1 }
    ∷ record { stop_requested = false; next_seq = 4 }
    ∷ record { stop_requested = true; next_seq = 6 }
    ∷ []

numbers-runs : numbers beats ≡ 1 ∷ 4 ∷ []
numbers-runs = refl
