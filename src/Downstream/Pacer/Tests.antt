-- ===== src/Downstream/Pacer/Tests.antt =====
-- Tests of include/imr/mold/downstream/pacer.h.
use nasdaq_moldudp64_feed_si.Prelude.{◌≡◌, refl, some, true, arith}
use nasdaq_moldudp64_feed_si.Prelude.Int.{ℤ, pos, ◌+ℤ◌, ◌-ℤ◌, ◌≤ℤ◌, int64}
use nasdaq_moldudp64_feed_si.Downstream.Pacer.{
  open_market, Pacer, phase_to_ns, should_skip, make, get_delay,
}
use nasdaq_moldudp64_feed_si.Downstream.Pacer.Schedule.{max_ℤ, due, get_delay-due}

-- Playback at normal speed.
abbrev normal : ℤ → ℤ
normal d = d

abbrev begun : Pacer
begun = record { skip_before = pos 0; wall_origin = pos 1000; replay_origin = some (pos 50) }

phase_to_ns-runs : phase_to_ns open_market ≡ pos 34_200_000_000_000
unfolding phase_to_ns
phase_to_ns-runs = refl

should_skip-runs : should_skip (make (phase_to_ns open_market)) (pos 34_199_999_999_999) ≡ true
unfolding should_skip make phase_to_ns
should_skip-runs = refl

get_delay-runs : get_delay normal begun (pos 80) (pos 0) (pos 1010) ≡ (pos 20, begun)
unfolding get_delay ◌+ℤ◌ ◌-ℤ◌ int64
get_delay-runs = refl

-- A timestamp below `skip_before` is delayed like any other.
get_delay-early :
    (should_skip (record begun { skip_before = pos 100 }) (pos 80) ≡ true)
    × ((get_delay normal (record begun { skip_before = pos 100 }) (pos 80) (pos 0) (pos 1010)).0
        ≡ pos 20)
unfolding get_delay should_skip ◌+ℤ◌ ◌-ℤ◌ int64
get_delay-early = (refl, refl)

get_delay-due_example :
    let (delay, p') = get_delay normal begun (pos 80) (pos 0) (pos 1010) in
    (pos 1010 +ℤ delay ≡ max_ℤ (due normal begun (pos 80) (pos 0)) (pos 1010))
    × (pos 0 ≤ℤ delay)
    × (p' ≡ begun)
unfolding ◌+ℤ◌ ◌-ℤ◌
get_delay-due_example =
    get_delay-due normal begun (pos 80) (pos 0) (pos 1010) (omega arith) (omega arith) (omega arith)
