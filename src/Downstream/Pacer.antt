-- ===== src/Downstream/Pacer.antt =====
-- include/imr/mold/downstream/pacer.h. Durations and time points are in nanoseconds.
-- A parameter stands for the floating-point code: `scale d` is
-- `static_cast<int64_t>(static_cast<double>(d) / playback_speed_)`.
pub mod Schedule
mod Tests
use nasdaq_moldudp64_feed_si.Prelude.{ℕ, ◌*◌, ◌+◌, Bool, Option, none, some, if◌then◌else◌}
use nasdaq_moldudp64_feed_si.Prelude.Int.{ℤ, pos, ◌+ℤ◌, ◌-ℤ◌, int64, ltb_ℤ, leb_ℤ}

pub data MarketPhase : Type 0 where
  pre open_market close : MarketPhase

abbrev hour : ℕ
hour = 3600 * 1_000_000_000

abbrev minute : ℕ
minute = 60 * 1_000_000_000

unfoldable pub phase_to_ns : MarketPhase → ℤ
phase_to_ns pre = pos 0
phase_to_ns open_market = pos (9 * hour + 30 * minute)
phase_to_ns close = pos (16 * hour)

-- `playback_speed_` goes into `scale`.
pub record Pacer : Type 0 where
  pub skip_before : ℤ
  pub wall_origin : ℤ
  pub replay_origin : Option ℤ

unfoldable pub make : ℤ → Pacer
make skip_before = record { skip_before = skip_before; wall_origin = pos 0; replay_origin = none }

unfoldable pub should_skip : Pacer → ℤ → Bool
should_skip p packet_timestamp = ltb_ℤ packet_timestamp p.skip_before

module _ (scale : ℤ → ℤ) where
  -- `now` is what `Clock::now()` returns in the call. A sum or a difference that does not fit wraps
  -- around, as on the hardware; to C++ it is undefined.
  unfoldable pub calculate_delay : ℤ → ℤ → ℤ → ℤ → ℤ
  unfolding ◌+ℤ◌ ◌-ℤ◌ int64
  calculate_delay wall_origin origin packet_timestamp now =
      let send_at = int64 (wall_origin +ℤ scale (int64 (packet_timestamp -ℤ origin))) in
      if leb_ℤ send_at now then pos 0 else int64 (send_at -ℤ now)

  -- The first call reads the clock twice, `start` and `now`; a later one reads `now` only.
  delay_from : Option ℤ → Pacer → ℤ → ℤ → ℤ → ℤ × Pacer
  unfolding calculate_delay
  delay_from none p packet_timestamp start now = (
    calculate_delay start packet_timestamp packet_timestamp now,
    record p { wall_origin = start; replay_origin = some packet_timestamp },
  )
  delay_from (some origin) p packet_timestamp start now =
      (calculate_delay p.wall_origin origin packet_timestamp now, p)

  unfoldable pub get_delay : Pacer → ℤ → ℤ → ℤ → ℤ × Pacer
  unfolding delay_from
  get_delay p packet_timestamp start now = delay_from p.replay_origin p packet_timestamp start now
