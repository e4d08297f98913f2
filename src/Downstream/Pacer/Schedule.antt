-- ===== src/Downstream/Pacer/Schedule.antt =====
-- When the pacer lets a packet go.
use nasdaq_moldudp64_feed_si.Prelude.{
  ◌≡◌, refl, sym, subst, ap, ◌∙◌, Option, none, some, arith, Bool-cases, inl, inr, if◌then◌else◌,
}
use nasdaq_moldudp64_feed_si.Prelude.Int.{
  ℤ, pos, ◌+ℤ◌, ◌-ℤ◌, ◌≤ℤ◌, leb_ℤ, IsInt64, int64_lem, int_laws,
}
use nasdaq_moldudp64_feed_si.Downstream.Pacer.{Pacer, calculate_delay, delay_from, get_delay}

-- The later of two times.
abbrev pub max_ℤ : ℤ → ℤ → ℤ
max_ℤ a b = if leb_ℤ a b then b else a

abbrev wait : ℤ → ℤ → ℤ
wait send_at now = if leb_ℤ send_at now then pos 0 else send_at -ℤ now

wait-nonneg : (d now : ℤ) → pos 0 ≤ℤ wait d now
unfolding ◌-ℤ◌
wait-nonneg d now = ground arith

wait_until : (d now : ℤ) → now +ℤ wait d now ≡ max_ℤ d now
wait_until d now = elim (Bool-cases (leb_ℤ d now)) [
  | inl past ↦ rw past (omega int_laws)
  | inr future ↦ rw future (omega int_laws)
]

-- The timestamp and the clock reading from which a packet is scheduled: those of the first call, which
-- is this one if there was none before.
abbrev pub origin_of : Option ℤ → ℤ → ℤ
origin_of none packet_timestamp = packet_timestamp
origin_of (some origin) packet_timestamp = origin

abbrev pub wall_of : Option ℤ → Pacer → ℤ → ℤ
wall_of none p start = start
wall_of (some origin) p start = p.wall_origin

module _ (scale : ℤ → ℤ) where
  -- The time at which a packet is due.
  abbrev pub due : Pacer → ℤ → ℤ → ℤ
  due p packet_timestamp start =
      wall_of p.replay_origin p start
      +ℤ scale (packet_timestamp -ℤ origin_of p.replay_origin packet_timestamp)

  -- Without a wrap-around the delay is the time from `now` until the packet is due.
  calculate_delay-wait :
      (wall origin packet_timestamp now : ℤ)
      → IsInt64 (packet_timestamp -ℤ origin)
      → IsInt64 (wall +ℤ scale (packet_timestamp -ℤ origin))
      → IsInt64 ((wall +ℤ scale (packet_timestamp -ℤ origin)) -ℤ now)
      → calculate_delay scale wall origin packet_timestamp now
        ≡ wait (wall +ℤ scale (packet_timestamp -ℤ origin)) now
  unfolding calculate_delay
  calculate_delay-wait wall origin packet_timestamp now offset send_at delay =
      rw
        (
          int64_lem (packet_timestamp -ℤ origin) offset,
          int64_lem (wall +ℤ scale (packet_timestamp -ℤ origin)) send_at,
          int64_lem ((wall +ℤ scale (packet_timestamp -ℤ origin)) -ℤ now) delay,
        )
        refl

  delay_from-due :
      (o : Option ℤ) (p : Pacer) (packet_timestamp start now : ℤ)
      → let send_at =
          wall_of o p start +ℤ scale (packet_timestamp -ℤ origin_of o packet_timestamp) in
        IsInt64 (packet_timestamp -ℤ origin_of o packet_timestamp)
        → IsInt64 send_at
        → IsInt64 (send_at -ℤ now)
        → delay_from scale o p packet_timestamp start now ≡ (
          wait send_at now,
          elim o [
            | none ↦ record p { wall_origin = start; replay_origin = some packet_timestamp }
            | some origin ↦ p
          ],
        )
  unfolding delay_from
  delay_from-due none p packet_timestamp start now offset send_at delay =
      ap (λ d. (d, record p { wall_origin = start; replay_origin = some packet_timestamp }))
        (calculate_delay-wait start packet_timestamp packet_timestamp now offset send_at delay)
  delay_from-due (some origin) p packet_timestamp start now offset send_at delay =
      ap (λ d. (d, p))
        (calculate_delay-wait p.wall_origin origin packet_timestamp now offset send_at delay)

  -- A sleep of the delay, begun at the clock reading `now`, ends when the packet is due, or at once
  -- if that is past; so it never ends early and is never negative. A packet is due as long after the
  -- first call as its timestamp is behind that of the first call, scaled. The first call keeps both
  -- for the later ones, which change nothing. The distance of the timestamps, the time at which the
  -- packet is due and that time less `now` fit 64 bits.
  pub get_delay-due :
      (p : Pacer) (packet_timestamp start now : ℤ)
      → IsInt64 (packet_timestamp -ℤ origin_of p.replay_origin packet_timestamp)
      → IsInt64 (due p packet_timestamp start)
      → IsInt64 (due p packet_timestamp start -ℤ now)
      → let (delay, p') = get_delay scale p packet_timestamp start now in
        (now +ℤ delay ≡ max_ℤ (due p packet_timestamp start) now)
        × (pos 0 ≤ℤ delay)
        × (p' ≡ record p {
          wall_origin = wall_of p.replay_origin p start;
          replay_origin = some (origin_of p.replay_origin packet_timestamp);
        })
  unfolding get_delay
  get_delay-due p packet_timestamp start now offset send_at delay =
      let e = delay_from-due p.replay_origin p packet_timestamp start now offset send_at delay in
      let send = due p packet_timestamp start in
      (
        ap (λ q. now +ℤ q.0) e ∙ wait_until send now,
        subst (λ q. pos 0 ≤ℤ q.0) (sym e) (wait-nonneg send now),
        ap (λ q. q.1) e ∙ kept p.replay_origin refl,
      )
    where
      kept :
          (o : Option ℤ)
          → p.replay_origin ≡ o
          → (elim o [
            | none ↦ record p { wall_origin = start; replay_origin = some packet_timestamp }
            | some origin ↦ p
          ])
            ≡ record p {
              wall_origin = wall_of o p start;
              replay_origin = some (origin_of o packet_timestamp);
            }
      kept none e = refl
      kept (some origin) e = ap (λ r. record p { replay_origin = r }) e
