-- ===== src/Downstream/Feed/Packing/Loop.antt =====
-- The loop of `build_packet`: how far it goes, and what the packet holds then.
use mathlib.Core.Path.{subst₂}
use nasdaq_moldudp64_feed_si.Prelude.{
  ℕ, zero, suc, ◌-◌, ◌≤◌, ◌<◌, ◌≡◌, refl, sym, ap, ◌∙◌, subst, true, false, List, [], ◌∷◌, ◌++◌,
  map, length, some, ltb, if◌then◌else◌, append-nil, append_assoc, length-append, arith, Bool-cases,
  ltb→lt, ltb-false→le, inl, inr,
}
use nasdaq_moldudp64_feed_si.BinaryIo.{Endian}
use nasdaq_moldudp64_feed_si.Io.Frames.{frame, frames, length-frame}
use nasdaq_moldudp64_feed_si.PacketBuilder
use nasdaq_moldudp64_feed_si.PacketBuilder.{PacketBuilder}
use nasdaq_moldudp64_feed_si.PacketBuilder.Wire.{Holds-frame}
use nasdaq_moldudp64_feed_si.PacketBuilder.Contents.{Holds, reset-Holds}
use nasdaq_moldudp64_feed_si.Downstream.Feed.{Feed, build_round, build_loop, build_packet}
use nasdaq_moldudp64_feed_si.Downstream.Feed.Packing.{
  fill, left_over, Replays, advanced, build_round-fits, build_round-full, advanced-Replays, sizes,
  length-le-frames, frames-append,
}

-- From `f` to `f'` the messages `now` went into the packet, behind `held`, and `later` are left.
pub record Packed (f f' : Feed) (capacity : ℕ) (lead : List ℕ)
    (all before held now later : List (List ℕ)) (name : List ℕ) (seq : ℕ) : Type 0 where
  pub replays : Replays f' capacity lead all (before ++ now) later
  pub holds : Holds f'.packet_builder name seq (map frame (held ++ now))
  pub same_mtu : f'.packet_builder.mtu ≡ f.packet_builder.mtu
  pub same_pacer : f'.pacer ≡ f.pacer
  pub same_sent : f'.sent ≡ f.sent

module _ (host : Endian) where
  pub build_loop-end :
      (fuel : ℕ) (f : Feed) → length f.file ≤ f.file_pos → build_loop host (suc fuel) f ≡ some f
  unfolding build_loop
  build_loop-end fuel f h = ground arith

  pub build_loop-stop :
      (fuel : ℕ) (f f' : Feed)
      → f.file_pos < length f.file
      → build_round host f ≡ (f', false)
      → build_loop host (suc fuel) f ≡ some f'
  unfolding build_loop
  build_loop-stop fuel f f' h e = ground arith

  pub build_loop-go :
      (fuel : ℕ) (f f' : Feed)
      → f.file_pos < length f.file
      → build_round host f ≡ (f', true)
      → build_loop host (suc fuel) f ≡ build_loop host fuel f'
  unfolding build_loop
  build_loop-go fuel f f' h e = ground arith

module _ {capacity : ℕ} {lead : List ℕ} {all : List (List ℕ)} where
  pub at_end :
      {f : Feed} {before : List (List ℕ)}
      → Replays f capacity lead all before []
      → length f.file ≡ f.file_pos
  at_end {f} {before} r = omega (
    arith,
    ap length (r.whole ∙ ap (λ t. lead ++ frames t) (r.split ∙ append-nil before)),
    length-append lead (frames before),
    r.reached,
  )

  unchanged :
      {f : Feed} {before held ms : List (List ℕ)} {name : List ℕ} {seq : ℕ}
      → Replays f capacity lead all before ms
      → Holds f.packet_builder name seq (map frame held)
      → Packed f f capacity lead all before held [] ms name seq
  unchanged {f} {before} {held} {ms} {name} {seq} r h = record {
    replays = subst (λ x. Replays f capacity lead all x ms) (sym (append-nil before)) r;
    holds = subst (λ x. Holds f.packet_builder name seq (map frame x)) (sym (append-nil held)) h;
    same_mtu = refl;
    same_pacer = refl;
    same_sent = refl;
  }

  -- One message more in front of what a later part of the loop packs.
  Packed-cons :
      {f f' : Feed} {before held now later : List (List ℕ)} {name : List ℕ} {seq : ℕ} (m : List ℕ)
      → Packed
          (advanced m f)
          f'
          capacity
          lead
          all
          (before ++ (m ∷ []))
          (held ++ (m ∷ []))
          now
          later
          name
          seq
      → Packed f f' capacity lead all before held (m ∷ now) later name seq
  Packed-cons {f} {f'} {before} {held} {now} {later} {name} {seq} m p = record {
    replays =
        subst (λ x. Replays f' capacity lead all x later) (append_assoc before (m ∷ []) now)
          p.replays;
    holds =
        subst (λ x. Holds f'.packet_builder name seq (map frame x)) (append_assoc held (m ∷ []) now)
          p.holds;
    same_mtu = p.same_mtu;
    same_pacer = p.same_pacer;
    same_sent = p.same_sent;
  }

  -- With more fuel than messages, the loop packs the messages that fit, and stops.
  pub build_loop-Packed :
      (host : Endian) (fuel : ℕ) (ms held : List (List ℕ)) {f : Feed} {before : List (List ℕ)}
      {name : List ℕ} {seq : ℕ}
      → length ms < fuel
      → Replays f capacity lead all before ms
      → Holds f.packet_builder name seq (map frame held)
      → let room = f.packet_builder.bytes_remaining in
        (f' : Feed) × (build_loop host fuel f ≡ some f')
        × Packed f f' capacity lead all before held (fill room ms) (left_over room ms) name seq
  build_loop-Packed host zero ms held enough r h = absurd (omega arith)
  build_loop-Packed host (suc fuel) [] held {f} enough r h =
      (f, build_loop-end host fuel f (omega (arith, at_end r)), unchanged r h)
  build_loop-Packed host (suc fuel) (m ∷ ms) held {f} {before} {name} {seq} enough r h =
      elim (Bool-cases (ltb f.packet_builder.bytes_remaining (length (frame m)))) [
        | inl full ↦ (
          f,
          build_loop-stop host fuel f f inside (build_round-full r host (ltb→lt _ _ full)),
          subst₂ (λ now later. Packed f f capacity lead all before held now later name seq)
              (ap (λ b. if b then [] else m ∷ fill room' ms) (sym full))
              (ap (λ b. if b then m ∷ ms else left_over room' ms) (sym full)) (unchanged r h),
        )
        | inr fits ↦
            let (f', e, p) =
              build_loop-Packed host fuel ms (held ++ (m ∷ [])) (omega arith) (advanced-Replays r)
                (Holds-frame held m h (ltb-false→le _ _ fits)) in
            (
              f',
              build_loop-go host fuel f (advanced m f) inside
                    (build_round-fits r host (ltb-false→le _ _ fits))
                  ∙ e,
              subst₂ (λ now later. Packed f f' capacity lead all before held now later name seq)
                  (ap (λ b. if b then [] else m ∷ fill room' ms) (sym fits))
                  (ap (λ b. if b then m ∷ ms else left_over room' ms) (sym fits)) (Packed-cons m p),
            )
      ]
    where
      room' : ℕ
      room' = f.packet_builder.bytes_remaining - length (frame m)

      inside : f.file_pos < length f.file
      inside = omega (arith, sizes r, length-frame m)

  remaining-le-file :
      {f : Feed} {before ms : List (List ℕ)}
      → Replays f capacity lead all before ms
      → length ms ≤ length f.file
  remaining-le-file {f} {before} {ms} r = omega (
    arith,
    ap length (r.whole ∙ ap (λ t. lead ++ frames t) r.split),
    length-append lead (frames (before ++ ms)),
    ap length (frames-append before ms),
    length-append (frames before) (frames ms),
    length-le-frames ms,
  )

  -- On a well-formed file `build_packet` always ends. The packet then holds the next messages of
  -- the file, as many as fit the MTU in order, under the sequence number of the first; each is in
  -- the retransmission buffer, and the position and the sequence number stand past them.
  pub build_packet-Packed :
      (host : Endian) {f : Feed} {before ms held : List (List ℕ)} {name : List ℕ} {seq : ℕ}
      → Replays f capacity lead all before ms
      → Holds f.packet_builder name seq held
      → let room = f.packet_builder.mtu - 20 in
        (f' : Feed) × (build_packet host f ≡ some f')
        × Packed f f' capacity lead all before []
            (fill room ms)
            (left_over room ms)
            name
            f.sequence_number
  unfolding build_packet PacketBuilder.reset
  build_packet-Packed host {f} {before} {ms} {held} {name} {seq} r h =
      let (f', e, p) =
        build_loop-Packed host (suc (length f.file)) ms []
          {f = record f {
            packet_builder = PacketBuilder.reset host f.sequence_number f.packet_builder;
          }}
          (omega (arith, remaining-le-file r))
          (record {
            span = r.span;
            messages = r.messages;
            split = r.split;
            whole = r.whole;
            reached = r.reached;
            next = r.next;
            retained = r.retained;
          })
          (reset-Holds host f.sequence_number h) in
      (
        f',
        e,
        record {
          replays = p.replays;
          holds = p.holds;
          same_mtu = p.same_mtu;
          same_pacer = p.same_pacer;
          same_sent = p.same_sent;
        },
      )
