-- ===== src/Downstream/Feed/Packing/Termination.antt =====
-- The loop of `build_packet` on any file.
use nasdaq_moldudp64_feed_si.Prelude.{
  ℕ, zero, suc, ◌+◌, ◌≤◌, ◌<◌, ◌≡◌, refl, sym, ap, ◌∙◌, subst, Bool, true, false, List, [], ◌∷◌,
  length, some, Bool-cases, inl, inr, ◌⊎◌, arith,
}
use native.Mathlib.Decide.{dec_lt}
use nasdaq_moldudp64_feed_si.BinaryIo.{Endian}
use nasdaq_moldudp64_feed_si.Io.{read_message}
use nasdaq_moldudp64_feed_si.Io.Reading.{IsSpan, read_message_bounds}
use nasdaq_moldudp64_feed_si.PacketBuilder
use nasdaq_moldudp64_feed_si.PacketBuilder.{PacketBuilder}
use nasdaq_moldudp64_feed_si.Downstream.Feed.{
  Feed, after_try_add, add_message, build_round, build_loop, build_packet,
}
use nasdaq_moldudp64_feed_si.Downstream.Feed.Packing.Loop.{
  build_loop-end, build_loop-stop, build_loop-go,
}

-- Where a round leaves the position: within the same file, and further on if the loop goes on.
record Moves (f : Feed) (r : Feed × Bool) : Type 0 where
  same_file : r.0.file ≡ f.file
  within : r.0.file_pos ≤ length f.file
  onward : r.1 ≡ true → f.file_pos < r.0.file_pos

after_try_add-Moves :
    (f : Feed) (added : Bool × PacketBuilder) (moved : ℕ)
    → f.file_pos < moved
    → moved ≤ length f.file
    → Moves f (after_try_add f.file_pos added (record f { file_pos = moved }))
unfolding after_try_add
after_try_add-Moves f (true, b) moved up inside = record {
  same_file = refl;
  within = inside;
  onward = λ _. up;
}
after_try_add-Moves f (false, b) moved up inside = record {
  same_file = refl;
  within = omega arith;
  onward = λ e. absurd cc;
}

add_message-Moves :
    (f : Feed) (m : List ℕ) (moved : ℕ)
    → moved ≤ length f.file
    → (m ≡ []) ⊎ (f.file_pos < moved)
    → Moves f (add_message f.file_pos (m, moved) f)
unfolding add_message
add_message-Moves f [] moved inside h = record {
  same_file = refl;
  within = inside;
  onward = λ e. absurd cc;
}
add_message-Moves f (b ∷ bs) moved inside (inl e) = absurd cc
add_message-Moves f (b ∷ bs) moved inside (inr up) =
    after_try_add-Moves f (PacketBuilder.try_add (b ∷ bs) f.packet_builder) moved up inside

build_round-Moves :
    (host : Endian) (f : Feed)
    → IsSpan f.file
    → f.file_pos ≤ length f.file
    → Moves f (build_round host f)
unfolding build_round
build_round-Moves host f span here =
    let (inside, what) = read_message_bounds host f.file f.file_pos span here in
    add_message-Moves f (read_message host f.file f.file_pos).0
      (read_message host f.file f.file_pos).1 inside
      (elim what [ inl e ↦ inl e | inr (two, e, _) ↦ inr (omega (arith, e)) ])

build_loop-returns :
    (host : Endian) (fuel : ℕ) (f : Feed)
    → IsSpan f.file
    → f.file_pos ≤ length f.file
    → length f.file < fuel + f.file_pos
    → (f' : Feed) × (build_loop host fuel f ≡ some f')
      × (f'.file ≡ f.file)
      × (f'.file_pos ≤ length f.file)
build_loop-returns host zero f span here enough = absurd (omega arith)
build_loop-returns host (suc fuel) f span here enough = elim (dec_lt f.file_pos (length f.file)) [
  | no past ↦ (f, build_loop-end host fuel f (omega arith), refl, here)
  | yes inside ↦ elim (Bool-cases (build_round host f).1) [
    | inr ends ↦ (
      (build_round host f).0,
      build_loop-stop host fuel f (build_round host f).0 inside
          (ap (λ t. ((build_round host f).0, t)) ends),
      step.same_file,
      step.within,
    )
    | inl goes ↦
        let g = (build_round host f).0 in
        let (f', e, same, within) =
          build_loop-returns host fuel g (subst IsSpan (sym step.same_file) span)
            (omega (arith, step.within, ap length step.same_file))
            (omega (arith, step.onward goes, ap length step.same_file, enough)) in
        (
          f',
          build_loop-go host fuel f g inside (ap (λ t. (g, t)) goes) ∙ e,
          same ∙ step.same_file,
          omega (arith, within, ap length step.same_file),
        )
  ]
]
  where
    step : Moves f (build_round host f)
    step = build_round-Moves host f span here

-- On any file, well-formed or not, `build_packet` from a position within the file ends, and leaves
-- a position within the same file.
pub build_packet-returns :
    (host : Endian) (f : Feed)
    → IsSpan f.file
    → f.file_pos ≤ length f.file
    → (f' : Feed) × (build_packet host f ≡ some f')
      × (f'.file ≡ f.file)
      × (f'.file_pos ≤ length f.file)
unfolding build_packet
build_packet-returns host f span here =
    build_loop-returns host (suc (length f.file))
      (record f { packet_builder = PacketBuilder.reset host f.sequence_number f.packet_builder })
      span here (omega arith)
