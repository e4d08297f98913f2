-- ===== src/Downstream/Feed/Packing.antt =====
-- `build_packet` on a well-formed file: the messages that fit go into the packet, in order.
pub mod Loop
pub mod Termination
use nasdaq_moldudp64_feed_si.Prelude.{
  ℕ, zero, suc, ◌+◌, ◌*◌, ◌-◌, ◌%◌, ◌^◌, ◌≤◌, ◌<◌, ◌≡◌, refl, sym, ap, ap₂, ◌∙◌, subst, Bool, true,
  false, List, [], ◌∷◌, ◌++◌, map, length, take, Option, none, some, ltb, if◌then◌else◌, add_size,
  append-nil, append_assoc, length-append, take-front, All, arith, lt→ltb, le→ltb-false, Bool-cases,
  ltb→lt, ltb-false→le, inl, inr,
}
use mathlib.Core.List.{map-append}
use mathlib.Core.Path.{subst₂}
use native.Mathlib.Decide.{dec_lt}
use nasdaq_moldudp64_feed_si.BinaryIo.{Endian}
use nasdaq_moldudp64_feed_si.Io.{read_message, skip_message}
use nasdaq_moldudp64_feed_si.Io.Reading.{IsSpan}
use nasdaq_moldudp64_feed_si.Io.Frames.{
  frame, frames, IsMessage, length-frame, read_message-frame, skip_message-frame,
}
use nasdaq_moldudp64_feed_si.PacketBuilder
use nasdaq_moldudp64_feed_si.PacketBuilder.{PacketBuilder}
use nasdaq_moldudp64_feed_si.PacketBuilder.Contents.{
  Holds, with_message, try_add_ok, try_add_full, reset-Holds,
}
use nasdaq_moldudp64_feed_si.RetransmissionBuffer
use nasdaq_moldudp64_feed_si.RetransmissionBuffer.{MessageRecord}
use nasdaq_moldudp64_feed_si.RetransmissionBuffer.Window.{Retains, push-Retains}
use nasdaq_moldudp64_feed_si.Downstream.Feed.{
  Feed, after_try_add, add_message, build_round, build_loop, build_packet,
}

-- The messages that fit `room` bytes, greedily, and those left for the next packet.
abbrev pub fill : ℕ → List (List ℕ) → List (List ℕ)
fill room [] = []
fill room (m ∷ ms) =
    if ltb room (length (frame m)) then [] else m ∷ fill (room - length (frame m)) ms

abbrev pub left_over : ℕ → List (List ℕ) → List (List ℕ)
left_over room [] = []
left_over room (m ∷ ms) =
    if ltb room (length (frame m)) then m ∷ ms else left_over (room - length (frame m)) ms

-- Where message `s`, counted from 1, starts in a file that is `lead` and the messages `all`.
abbrev pub position : List ℕ → List (List ℕ) → ℕ → ℕ
position lead all s = length lead + length (frames (take (s - 1) all))

pub frames-append : (xs ys : List (List ℕ)) → frames (xs ++ ys) ≡ frames xs ++ frames ys
frames-append [] ys = refl
frames-append (m ∷ xs) ys =
    ap (λ t. frame m ++ t) (frames-append xs ys)
    ∙ sym (append_assoc (frame m) (frames xs) (frames ys))

-- The feed has put the messages `before` into packets and has `ms` still to go. The file is `lead`,
-- which was skipped, and all the messages; the buffer retains the positions of `before`.
pub record Replays (f : Feed) (capacity : ℕ) (lead : List ℕ) (all before ms : List (List ℕ))
    : Type 0 where
  pub span : IsSpan f.file
  pub messages : All IsMessage ms
  pub split : all ≡ before ++ ms
  pub whole : f.file ≡ lead ++ frames all
  pub reached : f.file_pos ≡ length lead + length (frames before)
  pub next : f.sequence_number ≡ length before + 1
  pub retained : Retains f.retransmission_buffer capacity (length before) (position lead all)

pub length-le-frames : (ms : List (List ℕ)) → 2 * length ms ≤ length (frames ms)
length-le-frames [] = omega arith
length-le-frames (m ∷ ms) =
    omega (arith, length-le-frames ms, length-append (frame m) (frames ms), length-frame m)

add_message-some :
    (p q : ℕ) (bs : List ℕ) (f : Feed)
    → 0 < length bs
    → add_message p (bs, q) f
      ≡ after_try_add p (PacketBuilder.try_add bs f.packet_builder) (record f { file_pos = q })
unfolding add_message
add_message-some p q [] f h = absurd (omega arith)
add_message-some p q (b ∷ bs) f h = refl

-- The feed after one more message.
abbrev pub advanced : List ℕ → Feed → Feed
advanced m f = record f {
  file_pos = f.file_pos + length (frame m);
  packet_builder = with_message (frame m) f.packet_builder;
  retransmission_buffer =
      RetransmissionBuffer.push
        (record { sequence_number = f.sequence_number; file_position = f.file_pos })
        f.retransmission_buffer;
  sequence_number = add_size f.sequence_number 1;
}

module _ {f : Feed} {capacity : ℕ} {lead : List ℕ} {all before ms : List (List ℕ)} {m : List ℕ}
    (r : Replays f capacity lead all before (m ∷ ms)) where
  pub shape : f.file ≡ (lead ++ frames before) ++ (frame m ++ frames ms)
  shape =
      r.whole
      ∙ ap (λ t. lead ++ frames t) r.split
      ∙ ap (λ t. lead ++ t) (frames-append before (m ∷ ms))
      ∙ sym (append_assoc lead (frames before) (frame m ++ frames ms))

  pub at : f.file_pos ≡ length (lead ++ frames before)
  at = r.reached ∙ sym (length-append lead (frames before))

  pub reads :
      (host : Endian)
      → read_message host f.file f.file_pos ≡ (frame m, f.file_pos + length (frame m))
  reads host =
      ap₂ (read_message host) shape at
      ∙ read_message-frame (lead ++ frames before) m (frames ms) r.messages.0 host
          (subst IsSpan shape r.span)
      ∙ ap (λ p. (frame m, p + length (frame m))) (sym at)

  pub skips :
      (host : Endian) → skip_message host f.file f.file_pos ≡ (true, f.file_pos + length (frame m))
  skips host =
      ap₂ (skip_message host) shape at
      ∙ skip_message-frame (lead ++ frames before) m (frames ms) r.messages.0 host
          (subst IsSpan shape r.span)
      ∙ ap (λ p. (true, p + length (frame m))) (sym at)

  -- What is read is inside the file.
  pub sizes : length f.file ≡ f.file_pos + length (frame m) + length (frames ms)
  sizes = omega (
    arith,
    ap length shape,
    at,
    length-append (lead ++ frames before) (frame m ++ frames ms),
    length-append (frame m) (frames ms),
  )

  -- A message that fits joins the packet, the buffer and the count.
  pub build_round-fits :
      (host : Endian)
      → length (frame m) ≤ f.packet_builder.bytes_remaining
      → build_round host f ≡ (advanced m f, true)
  unfolding build_round after_try_add
  build_round-fits host fits =
      ap (λ x. add_message f.file_pos x f) (reads host)
      ∙ add_message-some f.file_pos (f.file_pos + length (frame m)) (frame m) f some_bytes
      ∙ ap (λ t. after_try_add f.file_pos t (record f { file_pos = f.file_pos + length (frame m) }))
          (try_add_ok (frame m) f.packet_builder some_bytes fits)
    where
      some_bytes : 0 < length (frame m)
      some_bytes = omega (arith, length-frame m)

  -- A message that does not fit is left for the next packet: nothing changes.
  pub build_round-full :
      (host : Endian)
      → f.packet_builder.bytes_remaining < length (frame m)
      → build_round host f ≡ (f, false)
  unfolding build_round after_try_add
  build_round-full host full =
      ap (λ x. add_message f.file_pos x f) (reads host)
      ∙ add_message-some f.file_pos (f.file_pos + length (frame m)) (frame m) f
          (omega (arith, length-frame m))
      ∙ ap (λ t. after_try_add f.file_pos t (record f { file_pos = f.file_pos + length (frame m) }))
          (try_add_full (frame m) f.packet_builder full)

  longer : length (before ++ (m ∷ [])) ≡ length before + 1
  longer = omega (arith, length-append before (m ∷ []))

  here : f.file_pos ≡ position lead all (length before + 1)
  here =
      r.reached
      ∙ ap (λ l. length lead + length (frames l))
          (sym (take-front (length before + 1 - 1) before (m ∷ ms) (omega arith))
            ∙ ap (take (length before + 1 - 1)) (sym r.split))

  pub advanced-Replays : Replays (advanced m f) capacity lead all (before ++ (m ∷ [])) ms
  advanced-Replays = record {
    span = r.span;
    messages = r.messages.1;
    split = r.split ∙ sym (append_assoc before (m ∷ []) ms);
    whole = r.whole;
    reached = omega (
      arith,
      r.reached,
      ap length (frames-append before (m ∷ [])),
      length-append (frames before) (frame m ++ []),
      length-append (frame m) [],
    );
    next = omega (
      arith,
      r.next,
      longer,
      r.span.1,
      sizes,
      r.reached,
      length-le-frames before,
      length-frame m,
    );
    retained =
        subst₂
          (λ n x.
            Retains (RetransmissionBuffer.push x f.retransmission_buffer) capacity n
              (position lead all))
          (sym longer) (ap₂ stamp (sym r.next) (sym here)) (push-Retains r.retained);
  }
    where
      stamp : ℕ → ℕ → MessageRecord
      stamp s p = record { sequence_number = s; file_position = p }
