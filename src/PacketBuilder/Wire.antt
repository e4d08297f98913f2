-- ===== src/PacketBuilder/Wire.antt =====
-- A receiver of MoldUDP64 packets, and what it makes of a packet that was built here.
use mathlib.Core.List.{map-append}
use mathlib.Core.Path.{subst₂}
use nasdaq_moldudp64_feed_si.Prelude.{
  ℕ, Bool, zero, suc, ◌+◌, ◌*◌, ◌%◌, ◌^◌, ◌≤◌, ◌<◌, ◌≡◌, refl, sym, ap, ap₂, ◌∙◌, Option, none,
  some, List, [], ◌∷◌, ◌++◌, map, length, take, drop, ltb, if◌then◌else◌, length-append,
  take-length, take-front, drop-front, append_assoc, append-nil, All, arith,
}
use nasdaq_moldudp64_feed_si.Types.{end_of_session_msg_count}
use nasdaq_moldudp64_feed_si.BinaryIo.{Endian}
use nasdaq_moldudp64_feed_si.BinaryIo.Bytes.{be_bytes, be_value, length-be_bytes, be_value-be_bytes}
use nasdaq_moldudp64_feed_si.Io.Frames.{frame, frames, IsMessage, length-frame}
use nasdaq_moldudp64_feed_si.PacketBuilder.{PacketBuilder, datagram, finalize}
use nasdaq_moldudp64_feed_si.PacketBuilder.Contents.{
  with_message, try_add_ok, try_add-Holds, Holds, header, concat, total_size, datagram-finalize,
}

pub record Packet : Type 0 where
  pub session : List ℕ
  pub sequence_number : ℕ
  pub message_count : ℕ
  pub messages : List (List ℕ)

prepend : List ℕ → Option (List (List ℕ)) → Option (List (List ℕ))
prepend m none = none
prepend m (some ms) = some (m ∷ ms)

-- The message block: `count` messages behind their lengths, and nothing more.
split_block : ℕ → List ℕ → Option (List (List ℕ))
unfolding prepend
split_block zero [] = some []
split_block zero (b ∷ bs) = none
split_block (suc count) bytes =
    let size = be_value (take 2 bytes) in
    let rest = split_block count (drop (2 + size) bytes) in
    if ltb (length bytes) (2 + size) then none else prepend (take size (drop 2 bytes)) rest

with_block : List ℕ → ℕ → ℕ → Option (List (List ℕ)) → Option Packet
with_block name seq count none = none
with_block name seq count (some ms) =
    some (record { session = name; sequence_number = seq; message_count = count; messages = ms })

-- Session, sequence number, count and message block of a datagram.
pub decode : List ℕ → Option Packet
decode bytes =
    let count = be_value (take 2 (drop 18 bytes)) in
    if ltb (length bytes) 20
    then none
    else with_block (take 10 bytes) (be_value (take 8 (drop 10 bytes))) count
        (split_block count (drop 20 bytes))

concat-frames : (ms : List (List ℕ)) → concat (map frame ms) ≡ frames ms
concat-frames [] = refl
concat-frames (m ∷ ms) = ap (λ t. frame m ++ t) (concat-frames ms)

split_block-cons :
    (count : ℕ) (m rest : List ℕ)
    → IsMessage m
    → split_block (suc count) (frame m ++ rest) ≡ prepend m (split_block count rest)
unfolding split_block
split_block-cons count m rest ok = ground (arith, size, long, body, tail)
  where
    regroup : frame m ++ rest ≡ be_bytes 2 (length m) ++ (m ++ rest)
    regroup = append_assoc (be_bytes 2 (length m)) m rest

    size : be_value (take 2 (frame m ++ rest)) ≡ length m
    size =
        ap (λ bs. be_value (take 2 bs)) regroup
        ∙ ap be_value
            (take-front 2 (be_bytes 2 (length m)) (m ++ rest) (length-be_bytes 2 (length m)))
        ∙ be_value-be_bytes 2 (length m) ok.1

    long : length (frame m ++ rest) ≡ 2 + length m + length rest
    long = omega (arith, length-append (frame m) rest, length-frame m)

    body : take (length m) (drop 2 (frame m ++ rest)) ≡ m
    body =
        ap (λ bs. take (length m) (drop 2 bs)) regroup
        ∙ ap (take (length m))
            (drop-front 2 (be_bytes 2 (length m)) (m ++ rest) (length-be_bytes 2 (length m)))
        ∙ take-length m rest

    tail : drop (2 + length m) (frame m ++ rest) ≡ rest
    tail = drop-front (2 + length m) (frame m) rest (length-frame m)

split_block-frames :
    (ms : List (List ℕ)) → All IsMessage ms → split_block (length ms) (frames ms) ≡ some ms
split_block-frames [] h = unfold split_block in refl
split_block-frames (m ∷ ms) h =
    split_block-cons (length ms) m (frames ms) h.0
    ∙ ap (prepend m) (split_block-frames ms h.1)
    ∙ unfold split_block in refl

-- The parts of a header, and what follows it.
pub record Fields (name : List ℕ) (seq count : ℕ) (block bytes : List ℕ) : Type 0 where
  pub long : length bytes ≡ 20 + length block
  pub session : take 10 bytes ≡ name
  pub sequence : take 8 (drop 10 bytes) ≡ be_bytes 8 seq
  pub counted : take 2 (drop 18 bytes) ≡ be_bytes 2 count
  pub rest : drop 20 bytes ≡ block

pub header-Fields :
    (name : List ℕ) (seq count : ℕ) (block : List ℕ)
    → length name ≡ 10
    → Fields name seq count block (header name seq count ++ block)
header-Fields name seq count block ten = record {
  long = long;
  session = session;
  sequence = sequence;
  counted = counted;
  rest = rest;
}
  where
    bytes : List ℕ
    bytes = header name seq count ++ block

    long : length bytes ≡ 20 + length block
    long = omega (
      arith,
      length-append (header name seq count) block,
      length-append name (be_bytes 8 seq ++ be_bytes 2 count),
      length-append (be_bytes 8 seq) (be_bytes 2 count),
      length-be_bytes 8 seq,
      length-be_bytes 2 count,
    )

    -- The fields from the left, each in front of what follows it.
    from_sequence : List ℕ
    from_sequence = be_bytes 8 seq ++ (be_bytes 2 count ++ block)

    as_fields : bytes ≡ name ++ from_sequence
    as_fields =
        append_assoc name (be_bytes 8 seq ++ be_bytes 2 count) block
        ∙ ap (λ t. name ++ t) (append_assoc (be_bytes 8 seq) (be_bytes 2 count) block)

    session : take 10 bytes ≡ name
    session = ap (take 10) as_fields ∙ take-front 10 name from_sequence ten

    sequence : take 8 (drop 10 bytes) ≡ be_bytes 8 seq
    sequence =
        ap (λ bs. take 8 (drop 10 bs)) as_fields
        ∙ ap (take 8) (drop-front 10 name from_sequence ten)
        ∙ take-front 8 (be_bytes 8 seq) (be_bytes 2 count ++ block) (length-be_bytes 8 seq)

    counted : take 2 (drop 18 bytes) ≡ be_bytes 2 count
    counted =
        ap (λ bs. take 2 (drop 18 bs))
          (as_fields ∙ sym (append_assoc name (be_bytes 8 seq) (be_bytes 2 count ++ block)))
        ∙ ap (take 2) (
            drop-front 18 (name ++ be_bytes 8 seq) (be_bytes 2 count ++ block)
              (omega (arith, length-append name (be_bytes 8 seq), length-be_bytes 8 seq)))
        ∙ take-front 2 (be_bytes 2 count) block (length-be_bytes 2 count)

    rest : drop 20 bytes ≡ block
    rest =
        drop-front 20 (header name seq count) block
          (omega (arith, length-append (header name seq count) block, long))

decode-header :
    (name : List ℕ) (seq count : ℕ) (block : List ℕ)
    → length name ≡ 10
    → seq < 2 ^ 64
    → count < 2 ^ 16
    → decode (header name seq count ++ block) ≡ with_block name seq count (split_block count block)
unfolding decode
decode-header name seq count block ten small few = ground (
  arith,
  fields.long,
  fields.session,
  ap be_value fields.sequence,
  be_value-be_bytes 8 seq small,
  ap be_value fields.counted,
  be_value-be_bytes 2 count few,
  fields.rest,
)
  where
    fields : Fields name seq count block (header name seq count ++ block)
    fields = header-Fields name seq count block ten

-- A header with the count 0 is a packet without messages.
pub decode-no_messages :
    (name : List ℕ) (seq : ℕ)
    → length name ≡ 10
    → seq < 2 ^ 64
    → decode (header name seq 0)
      ≡ some (record { session = name; sequence_number = seq; message_count = 0; messages = [] })
unfolding with_block
decode-no_messages name seq ten small =
    ap decode (sym (append-nil (header name seq 0)))
    ∙ decode-header name seq 0 [] ten small (omega arith)
    ∙ ap (with_block name seq 0) (split_block-frames [] tt)

split_block-empty : (count : ℕ) → split_block (suc count) [] ≡ none
unfolding split_block
split_block-empty count = refl

-- The count of an end-of-session packet is no number of messages.
pub decode-end_of_session :
    (name : List ℕ) (seq : ℕ)
    → length name ≡ 10
    → seq < 2 ^ 64
    → decode (header name seq end_of_session_msg_count) ≡ none
unfolding with_block
decode-end_of_session name seq ten small =
    ap decode (sym (append-nil (header name seq end_of_session_msg_count)))
    ∙ decode-header name seq end_of_session_msg_count [] ten small (omega arith)
    ∙ ap (with_block name seq end_of_session_msg_count) (split_block-empty 65534)

length-frames : (ms : List (List ℕ)) → 2 * length ms ≤ total_size (map frame ms)
length-frames [] = omega arith
length-frames (m ∷ ms) = omega (arith, length-frames ms, length-frame m)

-- With an MTU up to 131089 bytes, the messages in a packet are fewer than 65535: their number
-- fits the 16-bit count, and is not the count that marks the end of the session.
pub messages-lt_end_of_session :
    {b : PacketBuilder} {name : List ℕ} {seq : ℕ} (ms : List (List ℕ))
    → Holds b name seq (map frame ms)
    → b.mtu < 131090
    → length ms < end_of_session_msg_count
messages-lt_end_of_session ms h small = omega (arith, h.room, length-frames ms)

pub length-map-frame : (ms : List (List ℕ)) → length (map frame ms) ≡ length ms
length-map-frame [] = refl
length-map-frame (m ∷ ms) = ap suc (length-map-frame ms)

-- A receiver decodes the datagram of a finalized packet to the session, the sequence number, the
-- number of messages and exactly the messages that were added, in order. The MTU is below 131090.
pub decode-datagram :
    (host : Endian) {b : PacketBuilder} {name : List ℕ} {seq : ℕ} (ms : List (List ℕ))
    → Holds b name seq (map frame ms)
    → All IsMessage ms
    → seq < 2 ^ 64
    → b.mtu < 131090
    → decode (datagram (finalize host b))
      ≡ some (record {
        session = name;
        sequence_number = seq;
        message_count = length ms;
        messages = ms;
      })
decode-datagram host {b} {name} {seq} ms h messages small mtu =
    ap decode (datagram-finalize host h (omega (arith, few, length-map-frame ms)))
    ∙ ap₂ (λ n t. decode (header name seq n ++ t)) count (concat-frames ms)
    ∙ decode-header name seq (length ms) (frames ms) h.ten small (omega (arith, few))
    ∙ ap (with_block name seq (length ms)) (split_block-frames ms messages)
    ∙ unfold with_block in refl
  where
    few : length ms < 65535
    few = messages-lt_end_of_session ms h mtu

    count : length (map frame ms) % 2 ^ 16 ≡ length ms
    count = omega (arith, few, length-map-frame ms)

-- A message that fits, added with its prefix.
pub Holds-frame :
    (held : List (List ℕ)) (m : List ℕ) {b : PacketBuilder} {name : List ℕ} {seq : ℕ}
    → Holds b name seq (map frame held)
    → length (frame m) ≤ b.bytes_remaining
    → Holds (with_message (frame m) b) name seq (map frame (held ++ (m ∷ [])))
Holds-frame held m {b} {name} {seq} h fits =
    subst₂ (λ (t : Bool × PacketBuilder) vs. Holds t.1 name seq vs)
      (try_add_ok (frame m) b some_bytes fits) (sym (map-append frame held (m ∷ [])))
      (try_add-Holds (frame m) h some_bytes fits).1
  where
    some_bytes : 0 < length (frame m)
    some_bytes = omega (arith, length-frame m)
