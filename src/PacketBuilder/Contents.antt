-- ===== src/PacketBuilder/Contents.antt =====
-- What a builder holds: a session, a sequence number and messages, in the layout of a header
-- and one iovec for each message.
use nasdaq_moldudp64_feed_si.Prelude.{
  ℕ, suc, ◌+◌, ◌-◌, ◌%◌, ◌^◌, ◌≤◌, ◌<◌, ◌≡◌, refl, sym, ap, ◌∙◌, true, false, ◌⊎◌, inl, inr, List,
  [], ◌∷◌, ◌++◌, map, length, replicate, length-append, append_assoc, take-front, take, append-nil,
  overwrite, subst, ap₂, overwrite-append, arith,
}
use mathlib.Core.List.{map-append}
use native.Mathlib.Decide.{dec_lt}
use nasdaq_moldudp64_feed_si.Exception.{ok}
use nasdaq_moldudp64_feed_si.BinaryIo.{Endian, write_at_be, write_bytes_at}
use nasdaq_moldudp64_feed_si.BinaryIo.Bytes.{be_bytes, length-be_bytes}
use nasdaq_moldudp64_feed_si.BinaryIo.BigEndian.{write_at_be_field}
use nasdaq_moldudp64_feed_si.PacketBuilder.{
  Config, own_header, message, PacketBuilder, make, try_add, message_count, finalize, resize_one,
  reset, gather, datagram, session,
}

abbrev pub total_size : List (List ℕ) → ℕ
total_size [] = 0
total_size (m ∷ ms) = length m + total_size ms

abbrev pub concat : List (List ℕ) → List ℕ
concat [] = []
concat (m ∷ ms) = m ++ concat ms

-- The header: a session of ten bytes, a sequence number and a count.
abbrev pub header : List ℕ → ℕ → ℕ → List ℕ
header name seq count = name ++ (be_bytes 8 seq ++ be_bytes 2 count)

pub record Holds (b : PacketBuilder) (name : List ℕ) (seq : ℕ) (messages : List (List ℕ))
    : Type 0 where
  pub ten : length name ≡ 10
  pub count : ℕ
  pub layout : b.header_buffer ≡ header name seq count
  pub vectors : b.iovecs ≡ own_header ∷ map message messages
  pub room : b.bytes_remaining + total_size messages + 20 ≡ b.mtu

pub total_size-append :
    (xs ys : List (List ℕ)) → total_size (xs ++ ys) ≡ total_size xs + total_size ys
total_size-append [] ys = omega arith
total_size-append (x ∷ xs) ys = omega (arith, total_size-append xs ys)

length-map-message : (ms : List (List ℕ)) → length (map message ms) ≡ length ms
length-map-message [] = refl
length-map-message (m ∷ ms) = ap suc (length-map-message ms)

pub session-Holds :
    {b : PacketBuilder} {name : List ℕ} {seq : ℕ} {held : List (List ℕ)}
    → Holds b name seq held
    → session b ≡ name
unfolding session
session-Holds {b} {name} {seq} h = ap (take 10) h.layout ∙ take-front 10 name _ h.ten

-- What the constructor returns, by its checks.
abbrev fresh : Config → PacketBuilder
fresh cfg = record {
  mtu = cfg.mtu;
  bytes_remaining = cfg.mtu - 20;
  header_buffer = overwrite (replicate 20 0) cfg.session;
  iovecs = own_header ∷ [];
  min_message_size = cfg.min_message_size;
}

make_ok :
    (cfg : Config) (b : PacketBuilder)
    → make cfg ≡ ok b
    → (20 ≤ cfg.mtu) × (length cfg.session ≡ 10) × (fresh cfg ≡ b)
unfolding make write_bytes_at
make_ok cfg b e = ground arith

fresh-Holds :
    (cfg : Config) → 20 ≤ cfg.mtu → length cfg.session ≡ 10 → Holds (fresh cfg) cfg.session 0 []
unfolding be_bytes
fresh-Holds cfg enough ten = record {
  ten = ten;
  count = 0;
  layout = overwrite-append (replicate 10 0) (replicate 10 0) cfg.session ten;
  vectors = refl;
  room = omega arith;
}

-- A builder that the constructor returns has the configured MTU and session, and no message.
pub make-Holds :
    (cfg : Config) {b : PacketBuilder}
    → make cfg ≡ ok b
    → Holds b cfg.session 0 [] × (b.mtu ≡ cfg.mtu)
make-Holds cfg {b} e =
    let (enough, ten, same) = make_ok cfg b e in
    (
      subst (λ x. Holds x cfg.session 0 []) same (fresh-Holds cfg enough ten),
      ap (λ x. x.mtu) (sym same),
    )

-- `reset` keeps the session, installs the sequence number and drops the messages.
pub reset-Holds :
    (host : Endian) (seq' : ℕ) {b : PacketBuilder} {name : List ℕ} {seq : ℕ} {ms : List (List ℕ)}
    → Holds b name seq ms
    → Holds (reset host seq' b) name seq' []
unfolding reset
reset-Holds host seq' {b} {name} {seq} {ms} h = record {
  ten = h.ten;
  count = h.count;
  layout =
      ap (λ buf. write_at_be host 8 buf 10 seq') h.layout
      ∙ write_at_be_field host 8 name (be_bytes 8 seq) (be_bytes 2 h.count) seq' 10
          (length-be_bytes 8 seq) h.ten;
  vectors = ap resize_one h.vectors;
  room = omega (arith, h.room);
}

abbrev pub with_message : List ℕ → PacketBuilder → PacketBuilder
with_message m b = record b {
  bytes_remaining = b.bytes_remaining - length m;
  iovecs = b.iovecs ++ (message m ∷ []);
}

pub try_add_ok :
    (m : List ℕ) (b : PacketBuilder)
    → 0 < length m
    → length m ≤ b.bytes_remaining
    → try_add m b ≡ (true, with_message m b)
unfolding try_add
try_add_ok m b some_bytes fits = ground arith

pub try_add_full :
    (m : List ℕ) (b : PacketBuilder) → b.bytes_remaining < length m → try_add m b ≡ (false, b)
unfolding try_add
try_add_full m b full = ground arith

try_add_empty : (m : List ℕ) (b : PacketBuilder) → length m ≡ 0 → try_add m b ≡ (false, b)
unfolding try_add
try_add_empty m b none_left = ground arith

-- `try_add` accepts a nonempty message that fits, and appends it.
pub try_add-Holds :
    (m : List ℕ) {b : PacketBuilder} {name : List ℕ} {seq : ℕ} {ms : List (List ℕ)}
    → Holds b name seq ms
    → 0 < length m
    → length m ≤ b.bytes_remaining
    → ((try_add m b).0 ≡ true) × Holds (try_add m b).1 name seq (ms ++ (m ∷ []))
unfolding try_add
try_add-Holds m {b} {name} {seq} {ms} h some_bytes fits =
    (ground arith, rw (try_add_ok m b some_bytes fits) added)
  where
    added : Holds (with_message m b) name seq (ms ++ (m ∷ []))
    added = record {
      ten = h.ten;
      count = h.count;
      layout = h.layout;
      vectors = rw h.vectors (ap (λ vs. own_header ∷ vs) (sym (map-append message ms (m ∷ []))));
      room = omega (arith, h.room, total_size-append ms (m ∷ []));
    }

-- `try_add` accepts a message exactly if it is not empty and not larger than what is left: then it
-- returns true and the builder holds the message behind the others; otherwise it returns false and
-- leaves the builder as it was.
pub try_add_outcome :
    (m : List ℕ) {b : PacketBuilder} {name : List ℕ} {seq : ℕ} {ms : List (List ℕ)}
    → Holds b name seq ms
    → ((0 < length m)
        × (length m ≤ b.bytes_remaining)
        × ((try_add m b).0 ≡ true)
        × Holds (try_add m b).1 name seq (ms ++ (m ∷ [])))
      ⊎ (((length m ≡ 0) ⊎ (b.bytes_remaining < length m)) × (try_add m b ≡ (false, b)))
try_add_outcome m {b} {name} {seq} {ms} h = elim (dec_lt b.bytes_remaining (length m)) [
  | yes full ↦ inr (inr full, try_add_full m b full)
  | no fits ↦ elim (dec_lt 0 (length m)) [
    | yes some_bytes ↦
        let (accepted, held) = try_add-Holds m h some_bytes (omega arith) in
        inl (some_bytes, omega arith, accepted, held)
    | no empty ↦ inr (inl (omega arith), try_add_empty m b (omega arith))
  ]
]

message_count_lem :
    {b : PacketBuilder} {name : List ℕ} {seq : ℕ} {ms : List (List ℕ)}
    → Holds b name seq ms
    → length ms < 2 ^ 64
    → message_count b ≡ length ms % 2 ^ 16
unfolding message_count
message_count_lem {b} {name} {seq} {ms} h few =
    omega (arith, ap length h.vectors, length-map-message ms)

-- The header of a finalized packet: session, sequence number, and the number of messages as the
-- 16-bit count.
pub finalize_layout :
    (host : Endian) {b : PacketBuilder} {name : List ℕ} {seq : ℕ} {ms : List (List ℕ)}
    → Holds b name seq ms
    → length ms < 2 ^ 64
    → (finalize host b).header_buffer ≡ header name seq (length ms % 2 ^ 16)
unfolding finalize
finalize_layout host {b} {name} {seq} {ms} h few =
    ap₂ (λ buf n. write_at_be host 2 buf 18 n) (h.layout ∙ regroup h.count)
      (message_count_lem h few)
    ∙ ap (λ buf. write_at_be host 2 buf 18 (length ms % 2 ^ 16)) refl
    ∙ write_at_be_field host 2 (name ++ be_bytes 8 seq) (be_bytes 2 h.count) [] (length ms % 2 ^ 16)
        18 (length-be_bytes 2 h.count)
        (omega (arith, length-append name (be_bytes 8 seq), length-be_bytes 8 seq, h.ten))
    ∙ sym (regroup (length ms % 2 ^ 16))
  where
    regroup : (n : ℕ) → header name seq n ≡ (name ++ be_bytes 8 seq) ++ (be_bytes 2 n ++ [])
    regroup n =
        sym (append_assoc name (be_bytes 8 seq) (be_bytes 2 n))
        ∙ ap (λ t. (name ++ be_bytes 8 seq) ++ t) (sym (append-nil (be_bytes 2 n)))

pub finalize-Holds :
    (host : Endian) {b : PacketBuilder} {name : List ℕ} {seq : ℕ} {ms : List (List ℕ)}
    → Holds b name seq ms
    → length ms < 2 ^ 64
    → Holds (finalize host b) name seq ms
finalize-Holds host {b} {name} {seq} {ms} h few = record {
  ten = h.ten;
  count = length ms % 2 ^ 16;
  layout = finalize_layout host h few;
  vectors = unfold finalize in h.vectors;
  room = unfold finalize in h.room;
}

gather_messages : (buf : List ℕ) (ms : List (List ℕ)) → gather buf (map message ms) ≡ concat ms
unfolding gather
gather_messages buf [] = refl
gather_messages buf (m ∷ ms) = ap (λ t. m ++ t) (gather_messages buf ms)

-- The datagram of a finalized packet is the header followed by the messages in the order in which
-- they were added.
pub datagram-finalize :
    (host : Endian) {b : PacketBuilder} {name : List ℕ} {seq : ℕ} {ms : List (List ℕ)}
    → Holds b name seq ms
    → length ms < 2 ^ 64
    → datagram (finalize host b) ≡ header name seq (length ms % 2 ^ 16) ++ concat ms
unfolding datagram
datagram-finalize host {b} {name} {seq} {ms} h few =
    ap₂ gather (finalize_layout host h few) (finalize-Holds host h few).vectors
    ∙ ap (λ t. header name seq (length ms % 2 ^ 16) ++ t) (gather_messages _ ms)

length-concat : (ms : List (List ℕ)) → length (concat ms) ≡ total_size ms
length-concat [] = refl
length-concat (m ∷ ms) = omega (arith, length-append m (concat ms), length-concat ms)

-- The room that a builder keeps account of is that of the datagram.
pub length-datagram-le :
    (host : Endian) {b : PacketBuilder} {name : List ℕ} {seq : ℕ} {ms : List (List ℕ)}
    → Holds b name seq ms
    → length ms < 2 ^ 64
    → length (datagram (finalize host b)) ≤ b.mtu
length-datagram-le host {b} {name} {seq} {ms} h few = omega (
  arith,
  ap length (datagram-finalize host h few),
  length-append (header name seq (length ms % 2 ^ 16)) (concat ms),
  length-append name (be_bytes 8 seq ++ be_bytes 2 (length ms % 2 ^ 16)),
  length-append (be_bytes 8 seq) (be_bytes 2 (length ms % 2 ^ 16)),
  length-be_bytes 8 seq,
  length-be_bytes 2 (length ms % 2 ^ 16),
  length-concat ms,
  h.ten,
  h.room,
)
