-- ===== src/Downstream/Heartbeat/Thread.antt =====
-- What the heartbeat's thread sends.
use nasdaq_moldudp64_feed_si.Prelude.{
  ℕ, ◌^◌, ◌<◌, ◌≡◌, refl, sym, ap, ap₂, ◌∙◌, List, [], ◌∷◌, ◌++◌, map, length, replicate, some,
  if◌then◌else◌, append-nil, append_assoc, length-append, overwrite-append, All, Bool-cases, inl,
  inr, arith,
}
use nasdaq_moldudp64_feed_si.Prelude.Int.{ℤ}
use nasdaq_moldudp64_feed_si.BinaryIo.{Endian, write_at_be, write_bytes_at}
use nasdaq_moldudp64_feed_si.BinaryIo.Bytes.{be_bytes, length-be_bytes}
use nasdaq_moldudp64_feed_si.BinaryIo.BigEndian.{write_at_be_field}
use nasdaq_moldudp64_feed_si.PacketBuilder.Contents.{header}
use nasdaq_moldudp64_feed_si.PacketBuilder.Wire.{decode, decode-no_messages}
use nasdaq_moldudp64_feed_si.Downstream.Feed.Replay.{packet_of}
use nasdaq_moldudp64_feed_si.Downstream.Heartbeat.{Heartbeat, Beat, make, send, run}

-- The packet is a header of the session with the count 0.
pub record Announces (h : Heartbeat) (name : List ℕ) : Type 0 where
  pub ten : length name ≡ 10
  pub seq : ℕ
  pub layout : h.packet ≡ header name seq 0

pub make-Announces :
    (host : Endian) (period : ℤ) (name : List ℕ)
    → length name ≡ 10
    → Announces (make host period name) name
unfolding make write_bytes_at be_bytes
make-Announces host period name ten = record {
  ten = ten;
  seq = 0;
  layout =
      ap (λ buf. write_at_be host 2 buf 18 0)
        (overwrite-append (replicate 10 0) (replicate 10 0) name ten)
      ∙ ap (λ buf. write_at_be host 2 buf 18 0)
          (sym (append_assoc name (replicate 8 0) (replicate 2 0)))
      ∙ write_at_be_field host 2 (name ++ replicate 8 0) (replicate 2 0) [] 0 18 refl
          (omega (arith, length-append name (replicate 8 0), ten))
      ∙ append_assoc name (replicate 8 0) (replicate 2 0);
}

module _ (host : Endian) {h : Heartbeat} {name : List ℕ} (a : Announces h name) (seq : ℕ) where
  pub sent_packet : write_at_be host 8 h.packet 10 seq ≡ header name seq 0
  sent_packet =
      ap (λ buf. write_at_be host 8 buf 10 seq) a.layout
      ∙ write_at_be_field host 8 name (be_bytes 8 a.seq) (be_bytes 2 0) seq 10
          (length-be_bytes 8 a.seq) a.ten

  pub send-Announces : Announces (send host seq h) name
  unfolding send
  send-Announces = record { ten = a.ten; seq = seq; layout = sent_packet }

-- The numbers that the thread reads in the rounds before it is stopped.
abbrev pub numbers : List Beat → List ℕ
numbers [] = []
numbers (beat ∷ beats) = if beat.stop_requested then [] else beat.next_seq ∷ numbers beats

run-headers :
    (host : Endian) (beats : List Beat) {h : Heartbeat} {name : List ℕ}
    → Announces h name
    → (run host beats h).sent ≡ h.sent ++ map (λ seq. header name seq 0) (numbers beats)
unfolding run
run-headers host [] {h} a = sym (append-nil h.sent)
run-headers host (beat ∷ beats) {h} {name} a = elim (Bool-cases beat.stop_requested) [
  | inl stopped ↦ rw stopped (sym (append-nil h.sent))
  | inr going ↦ rw going (
      run-headers host beats (send-Announces host a beat.next_seq)
      ∙ unfold send in
        (ap (λ p. (h.sent ++ (p ∷ [])) ++ map (λ seq. header name seq 0) (numbers beats))
            (sent_packet host a beat.next_seq)
          ∙ append_assoc h.sent (header name beat.next_seq 0 ∷ []) _))
]

pub decode-headers :
    (name : List ℕ) (seqs : List ℕ)
    → length name ≡ 10
    → All (λ seq. seq < 2 ^ 64) seqs
    → map decode (map (λ seq. header name seq 0) seqs)
      ≡ map (λ seq. some (packet_of name seq [])) seqs
decode-headers name [] ten small = refl
decode-headers name (seq ∷ seqs) ten small =
    ap₂ (λ p ps. p ∷ ps) (decode-no_messages name seq ten small.0)
      (decode-headers name seqs ten small.1)

-- The thread of a heartbeat that was just made sends, in each round before it is stopped, one
-- datagram, which a receiver decodes to a packet of the session without messages that has the
-- sequence number read in that round. The session has ten bytes.
run-heartbeats :
    (host : Endian) (period : ℤ) (name : List ℕ) (beats : List Beat)
    → length name ≡ 10
    → All (λ seq. seq < 2 ^ 64) (numbers beats)
    → map decode (run host beats (make host period name)).sent
      ≡ map (λ seq. some (packet_of name seq [])) (numbers beats)
unfolding make
run-heartbeats host period name beats ten small =
    ap (map decode) (run-headers host beats (make-Announces host period name ten))
    ∙ decode-headers name (numbers beats) ten small
