-- ===== src/Retransmission/Feed/Reply.antt =====
-- `build_packet` on a well-formed file: the requested messages that fit, in order.
use mathlib.Core.Path.{subst₂}
use nasdaq_moldudp64_feed_si.Prelude.{
  ℕ, zero, suc, ◌+◌, ◌-◌, ◌<◌, ◌≡◌, refl, sym, ap, subst, true, false, List, [], ◌∷◌, ◌++◌, map,
  length, take, ltb, if◌then◌else◌, append-nil, append_assoc, length-append, All, arith, Bool-cases,
  ltb→lt, ltb-false→le, inl, inr,
}
use nasdaq_moldudp64_feed_si.BinaryIo.{Endian}
use nasdaq_moldudp64_feed_si.Io.{read_message}
use nasdaq_moldudp64_feed_si.Io.Reading.{IsSpan, read_message-short}
use nasdaq_moldudp64_feed_si.Io.Frames.{frame, frames, IsMessage, length-frame, read_message-frame}
use nasdaq_moldudp64_feed_si.PacketBuilder
use nasdaq_moldudp64_feed_si.PacketBuilder.{PacketBuilder}
use nasdaq_moldudp64_feed_si.PacketBuilder.Contents.{Holds, with_message, try_add_ok, try_add_full}
use nasdaq_moldudp64_feed_si.PacketBuilder.Wire.{Holds-frame}
use nasdaq_moldudp64_feed_si.Downstream.Feed.Packing.{fill}
use nasdaq_moldudp64_feed_si.Retransmission.Feed.{build_loop}

module _ (host : Endian) (file : List ℕ) (rounds pos pos' : ℕ) (b b' : PacketBuilder)
    (m : List ℕ) where
  loop-end : read_message host file pos ≡ ([], pos') → build_loop host file (suc rounds) pos b ≡ b
  unfolding build_loop
  loop-end e = ground arith

  loop-full :
      read_message host file pos ≡ (m, pos')
      → 0 < length m
      → PacketBuilder.try_add m b ≡ (false, b)
      → build_loop host file (suc rounds) pos b ≡ b
  unfolding build_loop
  loop-full e some_bytes full = ground arith

  loop-go :
      read_message host file pos ≡ (m, pos')
      → 0 < length m
      → PacketBuilder.try_add m b ≡ (true, b')
      → build_loop host file (suc rounds) pos b ≡ build_loop host file rounds pos' b'
  unfolding build_loop
  loop-go e some_bytes added = ground arith

-- From `b` to `b'` the messages `now` were added behind `held`.
pub record Filled (b b' : PacketBuilder) (held now : List (List ℕ)) (name : List ℕ) (seq : ℕ)
    : Type 0 where
  pub holds : Holds b' name seq (map frame (held ++ now))
  pub same_mtu : b'.mtu ≡ b.mtu

module _ {b : PacketBuilder} {held : List (List ℕ)} {name : List ℕ} {seq : ℕ}
    (h : Holds b name seq (map frame held)) where
  Filled-nothing : Filled b b held [] name seq
  Filled-nothing = record {
    holds = subst (λ x. Holds b name seq (map frame x)) (sym (append-nil held)) h;
    same_mtu = refl;
  }

  Filled-cons :
      {b' : PacketBuilder} {now : List (List ℕ)} (m : List ℕ)
      → Filled (with_message (frame m) b) b' (held ++ (m ∷ [])) now name seq
      → Filled b b' held (m ∷ now) name seq
  Filled-cons {b'} {now} m p = record {
    holds = subst (λ x. Holds b' name seq (map frame x)) (append_assoc held (m ∷ []) now) p.holds;
    same_mtu = p.same_mtu;
  }

-- With the file at the messages `ms`, the loop adds, of the first `rounds` of them, as many as fit.
pub build_loop-Filled :
    (host : Endian) (done : List ℕ) (rounds : ℕ) (ms held : List (List ℕ)) {b : PacketBuilder}
    {name : List ℕ} {seq : ℕ}
    → IsSpan (done ++ frames ms)
    → All IsMessage ms
    → Holds b name seq (map frame held)
    → Filled b
        (build_loop host (done ++ frames ms) rounds (length done) b)
        held
        (fill b.bytes_remaining (take rounds ms))
        name
        seq
build_loop-Filled host done zero ms held span messages h = unfold build_loop in Filled-nothing h
build_loop-Filled host done (suc rounds) [] held {b} {name} {seq} span messages h =
    subst (λ x. Filled b x held [] name seq)
      (sym (
        loop-end host (done ++ []) rounds (length done) (length done) b b [] (
          read_message-short host (done ++ []) (length done) span
            (omega (arith, length-append done [])) (omega (arith, length-append done [])))))
      (Filled-nothing h)
build_loop-Filled host done (suc rounds) (m ∷ ms) held {b} {name} {seq} span messages h =
    elim (Bool-cases (ltb b.bytes_remaining (length (frame m)))) [
      | inl full ↦
          subst₂ (λ x now. Filled b x held now name seq)
            (sym (
              loop-full host file rounds (length done) after b b (frame m) reads some_bytes
                (try_add_full (frame m) b (ltb→lt _ _ full))))
            (ap (λ t. if t then [] else m ∷ fill room (take rounds ms)) (sym full))
            (Filled-nothing h)
      | inr fits ↦
          subst₂ (λ x now. Filled b x held now name seq)
            (sym (
              loop-go host file rounds (length done) after b b' (frame m) reads some_bytes
                (try_add_ok (frame m) b some_bytes (ltb-false→le _ _ fits))))
            (ap (λ t. if t then [] else m ∷ fill room (take rounds ms)) (sym fits))
            (Filled-cons h m (
              subst₂
                (λ bytes pos.
                  Filled b' (build_loop host bytes rounds pos b') (held ++ (m ∷ []))
                    (fill room (take rounds ms)) name seq)
                (append_assoc done (frame m) (frames ms)) (length-append done (frame m))
                (build_loop-Filled host (done ++ frame m) rounds ms (held ++ (m ∷ []))
                  (subst IsSpan (sym (append_assoc done (frame m) (frames ms))) span) messages.1
                  (Holds-frame held m h (ltb-false→le _ _ fits)))))
    ]
  where
    file : List ℕ
    file = done ++ (frame m ++ frames ms)

    after : ℕ
    after = length done + length (frame m)

    b' : PacketBuilder
    b' = with_message (frame m) b

    room : ℕ
    room = b.bytes_remaining - length (frame m)

    some_bytes : 0 < length (frame m)
    some_bytes = omega (arith, length-frame m)

    reads : read_message host file (length done) ≡ (frame m, after)
    reads = read_message-frame done m (frames ms) messages.0 host span
