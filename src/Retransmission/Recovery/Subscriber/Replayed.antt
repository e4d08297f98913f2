-- ===== src/Retransmission/Recovery/Subscriber/Replayed.antt =====
-- A whole session as a subscriber sees it: a run of `start`, losses, and what is recovered.
use nasdaq_moldudp64_feed_si.Prelude.{
  ℕ, suc, zero, ◌+◌, ◌-◌, ◌^◌, ◌≤◌, ◌<◌, ◌≡◌, refl, sym, ap, ◌∙◌, subst, Bool, true, false, ◌||◌,
  Option, List, [], ◌∷◌, ◌++◌, length, replicate, some, append_assoc, All, Bool-cases, inl, inr,
  arith,
}
use nasdaq_moldudp64_feed_si.Prelude.Int.{ℤ, ◌+ℤ◌}
use nasdaq_moldudp64_feed_si.Types.{end_of_session_msg_count}
use nasdaq_moldudp64_feed_si.Exception.{ok}
use nasdaq_moldudp64_feed_si.BinaryIo.{Endian}
use nasdaq_moldudp64_feed_si.Io.Frames.{frames, IsMessage}
use nasdaq_moldudp64_feed_si.PacketBuilder
use nasdaq_moldudp64_feed_si.PacketBuilder.Contents.{header}
use nasdaq_moldudp64_feed_si.RetransmissionBuffer
use nasdaq_moldudp64_feed_si.Downstream.Pacer
use nasdaq_moldudp64_feed_si.Downstream.Feed as Downstream
use nasdaq_moldudp64_feed_si.Downstream.Feed.{Round, start}
use nasdaq_moldudp64_feed_si.Downstream.Feed.Replay.Rounds.{IsSendable, IsSkipped, IsGoing}
use nasdaq_moldudp64_feed_si.Downstream.Feed.EndOfSession.{announcements, start-Completes}
use nasdaq_moldudp64_feed_si.Retransmission.Feed.{Feed}
use nasdaq_moldudp64_feed_si.Retransmission.Feed.Request.{Serves}
use nasdaq_moldudp64_feed_si.Downstream.Feed.Replay.{FitsAlone}
use nasdaq_moldudp64_feed_si.Retransmission.Recovery.Subscriber.{
  hear, ends_session, hears_end, collect, Arrive, no_more, arrives, is_lost, keep,
}
use nasdaq_moldudp64_feed_si.Retransmission.Recovery.Subscriber.Lossless.{
  hear-end, collect-lossless,
}

IsSendable-FitsAlone :
    (host : Endian) (skip_before : ℤ) (mtu : ℕ) (ms : List (List ℕ))
    → All (IsSendable host skip_before mtu) ms
    → All (FitsAlone mtu) ms
IsSendable-FitsAlone host skip_before mtu [] sendable = tt
IsSendable-FitsAlone host skip_before mtu (m ∷ ms) sendable =
    (sendable.0.1, IsSendable-FitsAlone host skip_before mtu ms sendable.1)

all-Arrive : (xs : List (List ℕ)) → Arrive xs xs
all-Arrive [] = no_more
all-Arrive (x ∷ xs) = arrives x (all-Arrive xs)

keep-Arrive : (marks : List Bool) (xs ys : List (List ℕ)) → Arrive (keep marks xs ++ ys) (xs ++ ys)
keep-Arrive marks [] ys = all-Arrive ys
keep-Arrive [] (x ∷ xs) ys = arrives x (all-Arrive (xs ++ ys))
keep-Arrive (true ∷ marks) (x ∷ xs) ys = arrives x (keep-Arrive marks xs ys)
keep-Arrive (false ∷ marks) (x ∷ xs) ys = is_lost x (keep-Arrive marks xs ys)

hears_end_last :
    (xs : List (List ℕ)) (d : List ℕ)
    → ends_session (hear d) ≡ true
    → hears_end (xs ++ (d ∷ [])) ≡ true
hears_end_last [] d e = ap (λ b. b || false) e
hears_end_last (x ∷ xs) d e = elim (Bool-cases (ends_session (hear x))) [
  | inl one ↦ ap (λ b. b || hears_end (xs ++ (d ∷ []))) one
  | inr other ↦ ap (λ b. b || hears_end (xs ++ (d ∷ []))) other ∙ hears_end_last xs d e
]

replicate_snoc : (n : ℕ) (x : List ℕ) → replicate (suc n) x ≡ replicate n x ++ (x ∷ [])
replicate_snoc zero x = refl
replicate_snoc (suc n) x = ap (λ l. x ∷ l) (replicate_snoc n x)

replicate_last : (n : ℕ) (x : List ℕ) → 0 < n → replicate n x ≡ replicate (n - 1) x ++ (x ∷ [])
replicate_last zero x h = absurd (omega arith)
replicate_last (suc n) x h = replicate_snoc n x ∙ ap (λ k. replicate k x ++ (x ∷ [])) one_less
  where
    one_less : n ≡ suc n - 1
    one_less = omega arith

-- What a subscriber makes of a run of `start`: it returns, having sent some datagrams and a last one;
-- and of those before the last, the ones that the marks let through, and the last one, are enough to
-- end up with the messages.
pub record Lossless {Address : Type 0} (host : Endian) (result : Option Downstream.Feed)
    (marks : List Bool) (addr : Address) (name : List ℕ) (f : Feed Address) (ms : List (List ℕ))
    : Type 0 where
  pub last : Downstream.Feed
  pub returns : result ≡ some last
  pub datagrams : List (List ℕ)
  pub final : List ℕ
  pub sent : last.sent ≡ datagrams ++ (final ∷ [])
  pub collected :
      collect host last.retransmission_buffer addr name (keep marks datagrams ++ (final ∷ [])) 1 f
      ≡ ms

-- `start` on a feed that was just made, for a well-formed file whose early messages (timestamps
-- below `skip_before`) all stand before the others, returns. Whichever of the datagrams that it sent
-- before the last one are lost: a subscriber that hears the others and the last one, which announces
-- the end of the session, and asks the retransmission feed of the same file for what is missing when
-- it hears a number that is too high, ends up with exactly the messages of the file that are not early,
-- each once, in order. It asks when `start` has returned; the buffer has room for all of these
-- messages, which are fewer than 65536. There are more rounds than messages and no stop in them, the
-- end is announced at least once, each message has its timestamp and fits a packet, the MTU is
-- below 131090, and the sums fit 64 bits.
pub start-Lossless :
    {Address : Type 0} (host : Endian) (scale : ℤ → ℤ) (capacity : ℕ) (early late : List (List ℕ))
    (rounds : List Round) (skip_before duration eos_start : ℤ) (readings : List (Bool × ℤ))
    (cfg : PacketBuilder.Config) {b : PacketBuilder.PacketBuilder}
    {rb : RetransmissionBuffer.RetransmissionBuffer} (marks : List Bool) (addr : Address)
    (f : Feed Address)
    → PacketBuilder.make cfg ≡ ok b
    → RetransmissionBuffer.make capacity ≡ ok rb
    → length late + capacity < 2 ^ 64
    → length late ≤ capacity
    → length late < 2 ^ 16
    → cfg.mtu < 131090
    → All IsMessage (early ++ late)
    → length (frames (early ++ late)) < 2 ^ 63
    → All (IsSkipped host skip_before) early
    → All (IsSendable host skip_before cfg.mtu) late
    → All IsGoing rounds
    → length early + length late < length rounds
    → 0 < announcements (eos_start +ℤ duration) readings
    → Serves f cfg.session (frames early) late
    → f.packet_builder.mtu ≡ cfg.mtu
    → Lossless host
        (start host scale rounds duration eos_start readings
          (Downstream.make (frames (early ++ late)) rb (Pacer.make skip_before) b))
        marks
        addr
        cfg.session
        f
        late
start-Lossless host scale capacity early late rounds skip_before duration eos_start readings cfg
      marks addr f built made small roomy few mtu messages short skipped sendable going enough ends
      v same =
    let c =
      start-Completes host scale early late rounds skip_before duration eos_start readings cfg built
        made (omega arith) mtu messages short skipped sendable going enough in
    let ending = header cfg.session (length late + 1) end_of_session_msg_count in
    let more = announcements (eos_start +ℤ duration) readings - 1 in
    let split =
      append_assoc c.datagrams (replicate more ending) (ending ∷ [])
      ∙ ap (λ l. c.datagrams ++ l)
          (sym (replicate_last (announcements (eos_start +ℤ duration) readings) ending ends)) in
    record {
      last = c.last;
      returns = c.returns;
      datagrams = c.datagrams ++ replicate more ending;
      final = ending;
      sent = c.sent ∙ sym split;
      collected =
          collect-lossless host c.last.retransmission_buffer addr capacity cfg.session
            (frames early) late cfg.mtu c.retained small roomy few
            (IsSendable-FitsAlone host skip_before cfg.mtu late sendable)
            (announcements (eos_start +ℤ duration) readings) 1 f v.holds.ten
            (record { serves = v; same_mtu = same }) c.received refl (omega arith) (omega arith)
            (omega arith)
            (subst (Arrive (keep marks (c.datagrams ++ replicate more ending) ++ (ending ∷ [])))
              split (keep-Arrive marks (c.datagrams ++ replicate more ending) (ending ∷ [])))
            (hears_end_last (keep marks (c.datagrams ++ replicate more ending)) ending
              (ap ends_session (hear-end cfg.session (length late + 1) v.holds.ten (omega arith))));
    }
