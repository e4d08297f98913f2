-- ===== src/Retransmission/Recovery.antt =====
-- A client of the retransmission feed that lost messages asks for them again, request by request.
pub mod Subscriber
mod Tests
use nasdaq_moldudp64_feed_si.Prelude.{
  ℕ, zero, suc, ◌+◌, ◌-◌, ◌^◌, ◌≤◌, ◌<◌, ◌≡◌, refl, sym, ap, ap₂, ◌∙◌, subst, Option, none, some,
  List, [], ◌∷◌, ◌++◌, map, length, take, drop, ◌==◌, if◌then◌else◌, append-nil, append_assoc,
  length-append, length-take, length-drop, drop-length, drop-drop, drop-take, All, All-take,
  All-drop, arith, Bool-cases, inl, inr,
}
use mathlib.Core.Path.{subst₂}
use nasdaq_moldudp64_feed_si.BinaryIo.{Endian}
use nasdaq_moldudp64_feed_si.Io.Frames.{frame}
use nasdaq_moldudp64_feed_si.PacketBuilder.Wire.{Packet, decode}
use nasdaq_moldudp64_feed_si.RetransmissionBuffer.{RetransmissionBuffer}
use nasdaq_moldudp64_feed_si.RetransmissionBuffer.Window.{Retains}
use nasdaq_moldudp64_feed_si.Downstream.Feed.Packing.{fill, left_over, position}
use nasdaq_moldudp64_feed_si.Downstream.Feed.Replay.{
  FitsAlone, packet_of, Received, nothing, packet, fill-left_over, fill-pos,
}
use nasdaq_moldudp64_feed_si.Retransmission.Feed.{received, Feed, handle_request}
use nasdaq_moldudp64_feed_si.Retransmission.Feed.Parse.{request}
use nasdaq_moldudp64_feed_si.Retransmission.Feed.Request.{
  Serves, reply_messages, Replies, handle_request-Replies,
}

abbrev messages_in : Option Packet → ℕ
messages_in none = 0
messages_in (some p) = length p.messages

-- How many messages the first of the datagrams carries.
abbrev carried : {Address : Type 0} → List (Address × List ℕ) → ℕ
carried [] = 0
carried ((addr, datagram) ∷ rest) = messages_in (decode datagram)

-- A client at `addr` that wants `count` messages from number `s` on: it asks for all of them, takes
-- what the reply carries, and asks for what is left behind that, at most `rounds` times.
unfoldable pub recover :
    {Address : Type 0}
    → Endian
    → RetransmissionBuffer
    → Address
    → List ℕ
    → ℕ
    → ℕ
    → ℕ
    → Feed Address
    → Feed Address
recover host buffer addr name zero s count f = f
recover host buffer addr name (suc rounds) s zero f = f
recover host buffer addr name (suc rounds) s (suc count) f =
    let f' = handle_request host buffer (received (request name s (suc count)) addr) f in
    let got = carried (drop (length f.sent) f'.sent) in
    recover host buffer addr name rounds (s + got) (suc count - got) f'

-- From `f` to `f'` datagrams were sent to `addr` that carry the messages `ms` from number `seq` on;
-- and `f'` still serves.
pub record Recovers {Address : Type 0} (f f' : Feed Address) (addr : Address) (name lead : List ℕ)
    (all : List (List ℕ)) (seq : ℕ) (ms : List (List ℕ)) : Type 0 where
  pub datagrams : List (List ℕ)
  pub sent : f'.sent ≡ f.sent ++ map (λ d. (addr, d)) datagrams
  pub received : Received name seq datagrams ms
  pub serves : Serves f' name lead all
  pub same_mtu : f'.packet_builder.mtu ≡ f.packet_builder.mtu

fill-some :
    (mtu : ℕ) (ms : List (List ℕ))
    → All (FitsAlone mtu) ms
    → 0 < length ms
    → 0 < length (fill (mtu - 20) ms)
fill-some mtu [] fits some_left = some_left
fill-some mtu (m ∷ ms) fits some_left = fill-pos (mtu - 20) m ms (omega (arith, fits.0))

fill-le : (room : ℕ) (ms : List (List ℕ)) → length (fill room ms) ≤ length ms
fill-le room ms =
    omega
      (arith, ap length (fill-left_over room ms), length-append (fill room ms) (left_over room ms))

-- What is asked for is what the reply carries and what is asked for next.
reply-split :
    (mtu : ℕ) (all : List (List ℕ)) (s count : ℕ)
    → 1 ≤ s
    → let now = reply_messages mtu all s count in
      take count (drop (s - 1) all)
      ≡ now ++ take (count - length now) (drop (s + length now - 1) all)
reply-split mtu all s count lo =
    sym (fill-left_over room wanted)
    ∙ ap (λ l. now ++ l)
        (sym (drop-length now (left_over room wanted))
          ∙ ap (drop (length now)) (fill-left_over room wanted)
          ∙ drop-take (length now) count (drop (s - 1) all)
          ∙ ap (take (count - length now))
              (drop-drop (length now) (s - 1) all ∙ ap (λ n. drop n all) next))
  where
    room : ℕ
    room = mtu - 20

    wanted : List (List ℕ)
    wanted = take count (drop (s - 1) all)

    now : List (List ℕ)
    now = reply_messages mtu all s count

    next : s - 1 + length now ≡ s + length now - 1
    next = omega arith

carried-reply :
    {Address : Type 0} (sent : List (Address × List ℕ)) (addr : Address) (datagram name : List ℕ)
    (s : ℕ) (now : List (List ℕ))
    → decode datagram ≡ some (packet_of name s now)
    → carried (drop (length sent) (sent ++ ((addr, datagram) ∷ []))) ≡ length now
carried-reply sent addr datagram name s now decoded =
    ap carried (drop-length sent ((addr, datagram) ∷ [])) ∙ ap messages_in decoded

Recovers-nothing :
    {Address : Type 0} (addr : Address) (name lead : List ℕ) (all : List (List ℕ)) (s : ℕ)
    (f : Feed Address)
    → Serves f name lead all
    → Recovers f f addr name lead all s []
Recovers-nothing addr name lead all s f v = record {
  datagrams = [];
  sent = sym (append-nil f.sent);
  received = nothing;
  serves = v;
  same_mtu = refl;
}

-- One reply, and what the later ones carry behind it.
Recovers-more :
    {Address : Type 0} {f f' f'' : Feed Address} {addr : Address} {name lead : List ℕ}
    {all now later ms : List (List ℕ)} {s : ℕ}
    → Replies f f' addr name lead all s now
    → 0 < length now
    → ms ≡ now ++ later
    → Recovers f' f'' addr name lead all (s + length now) later
    → Recovers f f'' addr name lead all s ms
Recovers-more {f} {addr} p some_messages split d = record {
  datagrams = p.datagram ∷ d.datagrams;
  sent =
      d.sent
      ∙ ap (λ l. l ++ map (λ t. (addr, t)) d.datagrams) p.sent
      ∙ append_assoc f.sent ((addr, p.datagram) ∷ []) (map (λ t. (addr, t)) d.datagrams);
  received = packet p.decoded some_messages split d.received;
  serves = d.serves;
  same_mtu = d.same_mtu ∙ p.same_mtu;
}

module _ {Address : Type 0} (host : Endian) (buffer : RetransmissionBuffer) (addr : Address)
    (n capacity : ℕ) (name lead : List ℕ) (all : List (List ℕ)) where
  -- After `n` messages were recorded, a client asks for `count` messages from number `s` on, all of
  -- them among the last `capacity` recorded, and again for what is left behind each reply. Within
  -- `count` requests it gets datagrams that carry exactly these messages, each once, in order,
  -- numbered from `s` on without a gap, and nothing else; and the feed serves on. Every message of
  -- the file fits a packet, `count` is below 65536, and the sums fit
  -- 64 bits.
  pub recover-Recovers :
      (rounds s count : ℕ) (f : Feed Address)
      → Serves f name lead all
      → Retains buffer capacity n (position lead all)
      → All (FitsAlone f.packet_builder.mtu) all
      → n ≤ length all
      → n + capacity < 2 ^ 64
      → 1 ≤ s
      → s + count ≤ n + 1
      → n < s + capacity
      → count < 2 ^ 16
      → count ≤ rounds
      → Recovers f
          (recover host buffer addr name rounds s count f)
          addr
          name
          lead
          all
          s
          (take count (drop (s - 1) all))
  unfolding recover
  recover-Recovers zero s zero f v r fits known room lo hi near few enough =
      Recovers-nothing addr name lead all s f v
  recover-Recovers zero s (suc count) f v r fits known room lo hi near few enough =
      absurd (omega arith)
  recover-Recovers (suc rounds) s zero f v r fits known room lo hi near few enough =
      Recovers-nothing addr name lead all s f v
  recover-Recovers (suc rounds) s (suc count) f v r fits known room lo hi near few enough =
      subst (λ g. Recovers f g addr name lead all s (take (suc count) (drop (s - 1) all)))
        (sym goes_on)
        (Recovers-more p some_messages (reply-split mtu all s (suc count) lo) (
          recover-Recovers rounds (s + length now) (suc count - length now) f' p.serves r
            (subst (λ m. All (FitsAlone m) all) (sym p.same_mtu) fits) known room (omega arith)
            (omega (arith, within)) (omega arith) (omega arith) (omega (arith, some_messages))))
    where
      mtu : ℕ
      mtu = f.packet_builder.mtu

      wanted : List (List ℕ)
      wanted = take (suc count) (drop (s - 1) all)

      now : List (List ℕ)
      now = reply_messages mtu all s (suc count)

      f' : Feed Address
      f' = handle_request host buffer (received (request name s (suc count)) addr) f

      p : Replies f f' addr name lead all s now
      p =
          handle_request-Replies host buffer addr s (suc count) name lead all f v n capacity r room
            lo (omega arith) near few

      some_wanted : 0 < length wanted
      some_wanted =
          omega (arith, length-take (suc count) (drop (s - 1) all), length-drop (s - 1) all)

      some_messages : 0 < length now
      some_messages =
          fill-some mtu wanted
            (All-take (FitsAlone mtu) (suc count) (drop (s - 1) all)
              (All-drop (FitsAlone mtu) (s - 1) all fits))
            some_wanted

      within : length now ≤ suc count
      within = omega (arith, fill-le (mtu - 20) wanted, length-take (suc count) (drop (s - 1) all))

      goes_on :
          recover host buffer addr name (suc rounds) s (suc count) f
          ≡ recover host buffer addr name rounds (s + length now) (suc count - length now) f'
      goes_on =
          ap (λ got. recover host buffer addr name rounds (s + got) (suc count - got) f')
            (ap (λ l. carried (drop (length f.sent) l)) p.sent
              ∙ carried-reply f.sent addr p.datagram name s now p.decoded)
