-- ===== src/Retransmission/Feed/Request.antt =====
-- Requests: what a client gets back.
use nasdaq_moldudp64_feed_si.Prelude.{
  lt→ltb, leb-true, ℕ, ◌+◌, ◌-◌, ◌^◌, ◌≤◌, ◌<◌, ◌≡◌, refl, sym, ap, ap₂, ◌∙◌, subst, ◌&&◌, List, [],
  ◌∷◌, ◌++◌, map, length, take, drop, none, some, if◌then◌else◌, append_assoc, take-append-drop,
  All, All-front, All-drop, All-take, arith, length-append,
}
use nasdaq_moldudp64_feed_si.BinaryIo.{Endian, IsByte}
use nasdaq_moldudp64_feed_si.Io.Reading.{IsSpan}
use nasdaq_moldudp64_feed_si.Io.Frames.{frame, frames, IsMessage}
use nasdaq_moldudp64_feed_si.PacketBuilder
use nasdaq_moldudp64_feed_si.PacketBuilder.{PacketBuilder}
use nasdaq_moldudp64_feed_si.PacketBuilder.Contents.{Holds, reset-Holds, finalize-Holds}
use nasdaq_moldudp64_feed_si.PacketBuilder.Wire.{
  decode, decode-datagram, length-map-frame, messages-lt_end_of_session,
}
use nasdaq_moldudp64_feed_si.RetransmissionBuffer
use nasdaq_moldudp64_feed_si.RetransmissionBuffer.{RetransmissionBuffer}
use nasdaq_moldudp64_feed_si.RetransmissionBuffer.Window.{
  Retains, file_position_for-window, file_position_for-zero,
}
use nasdaq_moldudp64_feed_si.Downstream.Feed.Packing.{fill, position, frames-append}
use nasdaq_moldudp64_feed_si.Downstream.Feed.Replay.{packet_of, fill-left_over}
use nasdaq_moldudp64_feed_si.Retransmission.Feed.{
  received, Feed, build_loop, build_packet, send_packet, reply, handle_request,
}
use nasdaq_moldudp64_feed_si.Retransmission.Feed.Reply.{Filled, build_loop-Filled}
use nasdaq_moldudp64_feed_si.Retransmission.Feed.Parse.{
  request, request-Fields, handle_request-takes, parse_request-found,
}

-- A retransmission feed that serves the file of `lead` and the messages `all`.
pub record Serves {Address : Type 0} (f : Feed Address) (name : List ℕ) (lead : List ℕ)
    (all : List (List ℕ)) : Type 0 where
  pub span : IsSpan f.file
  pub messages : All IsMessage all
  pub whole : f.file ≡ lead ++ frames all
  pub name_bytes : All IsByte name
  pub receives : length f.recv_buffer ≡ 20
  pub seq : ℕ
  pub held : List (List ℕ)
  pub holds : Holds f.packet_builder name seq held
  pub mtu : f.packet_builder.mtu < 131090

-- The file from message `s` on, for `s` from 1 on.
file-at :
    (lead : List ℕ) (all : List (List ℕ)) (s : ℕ)
    → lead ++ frames all ≡ (lead ++ frames (take (s - 1) all)) ++ frames (drop (s - 1) all)
file-at lead all s =
    ap (λ l. lead ++ frames l) (sym (take-append-drop (s - 1) all))
    ∙ ap (λ t. lead ++ t) (frames-append (take (s - 1) all) (drop (s - 1) all))
    ∙ sym (append_assoc lead (frames (take (s - 1) all)) (frames (drop (s - 1) all)))

-- The messages that a reply carries: of the `count` messages from number `s` on, as many as fit.
abbrev pub reply_messages : ℕ → List (List ℕ) → ℕ → ℕ → List (List ℕ)
reply_messages mtu all s count = fill (mtu - 20) (take count (drop (s - 1) all))

-- What `build_packet` puts together with the file at the messages `ms`.
build_packet-at :
    (host : Endian) {b : PacketBuilder} (s count : ℕ) (name file done : List ℕ) (ms : List (List ℕ))
    {seq : ℕ} {held : List (List ℕ)}
    → IsSpan file
    → All IsMessage ms
    → file ≡ done ++ frames ms
    → Holds b name seq held
    → Filled b
        (build_loop host file count (length done) (PacketBuilder.reset host s b))
        []
        (fill (b.mtu - 20) (take count ms))
        name
        s
unfolding PacketBuilder.reset
build_packet-at host {b} s count name file done ms span messages whole h =
    let p =
      build_loop-Filled host done count ms [] (subst IsSpan whole span) messages
        (reset-Holds host s h) in
    subst
      (λ bytes.
        Filled b (build_loop host bytes count (length done) (PacketBuilder.reset host s b)) []
          (fill (b.mtu - 20) (take count ms)) name s)
      (sym whole) (record { holds = p.holds; same_mtu = p.same_mtu })

-- From `f` to `f'` one datagram was sent, to `addr`, that carries the messages `now` from number
-- `seq` on; and `f'` still serves.
pub record Replies {Address : Type 0} (f f' : Feed Address) (addr : Address) (name lead : List ℕ)
    (all : List (List ℕ)) (seq : ℕ) (now : List (List ℕ)) : Type 0 where
  pub datagram : List ℕ
  pub sent : f'.sent ≡ f.sent ++ ((addr, datagram) ∷ [])
  pub decoded : decode datagram ≡ some (packet_of name seq now)
  pub serves : Serves f' name lead all
  pub same_mtu : f'.packet_builder.mtu ≡ f.packet_builder.mtu
  pub same_fd : f'.shutdown_fd ≡ f.shutdown_fd
  pub same_events : f'.epoll_events ≡ f.epoll_events

module _ {Address : Type 0} (host : Endian) (buffer : RetransmissionBuffer) (addr : Address)
    (s count : ℕ) (name lead : List ℕ) (all : List (List ℕ)) (f : Feed Address)
    (v : Serves f name lead all) where
  -- A request whose position is found is answered with the messages that stand there in the file,
  -- as many as fit.
  handle_request-at :
      (done : List ℕ) (ms : List (List ℕ))
      → f.file ≡ done ++ frames ms
      → All IsMessage ms
      → s < 2 ^ 64
      → count < 2 ^ 16
      → RetransmissionBuffer.file_position_for s buffer ≡ some (length done)
      → Replies f
          (handle_request host buffer (received (request name s count) addr) f)
          addr
          name
          lead
          all
          s
          (fill (f.packet_builder.mtu - 20) (take count ms))
  unfolding reply build_packet send_packet
  handle_request-at done ms whole messages small few found =
      subst (λ g. Replies f g addr name lead all s now) (sym answered)
        (record {
          datagram = PacketBuilder.datagram (PacketBuilder.finalize host packed);
          sent = refl;
          decoded = decode-datagram host now filled.holds all_messages small mtu;
          serves = record {
            span = v.span;
            messages = v.messages;
            whole = v.whole;
            name_bytes = v.name_bytes;
            receives = twenty;
            seq = s;
            held = map frame now;
            holds = finalize-Holds host filled.holds (
                omega
                  (arith, length-map-frame now, messages-lt_end_of_session now filled.holds mtu));
            mtu = unfold PacketBuilder.finalize in mtu;
          };
          same_mtu = unfold PacketBuilder.finalize in filled.same_mtu;
          same_fd = refl;
          same_events = refl;
        })
    where
      packed : PacketBuilder
      packed =
          build_loop host f.file count (length done) (PacketBuilder.reset host s f.packet_builder)

      now : List (List ℕ)
      now = fill (f.packet_builder.mtu - 20) (take count ms)

      filled : Filled f.packet_builder packed [] now name s
      filled = build_packet-at host s count name f.file done ms v.span messages whole v.holds

      mtu : packed.mtu < 131090
      mtu = omega (arith, filled.same_mtu, v.mtu)

      all_messages : All IsMessage now
      all_messages = All-front IsMessage now _ (
          subst (All IsMessage) (sym (fill-left_over (f.packet_builder.mtu - 20) (take count ms)))
            (All-take IsMessage count ms messages))

      twenty : length (request name s count) ≡ 20
      twenty = omega (arith, (request-Fields name s count host v.holds.ten v.name_bytes).long)

      answered :
          handle_request host buffer (received (request name s count) addr) f
          ≡ reply host
              (some (record {
                client_address = addr;
                starting_sequence = s;
                msg_count = count;
                file_position_for_retransmission = length done;
              }))
              (record f { recv_buffer = request name s count })
      answered =
          handle_request-takes host buffer addr (request name s count) f v.receives twenty
          ∙ ap (λ o. reply host o (record f { recv_buffer = request name s count }))
              (parse_request-found host buffer addr name s count (length done) f v.name_bytes small
                few v.holds found)

  -- A located request is answered with as many of its messages as fit.
  pub handle_request-Replies :
      (n capacity : ℕ)
      → Retains buffer capacity n (position lead all)
      → n + capacity < 2 ^ 64
      → 1 ≤ s
      → s ≤ n
      → n < s + capacity
      → count < 2 ^ 16
      → Replies f
          (handle_request host buffer (received (request name s count) addr) f)
          addr
          name
          lead
          all
          s
          (reply_messages f.packet_builder.mtu all s count)
  handle_request-Replies n capacity r room lo hi near few =
      handle_request-at (lead ++ frames (take (s - 1) all)) (drop (s - 1) all)
        (v.whole ∙ file-at lead all s) (All-drop IsMessage (s - 1) all v.messages) (omega arith) few
        (file_position_for-window r s lo (omega arith) room
          ∙ ap₂ (λ a b. if a && b then some (position lead all s) else none) (leb-true s n hi)
              (lt→ltb n (s + capacity) near)
          ∙ ap some (sym (length-append lead (frames (take (s - 1) all)))))

-- Sequence number 0 was never sent. From the first message on until the buffer has been filled
-- once, a request for `count` messages from number 0 on is answered nevertheless: with a packet
-- numbered 0 that carries the messages from the start of the well-formed file on, the early ones that were
-- skipped included, as many of the `count` as fit the MTU.
pub handle_request-zero :
    {Address : Type 0} (host : Endian) (buffer : RetransmissionBuffer) (addr : Address)
    (count n capacity : ℕ) (name lead : List ℕ) (all file_messages : List (List ℕ))
    (f : Feed Address)
    → Serves f name lead all
    → f.file ≡ frames file_messages
    → All IsMessage file_messages
    → Retains buffer capacity n (position lead all)
    → 0 < n
    → n < capacity
    → capacity < 2 ^ 64
    → count < 2 ^ 16
    → Replies f
        (handle_request host buffer (received (request name 0 count) addr) f)
        addr
        name
        lead
        all
        0
        (fill (f.packet_builder.mtu - 20) (take count file_messages))
handle_request-zero host buffer addr count n capacity name lead all file_messages f v whole messages
      r some_sent not_full fits few =
    handle_request-at host buffer addr 0 count name lead all f v [] file_messages whole messages
      (omega arith) few (file_position_for-zero r some_sent not_full fits)

module _ {Address : Type 0} (host : Endian) (buffer : RetransmissionBuffer) (addr : Address) where
  -- After `n` messages were recorded, a request for `count` messages from number `s` on, where `s`
  -- is one of the last `capacity` numbers, is answered with one datagram to its sender. That
  -- decodes to a packet numbered `s` with the messages from number `s` on as they stand in the
  -- file, in order: as many of the `count` as fit the MTU.
  pub handle_request-replies :
      (s count n capacity : ℕ) (name lead : List ℕ) (all : List (List ℕ)) (f : Feed Address)
      → Serves f name lead all
      → Retains buffer capacity n (position lead all)
      → n + capacity < 2 ^ 64
      → 1 ≤ s
      → s ≤ n
      → n < s + capacity
      → count < 2 ^ 16
      → (d : List ℕ) × ((handle_request host buffer (received (request name s count) addr) f).sent
          ≡ f.sent ++ ((addr, d) ∷ []))
        × (decode d ≡ some (packet_of name s (reply_messages f.packet_builder.mtu all s count)))
  handle_request-replies s count n capacity name lead all f v r room lo hi near few =
      let p =
        handle_request-Replies host buffer addr s count name lead all f v n capacity r room lo hi
          near few in
      (p.datagram, p.sent, p.decoded)
