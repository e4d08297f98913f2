-- ===== src/Retransmission/Feed/Service/Answers.antt =====
-- Each event is answered as the specification says.
use mathlib.Core.Bool.{true≢false}
use nasdaq_moldudp64_feed_si.Prelude.{
  ltb, ltb→lt, ltb-false→le, ℕ, ◌+◌, ◌^◌, ◌≤◌, ◌<◌, ◌≡◌, refl, sym, ap, ap₂, ◌∙◌, subst, ◌≢◌, ◌⊎◌,
  inl, inr, true, not, List, [], ◌∷◌, ◌++◌, length, overwrite, some, ◌==◌, if◌then◌else◌,
  Bool-cases, append-nil, length-overwrite, length-append, arith,
}
use nasdaq_moldudp64_feed_si.BinaryIo.{Endian}
use nasdaq_moldudp64_feed_si.RetransmissionBuffer.{RetransmissionBuffer}
use nasdaq_moldudp64_feed_si.RetransmissionBuffer.Window.{Retains}
use nasdaq_moldudp64_feed_si.Downstream.Feed.Packing.{position}
use nasdaq_moldudp64_feed_si.Downstream.Feed.Replay.{packet_of}
use nasdaq_moldudp64_feed_si.Retransmission.Feed.{
  Reception, received, Event, Feed, same_text, handle_request, reply, parse_request,
}
use nasdaq_moldudp64_feed_si.Retransmission.Feed.Parse.{
  same_text_refl, same_text_sound, request, request-Fields,
}
use nasdaq_moldudp64_feed_si.Retransmission.Feed.Request.{reply_messages, handle_request-Replies}
use nasdaq_moldudp64_feed_si.Retransmission.Feed.Events.{
  handled, handle_request-short, handle_request-refuses,
}
use nasdaq_moldudp64_feed_si.Retransmission.Feed.Service.{
  IsRequest, Form, fails, short, asks, Meets, Answered, idle, no_request, too_short, refused,
  replied, Stands, Takes,
}

overwrite_cut :
    (xs ds tail : List ℕ) → length ds ≡ length xs → overwrite xs (ds ++ tail) ≡ overwrite xs ds
overwrite_cut [] [] tail h = refl
overwrite_cut [] (d ∷ ds) tail h = absurd (omega arith)
overwrite_cut (x ∷ xs) [] tail h = absurd (omega arith)
overwrite_cut (x ∷ xs) (d ∷ ds) tail h = ap (λ l. d ∷ l) (overwrite_cut xs ds tail (omega arith))

-- The fourth case is the one that is answered.
request-cases :
    (name own : List ℕ) (s n capacity : ℕ)
    → ((name ≢ own) ⊎ (n < s) ⊎ (s + capacity ≤ n)) ⊎ ((name ≡ own) × (s ≤ n) × (n < s + capacity))
request-cases name own s n capacity = elim (Bool-cases (same_text name own)) [
  | inl same ↦ elim (Bool-cases (ltb n s)) [
    | inl ahead ↦ inl (inr (inl (ltb→lt n s ahead)))
    | inr known ↦ elim (Bool-cases (ltb n (s + capacity))) [
      | inl near ↦
          inr (same_text_sound name own same, ltb-false→le n s known, ltb→lt n (s + capacity) near)
      | inr gone ↦ inl (inr (inr (ltb-false→le n (s + capacity) gone)))
    ]
  ]
  | inr different ↦
      inl (inl (λ e. true≢false (sym (same_text_refl name) ∙ ap (same_text name) e ∙ different)))
]

-- A datagram is cut off behind the size of a request.
handle_request-cut :
    {Address : Type 0} (host : Endian) (buffer : RetransmissionBuffer) (bytes tail : List ℕ)
    (addr : Address) (f : Feed Address)
    → length bytes ≡ 20
    → length f.recv_buffer ≡ 20
    → handle_request host buffer (received (bytes ++ tail) addr) f
      ≡ handle_request host buffer (received bytes addr) f
unfolding handle_request
handle_request-cut host buffer bytes tail addr f twenty receives =
    ap₂
      (λ bs size.
        let f' = record f { recv_buffer = bs } in
        if not (size == 20) then f' else reply host (parse_request host buffer addr f') f')
      (overwrite_cut f.recv_buffer bytes tail (omega arith))
      (omega (arith, length-append bytes tail))

module _ {Address : Type 0} (host : Endian) {own lead : List ℕ} {all : List (List ℕ)}
    {mtu capacity fd entries n : ℕ} where
  -- Nothing changes but the receive buffer.
  Takes-nothing :
      {event : Event Address} {f : Feed Address} (bytes : List ℕ)
      → length bytes ≡ 20
      → Stands own lead all mtu capacity fd entries f
      → Answered own lead all mtu capacity n event []
      → Takes own lead all mtu capacity fd entries n event f (record f { recv_buffer = bytes })
  Takes-nothing {event} {f} bytes twenty st answered = record {
    stands = record {
      serves = record {
        span = st.serves.span;
        messages = st.serves.messages;
        whole = st.serves.whole;
        name_bytes = st.serves.name_bytes;
        receives = twenty;
        seq = st.serves.seq;
        held = st.serves.held;
        holds = st.serves.holds;
        mtu = st.serves.mtu;
      };
      same_mtu = st.same_mtu;
      same_fd = st.same_fd;
      has_entries = st.has_entries;
    };
    replies = [];
    answered = answered;
    sent = sym (append-nil f.sent);
  }

  answers_request :
      (buffer : RetransmissionBuffer) (name : List ℕ) (s count : ℕ) (tail : List ℕ) (addr : Address)
      {event : Event Address} {f : Feed Address}
      → event.epollin ≡ true
      → event.reception ≡ received (request name s count ++ tail) addr
      → IsRequest name s count
      → Stands own lead all mtu capacity fd entries f
      → Retains buffer capacity n (position lead all)
      → n + capacity < 2 ^ 64
      → Takes own lead all mtu capacity fd entries n event f
          (handle_request host buffer (received (request name s count) addr) f)
  answers_request buffer name s count tail addr {event} {f} readable same q st r room =
      elim (request-cases name own s n capacity) [
        | inl why ↦
            subst (Takes own lead all mtu capacity fd entries n event f)
              (sym (
                handle_request-refuses host buffer addr s count n capacity name own
                  (position lead all) f q.name_bytes q.ten st.serves.receives st.serves.holds r room
                  q.from_one q.seq_fits why))
              (Takes-nothing (request name s count)
                (omega (arith, (request-Fields name s count host q.ten q.name_bytes).long)) st
                (refused name s count tail addr same q why))
        | inr (e, hi, near) ↦
            let p =
              handle_request-Replies host buffer addr s count own lead all f st.serves n capacity r
                room q.from_one hi near q.count_fits in
            subst
              (λ own_name.
                Takes own lead all mtu capacity fd entries n event f
                  (handle_request host buffer (received (request own_name s count) addr) f))
              (sym e)
              (record {
                stands = record {
                  serves = p.serves;
                  same_mtu = p.same_mtu ∙ st.same_mtu;
                  same_fd = p.same_fd ∙ st.same_fd;
                  has_entries = ap length p.same_events ∙ st.has_entries;
                };
                replies = (addr, p.datagram) ∷ [];
                answered =
                    replied s count tail addr p.datagram readable
                      (same ∙ ap (λ x. received (request x s count ++ tail) addr) e)
                      (subst (λ x. IsRequest x s count) e q) hi near
                      (p.decoded
                        ∙ ap (λ m. some (packet_of own s (reply_messages m all s count)))
                            st.same_mtu);
                sent = p.sent;
              })
      ]

  answers-Form :
      {event : Event Address} {f : Feed Address} (reception : Reception Address)
      → event.epollin ≡ true
      → event.reception ≡ reception
      → Form reception
      → Stands own lead all mtu capacity fd entries f
      → Retains event.buffer capacity n (position lead all)
      → n + capacity < 2 ^ 64
      → Takes own lead all mtu capacity fd entries n event f
          (handle_request host event.buffer reception f)
  unfolding handle_request
  answers-Form {event} {f} _ readable same (fails errno) st r room = record {
    stands = st;
    replies = [];
    answered = no_request errno same;
    sent = sym (append-nil f.sent);
  }
  answers-Form {event} {f} _ readable same (short bytes addr few_bytes) st r room =
      subst (Takes own lead all mtu capacity fd entries n event f)
        (sym (handle_request-short host event.buffer addr bytes f few_bytes))
        (Takes-nothing (overwrite f.recv_buffer bytes)
          (length-overwrite f.recv_buffer bytes ∙ st.serves.receives) st
          (too_short bytes addr same few_bytes))
  answers-Form {event} {f} _ readable same (asks name s count tail addr q) st r room =
      subst (Takes own lead all mtu capacity fd entries n event f)
        (sym (
          handle_request-cut host event.buffer (request name s count) tail addr f
            (omega (arith, (request-Fields name s count host q.ten q.name_bytes).long))
            st.serves.receives))
        (answers_request event.buffer name s count tail addr readable same q st r room)

-- Every event is answered as `Answered` says.
pub handled-Takes :
    {Address : Type 0} (host : Endian) {own lead : List ℕ} {all : List (List ℕ)}
    {mtu capacity fd entries : ℕ} (event : Event Address) {f : Feed Address}
    (m : Meets own lead all mtu capacity event)
    → Stands own lead all mtu capacity fd entries f
    → Takes own lead all mtu capacity fd entries m.n event f (handled host event f)
handled-Takes host {own} {lead} {all} {mtu} {capacity} {fd} {entries} event {f} m st =
    elim (Bool-cases event.epollin) [
      | inl readable ↦
          subst
            (λ b.
              Takes own lead all mtu capacity fd entries m.n event f
                (if b then handle_request host event.buffer event.reception f else f))
            (sym readable)
            (answers-Form host event.reception readable refl m.form st m.retained m.room)
      | inr not_readable ↦
          subst
            (λ b.
              Takes own lead all mtu capacity fd entries m.n event f
                (if b then handle_request host event.buffer event.reception f else f))
            (sym not_readable)
            (record {
              stands = st;
              replies = [];
              answered = idle not_readable;
              sent = sym (append-nil f.sent);
            })
    ]
