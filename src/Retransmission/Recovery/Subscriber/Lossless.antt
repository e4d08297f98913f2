-- ===== src/Retransmission/Recovery/Subscriber/Lossless.antt =====
-- No message is lost, whichever datagrams are.
use mathlib.Core.Bool.{true≢false}
use nasdaq_moldudp64_feed_si.Prelude.{
  ℕ, suc, zero, ◌+◌, ◌-◌, ◌^◌, ◌≤◌, ◌<◌, ◌≡◌, refl, sym, ap, ap₂, ◌∙◌, subst, true, ◌&&◌, ◌||◌,
  some, List, [], ◌∷◌, ◌++◌, map, length, take, drop, replicate, ◌==◌, if◌then◌else◌, drop-drop,
  take-append-drop, append-nil, length-append, take_all, drop-length, length-drop, All, arith,
}
use nasdaq_moldudp64_feed_si.Types.{end_of_session_msg_count}
use nasdaq_moldudp64_feed_si.BinaryIo.{Endian}
use nasdaq_moldudp64_feed_si.BinaryIo.Bytes.{be_value, be_value-be_bytes}
use nasdaq_moldudp64_feed_si.PacketBuilder.Contents.{header}
use nasdaq_moldudp64_feed_si.PacketBuilder.Wire.{
  Fields, header-Fields, decode, decode-end_of_session,
}
use nasdaq_moldudp64_feed_si.RetransmissionBuffer.{RetransmissionBuffer}
use nasdaq_moldudp64_feed_si.RetransmissionBuffer.Window.{Retains}
use nasdaq_moldudp64_feed_si.Downstream.Feed.Packing.{position}
use nasdaq_moldudp64_feed_si.Downstream.Feed.Replay.{
  FitsAlone, packet_of, Received, nothing, packet,
}
use nasdaq_moldudp64_feed_si.Retransmission.Feed.{Feed}
use nasdaq_moldudp64_feed_si.Retransmission.Feed.Request.{Serves}
use nasdaq_moldudp64_feed_si.Retransmission.Recovery.{recover-Recovers}
use nasdaq_moldudp64_feed_si.Retransmission.Recovery.Subscriber.{
  noise, messages_from, ended_at, is_end, heard, hear, ends_session, hears_end, messages_of,
  replied_messages, fetch, collect_heard, collect, Arrive, no_more, arrives, is_lost,
}

pub hear-end :
    (name : List ℕ) (seq : ℕ)
    → length name ≡ 10
    → seq < 2 ^ 64
    → hear (header name seq end_of_session_msg_count) ≡ ended_at seq
hear-end name seq ten small =
    ap (heard bytes) (decode-end_of_session name seq ten small)
    ∙ ap₂ (λ b n. if b then ended_at n else noise) is_one
        (ap be_value fields.sequence ∙ be_value-be_bytes 8 seq small)
  where
    bytes : List ℕ
    bytes = header name seq end_of_session_msg_count

    fields : Fields name seq end_of_session_msg_count [] bytes
    fields =
        subst (Fields name seq end_of_session_msg_count []) (append-nil bytes)
          (header-Fields name seq end_of_session_msg_count [] ten)

    counted : be_value (take 2 (drop 18 bytes)) ≡ end_of_session_msg_count
    counted =
        ap be_value fields.counted ∙ be_value-be_bytes 2 end_of_session_msg_count (omega arith)

    is_one : is_end bytes ≡ true
    is_one = ap₂ (λ a b. a == 20 && b == end_of_session_msg_count) fields.long counted

hear-packet :
    (d : List ℕ) {name : List ℕ} {seq : ℕ} {now : List (List ℕ)}
    → decode d ≡ some (packet_of name seq now)
    → hear d ≡ messages_from seq now
hear-packet d decoded = ap (heard d) decoded

replied_messages-Received :
    {Address : Type 0} (addr : Address) {name : List ℕ} {s : ℕ} {datagrams ms : List (List ℕ)}
    → Received name s datagrams ms
    → replied_messages (map (λ d. (addr, d)) datagrams) ≡ ms
replied_messages-Received addr nothing = refl
replied_messages-Received addr (packet {now = now} decoded some_messages split later) =
    ap₂ (λ p l. messages_of p ++ l) decoded (replied_messages-Received addr later) ∙ sym split

module _ (all : List (List ℕ)) (seq : ℕ) (ms now later : List (List ℕ)) (lo : 1 ≤ seq)
    (split : ms ≡ now ++ later) (whole : ms ≡ drop (seq - 1) all) where
  -- What follows the messages of a packet.
  drop-behind : later ≡ drop (seq + length now - 1) all
  drop-behind =
      sym (drop-length now later)
      ∙ ap (drop (length now)) (sym split ∙ whole)
      ∙ drop-drop (length now) (seq - 1) all
      ∙ ap (λ n. drop n all) behind
    where
      behind : seq - 1 + length now ≡ seq + length now - 1
      behind = omega arith

  within_all : 0 < length now → seq + length now ≤ length all + 1
  within_all some_messages =
      omega
        (arith, ap length (sym split ∙ whole), length-append now later, length-drop (seq - 1) all)

  -- The lost messages, those of the packet, and those behind it.
  drop-gap :
      (next : ℕ)
      → 1 ≤ next
      → next ≤ seq
      → take (seq - next) (drop (next - 1) all) ++ (now ++ drop (seq + length now - 1) all)
        ≡ drop (next - 1) all
  drop-gap next first le =
      ap (λ l. take (seq - next) (drop (next - 1) all) ++ l)
        (ap (λ l. now ++ l) (sym drop-behind)
          ∙ sym split
          ∙ whole
          ∙ ap (λ n. drop n all) steps
          ∙ sym (drop-drop (seq - next) (next - 1) all))
      ∙ take-append-drop (seq - next) (drop (next - 1) all)
    where
      steps : seq - 1 ≡ next - 1 + (seq - next)
      steps = omega arith

module _ {Address : Type 0} (host : Endian) (buffer : RetransmissionBuffer) (addr : Address)
    (capacity : ℕ) (name lead : List ℕ) (all : List (List ℕ)) (mtu : ℕ)
    (r : Retains buffer capacity (length all) (position lead all))
    (room : length all + capacity < 2 ^ 64) (retained : length all ≤ capacity)
    (few : length all < 2 ^ 16) (fits : All (FitsAlone mtu) all) where
  -- The retransmission feed between two datagrams.
  pub record IsReady (f : Feed Address) : Type 0 where
    pub serves : Serves f name lead all
    pub same_mtu : f.packet_builder.mtu ≡ mtu

  record Fetches (next seq : ℕ) (result : List (List ℕ) × Feed Address) : Type 0 where
    lost : result.0 ≡ take (seq - next) (drop (next - 1) all)
    ready : IsReady result.1

  fetch-Fetches :
      (next seq : ℕ) (f : Feed Address)
      → IsReady f
      → 1 ≤ next
      → next ≤ seq
      → seq ≤ length all + 1
      → Fetches next seq (fetch host buffer addr name next seq f)
  unfolding fetch
  fetch-Fetches next seq f i lo le hi =
      let p =
        recover-Recovers host buffer addr (length all) capacity name lead all (seq - next) next
          (seq - next) f i.serves r (subst (λ n. All (FitsAlone n) all) (sym i.same_mtu) fits)
          (omega arith) room lo (omega arith) (omega arith) (omega arith) (omega arith) in
      record {
        lost =
            ap replied_messages (
              ap (drop (length f.sent)) p.sent
              ∙ drop-length f.sent (map (λ d. (addr, d)) p.datagrams))
            ∙ replied_messages-Received addr p.received;
        ready = record { serves = p.serves; same_mtu = p.same_mtu ∙ i.same_mtu };
      }

  collect-messages :
      (d : List ℕ) (ds : List (List ℕ)) (next seq : ℕ) (ms : List (List ℕ)) (f : Feed Address)
      → hear d ≡ messages_from seq ms
      → collect host buffer addr name (d ∷ ds) next f
        ≡ (fetch host buffer addr name next seq f).0
          ++ (ms
              ++ collect host buffer addr name ds
                  (seq + length ms)
                  (fetch host buffer addr name next seq f).1)
  unfolding collect collect_heard
  collect-messages d ds next seq ms f e =
      ap (λ h. collect_heard host buffer addr name h (collect host buffer addr name ds) next f) e

  collect-end :
      (d : List ℕ) (ds : List (List ℕ)) (next seq : ℕ) (f : Feed Address)
      → hear d ≡ ended_at seq
      → collect host buffer addr name (d ∷ ds) next f
        ≡ (fetch host buffer addr name next seq f).0
          ++ collect host buffer addr name ds seq (fetch host buffer addr name next seq f).1
  unfolding collect collect_heard
  collect-end d ds next seq f e =
      ap (λ h. collect_heard host buffer addr name h (collect host buffer addr name ds) next f) e

  abbrev ending : List ℕ
  ending = header name (length all + 1) end_of_session_msg_count

  -- Behind the last message nothing is missing.
  collect-endings :
      (announced : ℕ) {arrived : List (List ℕ)} (f : Feed Address)
      → length name ≡ 10
      → IsReady f
      → Arrive arrived (replicate announced ending)
      → collect host buffer addr name arrived (length all + 1) f ≡ []
  unfolding collect
  collect-endings zero f ten i no_more = refl
  collect-endings (suc announced) f ten i (is_lost d later) =
      collect-endings announced f ten i later
  collect-endings (suc announced) f ten i (arrives d {xs} later) =
      let p =
        fetch-Fetches (length all + 1) (length all + 1) f i (omega arith) (omega arith)
          (omega arith) in
      collect-end d xs (length all + 1) (length all + 1) f
        (hear-end name (length all + 1) ten (omega arith))
      ∙ ap₂ (λ l m. l ++ m)
          (p.lost ∙ ap (λ n. take n (drop (length all + 1 - 1) all)) nothing_missing)
          (collect-endings announced
            (fetch host buffer addr name (length all + 1) (length all + 1) f).1 ten p.ready later)
    where
      nothing_missing : length all + 1 - (length all + 1) ≡ 0
      nothing_missing = omega arith

  -- The end of the session tells what is missing before it.
  collect-rest :
      (announced next : ℕ) {arrived : List (List ℕ)} (f : Feed Address)
      → length name ≡ 10
      → IsReady f
      → 1 ≤ next
      → next ≤ length all + 1
      → Arrive arrived (replicate announced ending)
      → hears_end arrived ≡ true
      → collect host buffer addr name arrived next f ≡ drop (next - 1) all
  collect-rest zero next f ten i lo hi no_more ends = absurd (true≢false (sym ends))
  collect-rest (suc announced) next f ten i lo hi (is_lost d later) ends =
      collect-rest announced next f ten i lo hi later ends
  collect-rest (suc announced) next f ten i lo hi (arrives d {xs} later) ends =
      let p = fetch-Fetches next (length all + 1) f i lo hi (omega arith) in
      collect-end d xs next (length all + 1) f (hear-end name (length all + 1) ten (omega arith))
      ∙ ap₂ (λ l m. l ++ m)
          (p.lost
            ∙ take_all (length all + 1 - next) (drop (next - 1) all)
                (omega (arith, length-drop (next - 1) all)))
          (collect-endings announced (fetch host buffer addr name next (length all + 1) f).1 ten
            p.ready later)
      ∙ append-nil (drop (next - 1) all)

  pub collect-lossless :
      (announced next : ℕ) {seq : ℕ} {datagrams ms arrived : List (List ℕ)} (f : Feed Address)
      → length name ≡ 10
      → IsReady f
      → Received name seq datagrams ms
      → ms ≡ drop (seq - 1) all
      → 1 ≤ next
      → next ≤ seq
      → seq ≤ length all + 1
      → Arrive arrived (datagrams ++ replicate announced ending)
      → hears_end arrived ≡ true
      → collect host buffer addr name arrived next f ≡ drop (next - 1) all
  collect-lossless announced next f ten i nothing whole lo le hi arrive ends =
      collect-rest announced next f ten i lo (omega arith) arrive ends
  collect-lossless announced next {seq} {ms = ms} f ten i
        (packet {datagram = d} {now = now} {later = rest} decoded some_messages split received)
        whole lo le hi (is_lost _ later) ends =
      collect-lossless announced next f ten i received
        (drop-behind all seq ms now rest (omega arith) split whole) lo (omega arith)
        (within_all all seq ms now rest (omega arith) split whole some_messages) later ends
  collect-lossless announced next {seq} {ms = ms} f ten i
        (packet {datagram = d} {now = now} {later = rest} decoded some_messages split received)
        whole lo le hi (arrives _ {xs} later) ends =
      let p = fetch-Fetches next seq f i lo le hi in
      collect-messages d xs next seq now f (hear-packet d decoded)
      ∙ ap₂ (λ l m. l ++ (now ++ m)) p.lost
          (collect-lossless announced (seq + length now) (fetch host buffer addr name next seq f).1
            ten p.ready received (drop-behind all seq ms now rest (omega arith) split whole)
            (omega arith) (omega arith)
            (within_all all seq ms now rest (omega arith) split whole some_messages) later
            (ap (λ h. ends_session h || hears_end xs) (sym (hear-packet d decoded)) ∙ ends))
      ∙ drop-gap all seq ms now rest (omega arith) split whole next lo le
