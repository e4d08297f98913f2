-- ===== src/Retransmission/Feed/Parse.antt =====
-- Requests on the wire, and how they are parsed.
use nasdaq_moldudp64_feed_si.Prelude.{
  ℕ, ◌^◌, ◌<◌, min, ◌≡◌, refl, ap, ap₂, ◌∙◌, subst, true, not, List, [], ◌∷◌, ◌++◌, length,
  overwrite_all, none, some, ◌==◌, if◌then◌else◌, append-nil, All, All-append, arith,
}
use nasdaq_moldudp64_feed_si.BinaryIo.{Endian, IsByte, read_at_be}
use nasdaq_moldudp64_feed_si.BinaryIo.Bytes.{be_bytes, be_value, be_bytes-IsByte, be_value-be_bytes}
use nasdaq_moldudp64_feed_si.BinaryIo.BigEndian.{read_at_be_lem}
use nasdaq_moldudp64_feed_si.PacketBuilder.Contents.{Holds, header, session-Holds}
use nasdaq_moldudp64_feed_si.PacketBuilder.Wire.{Fields, header-Fields}
use nasdaq_moldudp64_feed_si.RetransmissionBuffer
use nasdaq_moldudp64_feed_si.RetransmissionBuffer.{RetransmissionBuffer}
use nasdaq_moldudp64_feed_si.Retransmission.Feed.{
  received, Feed, same_text, located, parse_request, reply, handle_request,
}

pub same_text_refl : (xs : List ℕ) → same_text xs xs ≡ true
unfolding same_text
same_text_refl [] = refl
same_text_refl (x ∷ xs) = ground (arith, same_text_refl xs)

pub same_text_sound : (xs ys : List ℕ) → same_text xs ys ≡ true → xs ≡ ys
unfolding same_text
same_text_sound [] [] e = refl
same_text_sound [] (y ∷ ys) e = cc
same_text_sound (x ∷ xs) [] e = cc
same_text_sound (x ∷ xs) (y ∷ ys) e = ground (arith, same_text_sound xs ys)

-- A request on the wire: a header without a message block.
abbrev pub request : List ℕ → ℕ → ℕ → List ℕ
request name seq count = header name seq count

module _ (name : List ℕ) (s c : ℕ) (host : Endian) (ten : length name ≡ 10)
    (name_bytes : All IsByte name) where
  pub request-Fields : Fields name s c [] (request name s c)
  request-Fields =
      subst (Fields name s c []) (append-nil (request name s c)) (header-Fields name s c [] ten)

  request-IsByte : All IsByte (request name s c)
  request-IsByte =
      All-append IsByte name (be_bytes 8 s ++ be_bytes 2 c) name_bytes (
        All-append IsByte (be_bytes 8 s) (be_bytes 2 c) (be_bytes-IsByte 8 s) (be_bytes-IsByte 2 c))

  pub request-sequence : s < 2 ^ 64 → read_at_be host 8 (request name s c) 10 ≡ s
  request-sequence small =
      read_at_be_lem host 8 (request name s c) 10 request-IsByte
        (omega (arith, request-Fields.long))
      ∙ ap be_value request-Fields.sequence
      ∙ be_value-be_bytes 8 s small

  request-count : c < 2 ^ 16 → read_at_be host 2 (request name s c) 18 ≡ c
  request-count small =
      read_at_be_lem host 2 (request name s c) 18 request-IsByte
        (omega (arith, request-Fields.long))
      ∙ ap be_value request-Fields.counted
      ∙ be_value-be_bytes 2 c small

module _ {Address : Type 0} (host : Endian) (buffer : RetransmissionBuffer) (addr : Address) where
  -- A datagram of 20 bytes is parsed and, if it asks for something there is, answered.
  pub handle_request-takes :
      (bytes : List ℕ) (f : Feed Address)
      → length f.recv_buffer ≡ 20
      → length bytes ≡ 20
      → let f' = record f { recv_buffer = bytes } in
        handle_request host buffer (received bytes addr) f
        ≡ reply host (parse_request host buffer addr f') f'
  unfolding handle_request
  handle_request-takes bytes f receives twenty =
      ap
        (λ bs.
          if not (min (length bytes) (length f.recv_buffer) == 20)
          then with_bytes bs
          else reply host (parse_request host buffer addr (with_bytes bs)) (with_bytes bs))
        (overwrite_all f.recv_buffer bytes (omega arith))
      ∙ ap
          (λ t.
            if not t
            then with_bytes bytes
            else reply host (parse_request host buffer addr (with_bytes bytes)) (with_bytes bytes))
          whole
    where
      with_bytes : List ℕ → Feed Address
      with_bytes bs = record f { recv_buffer = bs }

      whole : (min (length bytes) (length f.recv_buffer) == 20) ≡ true
      whole = ground arith

  -- A request of the feed's session is parsed to its fields and the position of its first message.
  pub parse_request-found :
      (name : List ℕ) (s c p : ℕ) (f : Feed Address) {seq : ℕ} {held : List (List ℕ)}
      → All IsByte name
      → s < 2 ^ 64
      → c < 2 ^ 16
      → Holds f.packet_builder name seq held
      → RetransmissionBuffer.file_position_for s buffer ≡ some p
      → parse_request host buffer addr (record f { recv_buffer = request name s c })
        ≡ some (record {
          client_address = addr;
          starting_sequence = s;
          msg_count = c;
          file_position_for_retransmission = p;
        })
  unfolding parse_request located
  parse_request-found name s c p f name_bytes small few h found =
      ap
        (λ t.
          if not t
          then none
          else located host addr f' (read_at_be host 8 (request name s c) 10) (
              RetransmissionBuffer.file_position_for (read_at_be host 8 (request name s c) 10)
                buffer))
        (ap₂ same_text (request-Fields name s c host h.ten name_bytes).session (session-Holds h)
          ∙ same_text_refl name)
      ∙ ap (λ q. located host addr f' q (RetransmissionBuffer.file_position_for q buffer))
          (request-sequence name s c host h.ten name_bytes small)
      ∙ ap (located host addr f' s) found
      ∙ ap
          (λ n. some (record {
            client_address = addr;
            starting_sequence = s;
            msg_count = n;
            file_position_for_retransmission = p;
          }))
          (request-count name s c host h.ten name_bytes few)
    where
      f' : Feed Address
      f' = record f { recv_buffer = request name s c }
