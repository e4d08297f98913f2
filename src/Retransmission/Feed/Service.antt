-- ===== src/Retransmission/Feed/Service.antt =====
-- What the retransmission feed answers to each event.
pub mod Answers
pub mod Loop
pub mod Pinned
use mathlib.Core.Bool.{true≢false}
use nasdaq_moldudp64_feed_si.Prelude.{
  ltb, ltb→lt, ltb-false→le, ℕ, ◌+◌, ◌^◌, ◌≤◌, ◌<◌, min, ◌≡◌, refl, sym, ap, ap₂, ◌∙◌, subst, ◌≢◌,
  ◌⊎◌, inl, inr, Bool, true, false, not, List, [], ◌∷◌, ◌++◌, length, overwrite, some, ◌==◌,
  if◌then◌else◌, All, Bool-cases, append-nil, overwrite_all, length-overwrite, length-append, arith,
}
use nasdaq_moldudp64_feed_si.BinaryIo.{Endian, IsByte}
use nasdaq_moldudp64_feed_si.PacketBuilder.Wire.{decode}
use nasdaq_moldudp64_feed_si.RetransmissionBuffer.{RetransmissionBuffer}
use nasdaq_moldudp64_feed_si.RetransmissionBuffer.Window.{Retains}
use nasdaq_moldudp64_feed_si.Downstream.Feed.Packing.{position}
use nasdaq_moldudp64_feed_si.Downstream.Feed.Replay.{packet_of}
use nasdaq_moldudp64_feed_si.Retransmission.Feed.{
  Reception, failed, received, Event, Feed, same_text, handle_request, reply, parse_request,
}
use nasdaq_moldudp64_feed_si.Retransmission.Feed.Parse.{
  same_text_refl, same_text_sound, request, request-Fields,
}
use nasdaq_moldudp64_feed_si.Retransmission.Feed.Request.{
  Serves, reply_messages, Replies, handle_request-Replies,
}
use nasdaq_moldudp64_feed_si.Retransmission.Feed.Events.{
  handled, handle_request-short, handle_request-refuses,
}

-- The fields of a request: a session of ten bytes, a number from 1 on and a count, each of the
-- width that it has in the datagram.
pub record IsRequest (name : List ℕ) (s count : ℕ) : Type 0 where
  pub name_bytes : All IsByte name
  pub ten : length name ≡ 10
  pub from_one : 1 ≤ s
  pub seq_fits : s < 2 ^ 64
  pub count_fits : count < 2 ^ 16

-- What `recvfrom` returned: nothing; a datagram that is too short; or a request for a number from 1
-- on, of any session, with anything behind it.
pub data Form {Address : Type 0} : Reception Address → Type 0 where
  fails : (errno : ℕ) → Form (failed errno)
  short : (bytes : List ℕ) (addr : Address) → length bytes < 20 → Form (received bytes addr)
  asks :
      (name : List ℕ) (s count : ℕ) (tail : List ℕ) (addr : Address)
      → IsRequest name s count
      → Form (received (request name s count ++ tail) addr)

module _ {Address : Type 0} (own lead : List ℕ) (all : List (List ℕ)) (mtu capacity : ℕ) where
  -- An event, with `n` messages recorded when it is handled.
  pub record Meets (event : Event Address) : Type 0 where
    pub n : ℕ
    pub retained : Retains event.buffer capacity n (position lead all)
    pub room : n + capacity < 2 ^ 64
    pub form : Form event.reception

  -- What is sent for an event: one packet, to the sender of a request of the feed's session whose
  -- first number is in the window, and else nothing.
  pub data Answered (n : ℕ) : Event Address → List (Address × List ℕ) → Type 0 where
    idle : {event : Event Address} → event.epollin ≡ false → Answered n event []
    no_request :
        {event : Event Address} (errno : ℕ) → event.reception ≡ failed errno → Answered n event []
    too_short :
        {event : Event Address} (bytes : List ℕ) (addr : Address)
        → event.reception ≡ received bytes addr
        → length bytes < 20
        → Answered n event []
    refused :
        {event : Event Address} (name : List ℕ) (s count : ℕ) (tail : List ℕ) (addr : Address)
        → event.reception ≡ received (request name s count ++ tail) addr
        → IsRequest name s count
        → (name ≢ own) ⊎ (n < s) ⊎ (s + capacity ≤ n)
        → Answered n event []
    replied :
        {event : Event Address} (s count : ℕ) (tail : List ℕ) (addr : Address) (datagram : List ℕ)
        → event.epollin ≡ true
        → event.reception ≡ received (request own s count ++ tail) addr
        → IsRequest own s count
        → s ≤ n
        → n < s + capacity
        → decode datagram ≡ some (packet_of own s (reply_messages mtu all s count))
        → Answered n event ((addr, datagram) ∷ [])

  -- A feed between two events.
  pub record Stands (fd entries : ℕ) (f : Feed Address) : Type 0 where
    pub serves : Serves f own lead all
    pub same_mtu : f.packet_builder.mtu ≡ mtu
    pub same_fd : f.shutdown_fd ≡ fd
    pub has_entries : length f.epoll_events ≡ entries

  -- From `f` to `f'` an event was answered.
  pub record Takes (fd entries n : ℕ) (event : Event Address) (f f' : Feed Address) : Type 0 where
    pub stands : Stands fd entries f'
    pub replies : List (Address × List ℕ)
    pub answered : Answered n event replies
    pub sent : f'.sent ≡ f.sent ++ replies
