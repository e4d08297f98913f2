-- ===== src/Retransmission/Feed/Service/Pinned.antt =====
-- What the specification of an answer pins: an event that has to be answered is not passed over.
use nasdaq_moldudp64_feed_si.Prelude.{
  ℕ, ◌+◌, ◌≤◌, ◌<◌, ◌≡◌, sym, ap, ◌∙◌, true, inl, inr, List, [], ◌++◌, length, take, take-front,
  length-append, arith,
}
use nasdaq_moldudp64_feed_si.BinaryIo.{little, read_at_be}
use nasdaq_moldudp64_feed_si.Retransmission.Feed.{Reception, failed, received, Event}
use nasdaq_moldudp64_feed_si.Retransmission.Feed.Parse.{request, request-Fields, request-sequence}
use nasdaq_moldudp64_feed_si.Retransmission.Feed.Service.{
  IsRequest, Answered, idle, no_request, too_short, refused,
}

abbrev bytes_of : {Address : Type 0} → Reception Address → List ℕ
bytes_of (failed errno) = []
bytes_of (received bytes addr) = bytes

length-request :
    {name : List ℕ} {s count : ℕ} → IsRequest name s count → length (request name s count) ≡ 20
length-request {name} {s} {count} q = (request-Fields name s count little q.ten q.name_bytes).long

-- The session and the number of a request can be read off its bytes.
request_unique :
    {name name' : List ℕ} {s s' count count' : ℕ} (tail tail' : List ℕ)
    → IsRequest name s count
    → IsRequest name' s' count'
    → request name s count ++ tail ≡ request name' s' count' ++ tail'
    → (name ≡ name') × (s ≡ s')
request_unique {name} {name'} {s} {s'} {count} {count'} tail tail' q q' e = (
  sym (take-front 10 name _ q.ten) ∙ ap (take 10) same ∙ take-front 10 name' _ q'.ten,
  sym (request-sequence name s count little q.ten q.name_bytes q.seq_fits)
      ∙ ap (λ bs. read_at_be little 8 bs 10) same
      ∙ request-sequence name' s' count' little q'.ten q'.name_bytes q'.seq_fits,
)
  where
    same : request name s count ≡ request name' s' count'
    same =
        sym (take-front 20 (request name s count) tail (length-request q))
        ∙ ap (take 20) e
        ∙ take-front 20 (request name' s' count') tail' (length-request q')

-- A request of the feed's session for a number in the window, when the socket is readable, is not left
-- without a reply.
pub Answered-nonempty :
    {Address : Type 0} {own lead : List ℕ} {all : List (List ℕ)} {mtu capacity n s count : ℕ}
    {event : Event Address} (tail : List ℕ) (addr : Address)
    → event.epollin ≡ true
    → event.reception ≡ received (request own s count ++ tail) addr
    → IsRequest own s count
    → s ≤ n
    → n < s + capacity
    → Answered own lead all mtu capacity n event []
    → ⊥
Answered-nonempty tail addr readable same q hi near (idle not_readable) = cc
Answered-nonempty tail addr readable same q hi near (no_request errno none_there) = cc
Answered-nonempty {own = own} {s = s} {count = count} tail addr readable same q hi near
      (too_short bytes other there short) =
    omega (
      arith,
      short,
      ap (λ r. length (bytes_of r)) (sym same ∙ there),
      length-append (request own s count) tail,
      length-request q,
    )
Answered-nonempty tail addr readable same q hi near
      (refused name s' count' tail' other there q' why) =
    let (same_name, same_number) =
      request_unique tail tail' q q' (ap bytes_of (sym same ∙ there)) in
    elim why [
      | inl different ↦ different (sym same_name)
      | inr (inl ahead) ↦ omega (arith, same_number, ahead, hi)
      | inr (inr gone) ↦ omega (arith, same_number, gone, near)
    ]
