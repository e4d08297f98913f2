-- ===== src/Retransmission/Feed/Service/Loop.antt =====
-- The event loop answers every event, in order, until one is of the shutdown descriptor.
use nasdaq_moldudp64_feed_si.Prelude.{
  ℕ, ◌≤◌, ◌≡◌, refl, sym, ap, ◌∙◌, subst, ◌⊎◌, inl, inr, ◌||◌, List, [], ◌∷◌, ◌++◌, length, drop,
  ◌==◌, if◌then◌else◌, All, All-front, All-back, Bool-cases, append-nil, append_assoc,
  length-overwrite, overwrite, arith,
}
use nasdaq_moldudp64_feed_si.BinaryIo.{Endian}
use nasdaq_moldudp64_feed_si.RetransmissionBuffer.{RetransmissionBuffer}
use nasdaq_moldudp64_feed_si.Retransmission.Feed.{
  Reception, Event, Feed, Wait, wait_failed, ready, Verdict, running, stopped, eintr, eagain,
  dispatch, start_round, start_loop, resume,
}
use nasdaq_moldudp64_feed_si.Retransmission.Feed.Events.{has_shutdown, handled, overwrite_front}
use nasdaq_moldudp64_feed_si.Retransmission.Feed.Service.{Meets, Answered, Stands}
use nasdaq_moldudp64_feed_si.Retransmission.Feed.Service.Answers.{handled-Takes}

-- `epoll_wait` was interrupted, or returned no more events than the array has room for.
abbrev pub IsCalm : {Address : Type 0} → ℕ → Wait Address → Type 0
IsCalm entries (wait_failed errno again) = (errno ≡ eintr) ⊎ (errno ≡ eagain)
IsCalm entries (ready events) = length events ≤ entries

abbrev pub events_of : {Address : Type 0} → List (Wait Address) → List (Event Address)
events_of [] = []
events_of (wait_failed errno again ∷ waits) = events_of waits
events_of (ready events ∷ waits) = events ++ events_of waits

-- The events in front of the first one of the shutdown descriptor.
abbrev pub before_shutdown : {Address : Type 0} → ℕ → List (Event Address) → List (Event Address)
before_shutdown fd [] = []
before_shutdown fd (event ∷ events) =
    let rest = before_shutdown fd events in if event.fd == fd then [] else event ∷ rest

module _ {Address : Type 0} (own lead : List ℕ) (all : List (List ℕ)) (mtu capacity : ℕ) where
  -- Each event is answered for itself, one after the other, by the number of messages that the
  -- buffer has recorded when it is handled.
  pub data Answers : List (Event Address) → List (Address × List ℕ) → Type 0 where
    no_more : Answers [] []
    answer :
        {event : Event Address} {events : List (Event Address)}
        {replies later : List (Address × List ℕ)}
        → Answered own lead all mtu capacity event.buffer.write_seq event replies
        → Answers events later
        → Answers (event ∷ events) (replies ++ later)

  -- The loop over the events, with `before` sent when it begins.
  pub record Runs (fd : ℕ) (before : List (Address × List ℕ)) (events : List (Event Address))
      (v : Verdict Address) : Type 0 where
    pub last : Feed Address
    pub ends : v ≡ (if has_shutdown fd events then stopped last else running last)
    pub replies : List (Address × List ℕ)
    pub answers : Answers (before_shutdown fd events) replies
    pub sent : last.sent ≡ before ++ replies

interrupted :
    {Address : Type 0} (host : Endian) (errno : ℕ)
    (again : ℕ → Reception Address × RetransmissionBuffer) (f : Feed Address)
    → (errno ≡ eintr) ⊎ (errno ≡ eagain)
    → start_round host (wait_failed errno again) f ≡ running f
unfolding start_round
interrupted host errno again f (inl e) = rw e refl
interrupted host errno again f (inr e) = rw e refl

module _ {Address : Type 0} (host : Endian) {own lead : List ℕ} {all : List (List ℕ)}
    {mtu capacity fd entries : ℕ} where
  -- What is left of a round, and the rounds behind it.
  dispatch-Runs :
      (again : Feed Address → Verdict Address) (later stale events : List (Event Address))
      {f : Feed Address}
      → ((g : Feed Address)
          → Stands own lead all mtu capacity fd entries g
          → Runs own lead all mtu capacity fd g.sent later (again g))
      → All (Meets own lead all mtu capacity) events
      → Stands own lead all mtu capacity fd entries f
      → Runs own lead all mtu capacity fd f.sent
          (events ++ later)
          (resume host again (dispatch host (length events) (events ++ stale) f))
  unfolding dispatch resume
  dispatch-Runs again later stale [] {f} goes_on meets st = goes_on f st
  dispatch-Runs again later stale (event ∷ events) {f} goes_on meets st =
      elim (Bool-cases (event.fd == fd)) [
        | inl shutdown ↦ record {
          last = f;
          ends =
              ap (λ b. resume host again (if b then stopped f else rest)) (same_test ∙ shutdown)
              ∙ ap (λ b. if b || has_shutdown fd (events ++ later) then stopped f else running f)
                  (sym shutdown);
          replies = [];
          answers =
              subst
                (λ b.
                  Answers own lead all mtu capacity
                    (if b then [] else event ∷ before_shutdown fd (events ++ later)) [])
                (sym shutdown) no_more;
          sent = sym (append-nil f.sent);
        }
        | inr other ↦
            let t = handled-Takes host event meets.0 st in
            let r = dispatch-Runs again later stale events goes_on meets.1 t.stands in
            record {
              last = r.last;
              ends =
                  ap (λ b. resume host again (if b then stopped f else rest)) (same_test ∙ other)
                  ∙ r.ends
                  ∙ ap
                      (λ b.
                        if b || has_shutdown fd (events ++ later)
                        then stopped r.last
                        else running r.last)
                      (sym other);
              replies = t.replies ++ r.replies;
              answers =
                  subst
                    (λ b.
                      Answers own lead all mtu capacity
                        (if b then [] else event ∷ before_shutdown fd (events ++ later))
                        (t.replies ++ r.replies))
                    (sym other)
                    (answer
                      (subst (λ n. Answered own lead all mtu capacity n event t.replies)
                        (sym meets.0.retained.written) t.answered)
                      r.answers);
              sent =
                  r.sent
                  ∙ ap (λ l. l ++ r.replies) t.sent
                  ∙ append_assoc f.sent t.replies r.replies;
            }
      ]
    where
      rest : Verdict Address
      rest = dispatch host (length events) (events ++ stale) (handled host event f)

      same_test : (event.fd == f.shutdown_fd) ≡ (event.fd == fd)
      same_test = ap (λ n. event.fd == n) st.same_fd

  -- A feed serves a file. `epoll_wait` is interrupted or returns events, no more than the array
  -- has room for; each event meets a buffer that retains the messages recorded by then, and brings
  -- nothing, a datagram shorter than a request, or a request for a number from 1 on with anything
  -- behind it. Then the loop of `start` looks at the events in order until one is of the shutdown
  -- descriptor, with which it ends, and answers each before that one for itself: a request of the
  -- feed's session whose first number is one of the last `capacity` recorded gets one packet,
  -- which decodes to the messages from that number on, as many of those asked for as fit; for all
  -- else nothing is sent. The sums fit 64 bits.
  pub start_loop-Runs :
      (waits : List (Wait Address)) {f : Feed Address}
      → All (IsCalm entries) waits
      → All (Meets own lead all mtu capacity) (events_of waits)
      → Stands own lead all mtu capacity fd entries f
      → Runs own lead all mtu capacity fd f.sent (events_of waits) (start_loop host waits f)
  unfolding start_loop resume start_round
  start_loop-Runs [] {f} calm meets st = record {
    last = f;
    ends = refl;
    replies = [];
    answers = no_more;
    sent = sym (append-nil f.sent);
  }
  start_loop-Runs (wait_failed errno again ∷ waits) {f} calm meets st =
      subst
        (λ v.
          Runs own lead all mtu capacity fd f.sent (events_of waits)
            (resume host (start_loop host waits) v))
        (sym (interrupted host errno again f calm.0)) (start_loop-Runs waits calm.1 meets st)
  start_loop-Runs (ready events ∷ waits) {f} calm meets st =
      subst
        (λ l. Runs own lead all mtu capacity fd f.sent (events ++ events_of waits) (
          resume host (start_loop host waits)
            (dispatch host (length events) l (record f { epoll_events = l }))))
        (sym written)
        (dispatch-Runs (start_loop host waits) (events_of waits)
          (drop (length events) f.epoll_events) events
          (λ g st'. start_loop-Runs waits calm.1 later st')
          (All-front (Meets own lead all mtu capacity) events (events_of waits) meets)
          (subst (λ l. Stands own lead all mtu capacity fd entries (record f { epoll_events = l }))
            written round_Stands))
    where
      later : All (Meets own lead all mtu capacity) (events_of waits)
      later = All-back (Meets own lead all mtu capacity) events (events_of waits) meets

      written : overwrite f.epoll_events events ≡ events ++ drop (length events) f.epoll_events
      written = overwrite_front f.epoll_events events (omega (arith, calm.0, st.has_entries))

      round_Stands :
          Stands own lead all mtu capacity fd entries
            (record f { epoll_events = overwrite f.epoll_events events })
      round_Stands = record {
        serves = record {
          span = st.serves.span;
          messages = st.serves.messages;
          whole = st.serves.whole;
          name_bytes = st.serves.name_bytes;
          receives = st.serves.receives;
          seq = st.serves.seq;
          held = st.serves.held;
          holds = st.serves.holds;
          mtu = st.serves.mtu;
        };
        same_mtu = st.same_mtu;
        same_fd = st.same_fd;
        has_entries = length-overwrite f.epoll_events events ∙ st.has_entries;
      }
