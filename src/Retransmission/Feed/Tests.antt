-- ===== src/Retransmission/Feed/Tests.antt =====
-- Tests of src/mold/retransmission/feed.cpp.
use nasdaq_moldudp64_feed_si.Prelude.{
  ℕ, ◌^◌, ◌≤◌, ◌<◌, ◌≡◌, refl, false, true, List, [], ◌∷◌, ◌++◌, replicate, some, inr, inl, arith,
}
use nasdaq_moldudp64_feed_si.BinaryIo.{little}
use nasdaq_moldudp64_feed_si.BinaryIo.Bytes.{be_bytes}
use nasdaq_moldudp64_feed_si.Io.Frames.{frames}
use nasdaq_moldudp64_feed_si.PacketBuilder.Contents.{make-Holds}
use nasdaq_moldudp64_feed_si.PacketBuilder.Wire.{decode}
use nasdaq_moldudp64_feed_si.RetransmissionBuffer
use nasdaq_moldudp64_feed_si.RetransmissionBuffer.{RetransmissionBuffer, MessageRecord}
use nasdaq_moldudp64_feed_si.RetransmissionBuffer.Window.{Retains, make-Retains, push-Retains}
use nasdaq_moldudp64_feed_si.Downstream.Feed.Packing.{position, fill}
use nasdaq_moldudp64_feed_si.Downstream.Feed.Replay.{packet_of}
use nasdaq_moldudp64_feed_si.Retransmission.Feed.{
  Feed, Event, Reception, eagain, failed, received, handle_request, wait_failed, ready, undefined,
  start_round, start_loop, Wait,
}
use nasdaq_moldudp64_feed_si.Retransmission.Feed.Parse.{request}
use nasdaq_moldudp64_feed_si.Retransmission.Feed.Request.{
  Serves, reply_messages, Replies, handle_request-replies, handle_request-zero,
}
use nasdaq_moldudp64_feed_si.Retransmission.Feed.Service.{Meets, asks, fails}
use nasdaq_moldudp64_feed_si.Retransmission.Feed.Service.Loop.{events_of, Runs, start_loop-Runs}
use nasdaq_moldudp64_feed_si.Retransmission.Feed.Events.{handle_request-refuses, start_round-fails}
use nasdaq_moldudp64_feed_si.Examples.Replay.{builder-made, buffer-made}
use nasdaq_moldudp64_feed_si.Examples.{late_messages, session_name, config, builder, empty_buffer}

abbrev at_position : ℕ → ℕ
at_position = position [] late_messages

abbrev recorded : ℕ → MessageRecord
recorded s = record { sequence_number = s; file_position = at_position s }

-- Two of the three messages were recorded.
abbrev two_recorded : RetransmissionBuffer
two_recorded =
    RetransmissionBuffer.push (recorded 2) (RetransmissionBuffer.push (recorded 1) empty_buffer)

two-Retains : Retains two_recorded 2 2 at_position
two-Retains = push-Retains (push-Retains (make-Retains 2 at_position (omega arith) buffer-made))

-- An event that no request caused.
abbrev event_of : ℕ → Event ℕ
event_of fd = record { fd = fd; epollin = false; reception = failed 0; buffer = empty_buffer }

-- A client is a number; the shutdown descriptor is 3.
abbrev served : Feed ℕ
served = record {
  shutdown_fd = 3;
  recv_buffer = replicate 20 0;
  packet_builder = builder;
  file = frames late_messages;
  epoll_events = event_of 0 ∷ event_of 0 ∷ [];
  sent = [];
}

served-Serves : Serves served session_name [] late_messages
unfolding be_bytes
served-Serves = record {
  span = (omega arith, omega arith);
  messages = omega arith;
  whole = refl;
  name_bytes = omega arith;
  receives = refl;
  seq = 0;
  held = [];
  holds = (make-Holds config builder-made).0;
  mtu = omega arith;
}

handle_request-replies_example :
    (d : List ℕ) × ((handle_request little two_recorded
        (received (request session_name 2 2) 77)
        served).sent
      ≡ served.sent ++ ((77, d) ∷ []))
    × (decode d ≡ some (packet_of session_name 2 (reply_messages 50 late_messages 2 2)))
handle_request-replies_example =
    handle_request-replies little two_recorded 77 2 2 2 2 session_name [] late_messages served
      served-Serves two-Retains (omega arith) (omega arith) (omega arith) (omega arith)
      (omega arith)

abbrev one_recorded : RetransmissionBuffer
one_recorded = RetransmissionBuffer.push (recorded 1) empty_buffer

handle_request-zero_example :
    Replies served
      (handle_request little one_recorded (received (request session_name 0 2) 77) served)
      77
      session_name
      []
      late_messages
      0
      (fill 30 late_messages)
unfolding be_bytes
handle_request-zero_example =
    handle_request-zero little one_recorded 77 2 1 2 session_name [] late_messages late_messages
      served served-Serves refl (omega arith)
      (push-Retains (make-Retains 2 at_position (omega arith) buffer-made)) (omega arith)
      (omega arith) (omega arith) (omega arith)

handle_request-refuses_example :
    handle_request little two_recorded (received (request session_name 3 1) 77) served
    ≡ record served { recv_buffer = request session_name 3 1 }
handle_request-refuses_example =
    handle_request-refuses little two_recorded 77 3 1 2 2 session_name session_name at_position
      served (omega arith) refl refl (make-Holds config builder-made).0 two-Retains (omega arith)
      (omega arith) (omega arith) (inr (inl (omega arith)))

-- Nothing to receive.
abbrev silent : ℕ → Reception ℕ × RetransmissionBuffer
silent n = (failed eagain, two_recorded)

-- The same client asks twice: for what is there, and behind a byte too many for what is not.
abbrev asked : ℕ → List ℕ → Event ℕ
asked s tail = record {
  fd = 5;
  epollin = true;
  reception = received (request session_name s 2 ++ tail) 77;
  buffer = two_recorded;
}

abbrev waits : List (Wait ℕ)
waits =
    ready (asked 2 [] ∷ asked 3 (0 ∷ []) ∷ [])
    ∷ wait_failed 4 silent
    ∷ ready (event_of 3 ∷ asked 1 [] ∷ [])
    ∷ []

asked-Meets :
    (s : ℕ) (tail : List ℕ)
    → 1 ≤ s
    → s < 2 ^ 64
    → Meets session_name [] late_messages 50 2 (asked s tail)
asked-Meets s tail lo small = record {
  n = 2;
  retained = two-Retains;
  room = omega arith;
  form = asks session_name s 2 tail 77 (record {
    name_bytes = omega arith;
    ten = refl;
    from_one = lo;
    seq_fits = small;
    count_fits = omega arith;
  });
}

shutdown-Meets : Meets session_name [] late_messages 50 2 (event_of 3)
shutdown-Meets = record {
  n = 0;
  retained = make-Retains 2 at_position (omega arith) buffer-made;
  room = omega arith;
  form = fails 0;
}

start_loop-Runs_example :
    Runs session_name [] late_messages 50 2 3 [] (events_of waits) (start_loop little waits served)
start_loop-Runs_example =
    start_loop-Runs little waits (omega arith, (inl refl, (omega arith, tt)))
      (
        asked-Meets 2 [] (omega arith) (omega arith),
        (
          asked-Meets 3 (0 ∷ []) (omega arith) (omega arith),
          (shutdown-Meets, (asked-Meets 1 [] (omega arith) (omega arith), tt)),
        ),
      )
      (record { serves = served-Serves; same_mtu = refl; same_fd = refl; has_entries = refl })

-- 9 is EBADF.
start_round-fails_example : start_round little (wait_failed 9 silent) served ≡ undefined
start_round-fails_example =
    start_round-fails little 9 silent served (omega arith) (omega arith) (omega arith) refl
