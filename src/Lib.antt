-- ===== src/Lib.antt =====
-- A verification library of `imr`, a C++ library that replays NASDAQ TotalView-ITCH files over
-- MoldUDP64.
--
-- The program. A server maps a file of messages, each behind a 16-bit length. The downstream feed
-- walks through the file, packs messages into datagrams behind a header (session, sequence number,
-- count), records the file position of each message in a ring buffer, waits as the pacer says, and
-- multicasts the packet; at the end it announces the end of the session. Retransmission feeds, each
-- in a thread of its own, take requests from clients, look up the file position of the first number
-- in the buffer, and reply with one packet.
--
-- Files and sources:
-- - Prelude: the names the modules share, list operations over the native numbers, Boolean tests,
--   and integers; it models no code.
-- - BinaryIo: src/util/binary_io.h. BinaryIo/BigEndian shows what the `_be` functions read and
--   write.
-- - Types: include/imr/mold/types.h.
-- - Itch: src/itch/timestamp.cpp and `peek_timestamp` of src/mold/downstream/feed.cpp.
-- - Io: src/mold/io.cpp. Io/Reading is about any file, Io/Frames about well-formed ones.
-- - Exception: what the constructors throw, and results of calls that may throw.
-- - PacketBuilder: include/imr/mold/packet_builder.h and src/mold/packet_builder.cpp. `Holds` in
--   PacketBuilder/Contents is the invariant, Bounds about any use of a builder; Wire has an independent
--   receiver.
-- - RetransmissionBuffer: include/imr/mold/retransmission_buffer.h and
--   src/mold/retransmission_buffer.cpp. `Retains` in RetransmissionBuffer/Window is the abstract
--   view: a map from the last sequence numbers to file positions. RetransmissionBuffer/Race has
--   `push` and `file_position_for` as steps of two threads.
-- - FileDescriptor: include/imr/util/file_descriptor.h and src/util/file_descriptor.cpp, with the
--   objects in a store. Ownership is about any sequence of their operations.
-- - MemoryMappedFile: include/imr/util/memory_mapped_file.h and src/util/memory_mapped_file.cpp, with
--   the objects in a store, and their descriptors in that of FileDescriptor. Ownership and
--   Outcome are about the constructor, Operations about any sequence of operations, Failure about
--   `madvise`.
-- - Log: include/imr/util/log.h. Lines is about what any sequence of its calls prints.
-- - ZstringView: include/imr/util/zstring_view.h. Termination is about what a C function reads.
-- - System: system calls with the checks behind them, and constructors that are left by an exception.
--   System/Attempt is about calls up to the first that fails, System/Guard about the descriptors that
--   a constructor leaves, System/Compose about members constructed one after the other.
-- - Downstream/Setup, Retransmission/Setup: the constructors and `configure_socket` of the two feeds.
--   Socket is about the calls, Construct about the descriptors.
-- - Retransmission/FeedPool: include/imr/mold/retransmission/feed_pool.h and
--   src/mold/retransmission/feed_pool.cpp.
-- - Server: include/imr/server.h and src/server.cpp: the owner of a server, the downstream thread and
--   the retransmission threads as one step relation. Invariant, Reached, Safety, Destroying and
--   Liveness are about any interleaving, Unwinding about a thread that cannot be created.
-- - Server/Setup: the constructor of the server and `make_server`, from the components' constructors.
--   Pool is about the loop that creates the threads, Initialise about the members behind the mapped
--   file, Release about what an exception destroys, Answer about `make_server`.
-- - Downstream/Heartbeat: include/imr/mold/downstream/heartbeat.h and
--   src/mold/downstream/heartbeat.cpp. Thread is about what its thread sends.
-- - Downstream/Pacer: include/imr/mold/downstream/pacer.h.
-- - Downstream/Feed: include/imr/mold/downstream/feed.h and src/mold/downstream/feed.cpp.
--   Packing is about one packet, Replay about the loop of `start`, EndOfSession about its end,
--   StopRequest about a run whose stop token is triggered, Stuck about files on which the loop does
--   not get to the end.
-- - Downstream/Session: the loop of `start` and the thread of the heartbeat, interleaved. Phases is
--   about the rounds of the feed, Playing about the feed, Beating about the heartbeats, Announcing
--   about both.
-- - Retransmission/Feed: include/imr/mold/retransmission/feed.h and
--   src/mold/retransmission/feed.cpp. Parse is about what is read from a request, Reply about one
--   packet, Request about the requests that are answered, Events about those that are not and about
--   single rounds of the event loop, Service about all that the loop answers, Service/Pinned about
--   what that specification excludes.
-- - Retransmission/Recovery: a client that asks for the messages it lost, request by request.
--   Subscriber is a receiver of both feeds; it stands for the other end, and models no code. Lossless
--   is about any datagrams that it hears, Replayed about those of a run of `start`.
-- - Examples, and the Tests modules: concrete runs.
--
-- How code becomes a definition. Objects are records, and a method is a function from the record to
-- the new record and what the method returns. A span of bytes is a list of numbers; a position is a
-- number, and sums of `std::size_t` wrap (`add_size`). `memcpy` of an integer depends on the host's
-- byte order, an argument. Messages in iovecs are their bytes, since nobody writes to the mapped
-- file; the datagram is what `sendmsg` gathers. `sent` lists what was handed to the kernel, whether
-- or not it reports an error, since the code only logs one. The kernel and the clock are arguments:
-- what `epoll_wait` and `recvfrom` return, in the constructors a function from the calls made so
-- far or, for a thread of the pool, from the number created; and for each round of a loop the readings of the stop token and the clock. The division by
-- the playback speed, in floating point, is a parameter of the pacer.
--
-- Loops. The loop of the downstream `build_packet` is on fuel, one more than the length of the file;
-- each round that goes on moves the position by at least two bytes, so that is enough. The loops of
-- `start` take a list of rounds: one element for each time their condition is evaluated.
--
-- Threads. The steps of RetransmissionBuffer/Race, Downstream/Session and Server happen one after
-- the other, in any interleaving; while a record is copied into the buffer, its slot may hold
-- anything. In Server a thread that runs a feed has few steps. There
-- `downstream_feed_.start` returns because a stop was requested, or because the replay has come to its
-- end, which it may never do; how the loops of the feeds end is what Downstream/Feed and
-- Retransmission/Feed show.
--
-- Not modelled: asserts, which the release build leaves out; the places where the components call the
-- functions of Log, which only print; the capacity that vectors reserve; memory that is exhausted; a
-- program that ends because an exception leaves a thread or a destructor; and a server that is started
-- twice.
pub mod Prelude
pub mod BinaryIo
pub mod Types
pub mod Itch
pub mod Io
pub mod FileDescriptor
pub mod MemoryMappedFile
pub mod Log
pub mod ZstringView
pub mod System
pub mod Exception
pub mod PacketBuilder
pub mod RetransmissionBuffer
pub mod Examples
pub mod Downstream
pub mod Retransmission
pub mod Server
