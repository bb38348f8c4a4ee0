-- ===== src/Lib.antt =====
-- A model of a UDP node that sends a framed packet at a fixed interval, receives its peer's
-- packets on a thread of its own, watches the peer for loss and instability, and keeps latency
-- statistics.
--
-- The parts and the files that model them:
-- - Crc: `AppPacket::calculateCrc32` of src/app/AppPacket.cpp. Detect and Burst have what changes
--   it.
-- - AppPacket: `class AppPacket` of include/app/AppPacket.hpp and src/app/AppPacket.cpp. State has
--   the fields and setters, Wire the layout of the two packed structs, Codec `encode` and
--   `decode`, Monitor `updateReceivedLifesign`, `isCommLost` and `getTimeSinceLastChange`, Valid
--   the field invariant.
-- - Ring: `LockFreeRingBuffer` of include/thread/LockFreeRingBuffer.hpp. Ring has `push`, `pop`
--   and the queries as whole calls, Queue the bounded queue that they implement, and Spsc the same
--   code as the steps of one producer and one consumer thread.
-- - Stats: `LatencyStats` of include/stats/LatencyStats.hpp. Floating has what it uses of
--   `double`, Text how a result prints itself, and Concurrent `recordSample` and the copy of
--   `computeStats` as the steps of two threads.
-- - Socket: `class UdpNode` of include/socket/UdpNode.hpp and src/socket/UdpNode.cpp.
-- - Threads: `class UdpThreadManager` of include/thread/UdpThreadManager.hpp and
--   src/thread/UdpThreadManager.cpp. State has the fields and `queueTxPacket`, Loops the two
--   thread loops, Lifecycle `start`, `stop` and the configuration, Shutdown `stop` beside the two
--   loops as steps.
-- - Args: `parseAddrPort` and `parseUdpPeerArgs` of src/app/ArgParser.cpp. Tokens and Choices say,
--   apart from the code, what an address and a port is and which arguments are read.
-- - Timers: `class TimerHandle` of include/timer/timer.hpp and src/timer/Timer.cpp.
-- - Signals: `class SignalHandler` of include/app/SignalHandler.hpp and src/app/SignalHandler.cpp.
-- - Events: `class EventLoop` of include/event/EventLoop.hpp and src/event/EventLoop.cpp, but for
--   `run`.
-- - Ui: `class TerminalUI` of include/stats/TerminalUI.hpp. Screen reads what is printed the way a
--   terminal does, and Format has what the class uses of `std::format`.
-- - Main: src/app/main.cpp. Handlers has the four callbacks, Environment what `main` meets and
--   makes, Program `main` up to its loop and behind it, and Loop the loop with `EventLoop::run` in
--   it, as steps that a signal interrupts. Session puts the handlers and the loops of two peers
--   together.
--
-- How they interact: `main` connects the parts. A timer's descriptor wakes the event loop, which
-- calls the timer's callback; that encodes a packet with AppPacket and pushes it to the Ring of
-- the sender thread, which pops it and sends. The receiver thread gets a datagram from the socket,
-- records its interval, pushes it to another Ring, and hands it to the callback, which decodes it
-- with AppPacket. `encode` and `decode` sum their bytes with Crc, the threads' loops record in
-- Stats, and Ui shows the statistics and the log. A signal sets a flag and runs the callback that
-- stops the event loop.
--
-- How code becomes definitions: a class is a record of its fields, a method a function from the
-- object to the object and its result, an early return or a `goto exit` a branch. Words are
-- natural numbers with the wrap-around written out. A byte pointer is `none` or the bytes from it
-- on. The time points of `steady_clock` are nanoseconds, an argument of what reads the clock. The
-- answers of the kernel (sockets, threads, timers, epoll, errors) are arguments too, and so are
-- `inet_pton` and `std::stoul`. A text is its bytes, and the conversions of `std::format` are a
-- parameter with what the standard says of them. `double` is a parameter: a type with its
-- operations, and where an order is claimed the monotonicity of its rounding is a hypothesis.
-- `std::sort` is an insertion sort. The host is little-endian. An acquire load and a release store
-- of an index are single steps, and the two threads of a ring interleave in any order of these
-- steps.
--
-- Bounds: every function is total by structural recursion. A loop of a thread runs over the list
-- of its passes, so a finite list is a run up to the moment where the thread waits for the kernel;
-- no fuel is used. The end of the main loop is counted in steps: 20 are enough, since `epoll_wait`
-- returns at most 16 events and four steps lie around them. `stop` takes at most four steps once
-- it has cleared the flag, if each pass of a loop ends, as it does where the receive timeout was
-- set. The theorem on the latency buffer covers fewer than 2^64 samples.
--
-- Not modelled: the messages of the parts on the console, but for those of the handlers, of the
-- signal handler, of the dashboard and of a result; the interleaving of the threads with the main
-- thread, beyond the rings, the latency statistics, `stop`, the two reads of `isCommLost`
-- (AppPacket/Monitor/Race) and the fact that what they share with the callbacks may change between
-- two steps of the loop; a signal in the middle of one of these steps. Both threads block SIGINT
-- and SIGTERM, so the main thread handles them; one that comes before they are blocked is left
-- out. Between the peers of Session packets are lost, but not damaged, repeated or reordered.
mod Prelude
pub mod Crc
pub mod AppPacket
pub mod Ring
pub mod Stats
pub mod Socket
pub mod Threads
pub mod Args
pub mod Timers
pub mod Signals
pub mod Events
pub mod Format
pub mod Ui
pub mod Main
