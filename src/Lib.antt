-- ===== src/Lib.antt =====
-- A verification library for tamer, a C++ library for event-driven programs: tamed functions run
-- until they wait for events, and a driver triggers events when time passes or descriptors are ready.
--
-- The files and the code they are about:
--   AsapSet     `driver_asapset` of tamer/dinternal.hh and tamer/dinternal.cc, the ring of events that
--               the driver triggers at its next pass. AsapSet/Window has the arithmetic of its 32-bit
--               counters, AsapSet/Fifo the queue that the ring stands for.
--   Timers      `driver_timerset` of the same files, a heap with four children to a node. Timers/Rank
--               turns `trec::operator<` into an order of numbers, Timers/Order and Timers/Sift are
--               about the loops of the heap on any such order, Timers/Total counts the timers in the
--               array, Timers/Cull and Timers/Push are about the operations.
--   Mutex       `mutex` of tamer/lock.hh and tamer/lock.tcc. A waiting call is its closure; Mutex/Inv
--               has the operations as steps, Mutex/Order the order of grants, Mutex/Held the holders.
--   WebSocket   tamer/websocket.hh and tamer/websocket.tcc: WebSocket/Mask is `do_mask`, WebSocket/Utf8 is
--               `validate_utf8`, with the encoding of RFC 3629 in WebSocket/Utf8/Encoding, WebSocket/Frame is
--               `receive_any` and WebSocket/Send is `send` and `close`. Below WebSocket/Frame, Header, Check
--               and Length are about headers, Reading and RoundTrip about whole frames, Overrun about lengths
--               that do not fit in 64 bits.
--   Channel     `channel` of tamer/channel.hh; Channel/Fifo and Channel/Canceled have runs of its operations,
--               the second with events that are canceled.
--   Http        tamer/http.hh and tamer/http.tcc: messages, the comparison of header names
--               (Http/Canonical), the callbacks that build a message from pieces (Http/Callbacks) and
--               the loop of `make_info` that splits a query (Http/Query).
--   Closures    `simple_driver`, `blocking_rendezvous` and `closure` of tamer/xbase.hh and tamer/xbase.cc:
--               the slots of blocked closures, whose free list and queue are chains through one array
--               (Closures/Slots, Closures/Queue, Closures/Adding, Closures/Running), and the blocking and
--               unblocking of closures by rendezvous (Closures/Blocking).
--   Events      `simple_event`, `abstract_rendezvous` and `explicit_rendezvous` of the same files, and `join`
--               of tamer/rendezvous.hh: what the trigger of an event does. Events/Waiting has one trigger,
--               Events/Gather and Events/Explicit the two kinds of rendezvous on which closures wait,
--               Events/Clear what becomes of events whose rendezvous goes away. Events/Typed is `event` of
--               tamer/event.hh, the handle of a simple event with slots for results, and Events/Distribute
--               is `distribute_rendezvous` of tamer/rendezvous.hh: Events/Distribute/Space is about its
--               array, Events/Distribute/Children about its hook.
--   Driver      `driver_tamer` of tamer/dtamer.cc, without epoll: Driver/PollFds is `xpollfds`, Driver/FdSet
--               is `driver_fdset` of tamer/dinternal.hh, Driver/Interest is `at_fd`, `kill_fd` and
--               `update_fds`, which keep the two in step, Driver/Loop is the timeout of a pass of `loop`,
--               its loops over the timers and the ring, and the passes up to its end, by `break_loop` or by
--               the lack of work (Driver/Loop/Ends).
--   Registry    the table of drivers of tamer/dinternal.cc, and the callbacks of tamer/dinternal.hh that carry a
--               driver and a descriptor in one number.
--   Clock       `now`, `recent` and `set_time_type` of tamer/dinternal.cc and tamer/driver.hh, and the
--               `at_delay` functions of tamer/xdriver.hh.
--   Refs        tamer/ref.hh: the counts of an object (Refs/Balance), the pointer variables of a program
--               (Refs/Pointers), the operations on them (Refs/Apply), and the monitors of a `ref`
--               (Refs/Monitors).
--   Fd          `fd`, `fdimp` and `fdref` of tamer/fd.hh, and `fdimp::close` of tamer/fd.tcc: handles that share
--               a descriptor. Fd/Closing, Fd/Balance and Fd/Adopting are about one `fdimp`, Fd/Handles
--               about the operations on the handles, Fd/Lifetime about whole programs and about
--               `closer`, Fd/Locks about the locks of an `fdref`, which are those of Mutex: Fd/Locks/Alone has one
--               `fdref` that no one else meets, Fd/Locks/Unowned one that has not got the lock.
--   Prelude     shared names, tests, lists, 32-bit words, masks and exclusive or of binary digits.
-- The parts meet in the driver: an event goes into the ring, the heap or the set of descriptors; a pass of
-- the loop triggers it, and triggering it unblocks the closure of a call such as `mutex::acquire`, whose
-- steps Mutex takes in any order. Events uses the unblocking of Closures, Driver/Loop uses AsapSet and
-- Timers, Clock uses the times of Driver/Loop. Fd uses the pointer variables of Refs and the locks of Mutex.
--
-- Numbers: an unsigned 32-bit integer is a number below 2^32, and its arithmetic wraps around as in the
-- source (`add32`, `sub32`, `mul32`). A byte is a number below 256. A pointer to an event or to a `wait`
-- object is a number. An array is a function of its index, or a list. A failed assertion is `none`.
--
-- Loops on fuel: `sift_up`, `raise` and `sift_down` get the index, or the number of timers, which bounds
-- their rounds; `cull` and `thin` get one round for each timer and one for the last test; `clear` of the
-- ring gets one round for each event. `update_fds`, `fire_timers` and `fire_asap` get one round for each
-- pending change, timer or event, and one for the last test. `skip_empty` needs one round, since no queued
-- slot is empty. `trigger_loop`, also behind `trigger` and the hook of a distributed event, needs one round for each hook that is an event, and one for the event itself.
--
-- Not modelled: system calls, epoll, the libev and libevent drivers, signals, the tame compiler, the example
-- programs and the tests; the other operations of http, the loop of `receive` and the handshake of websocket,
-- dns, buffers, the reads and writes of descriptors, and the adapters of events. The calls of functions from
-- hooks and of functional and distribute rendezvous are recorded in order, and what they do are further steps; so
-- are the events that the end of a descriptor triggers and the functions that `done` of a mutex calls. Bytes from a descriptor are a list, and what `::close` gives, random
-- bytes and the room in a string are parameters. Delays in floating
-- point are not numbers here. In Driver the arrays for `poll` and for descriptors have capacities that memory
-- bounds, and a descriptor is not negative. In Refs an object holds no pointers of its own. The memory behind
-- the arrays is not modelled: an array that grows gets its old contents. In Timers and Channel, whether an
-- event is still active is a function of the event.
pub mod AsapSet
pub mod Channel
pub mod Clock
pub mod Closures
pub mod Driver
pub mod Events
pub mod Fd
pub mod Http
pub mod Mutex
pub mod Prelude
pub mod Refs
pub mod Registry
pub mod Timers
pub mod WebSocket
