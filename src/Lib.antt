-- ===== src/Lib.antt =====
-- libhdk, an asynchronous library for embedded Linux services: checksums, serialisation, brokers
-- that deliver messages to callbacks, and channels over ZeroMQ.
--
-- The parts and the files that model them:
--   Checksum (libhdk/checksum.cpp, libhdk/checksum.hpp): `crc32` with its two loops and four
--     tables, `crc32_static`, and `get_type_id` of libhdk/marshall/marshall_type_info.hpp. Memory
--     is a list of bytes, and a read past its end gives `none`. No fuel: the loops recur on the
--     memory. TypeId has the id that HDK_MARSHAL of libhdk/marshall/marshall_macro.hpp gives a
--     message.
--   Marshall (libhdk/marshall/marshal.hpp): `marshal_value` and `demarshal_value` are the overloads
--     `_marshal` and `_demarshal`, `marshal` and `demarshal` the variadic functions. The order of
--     std::less and the bytes of a map object are a parameter, `Platform`. Canonical is about bytes
--     from anywhere. Buffer has the conversions from and to asio's `streambuf`, a parameter too, of
--     which Plain is one that can be had.
--   Brocker (libhdk/brocker): Registry has the map of brocker_manager with `__reg`, `__unreg` and
--     `clone`; Removal has `remove` as a machine that makes one step of its loops at a time, run
--     for any number of steps; Brocker.antt has the brokers, `reg`, `unreg`, the copy constructor,
--     `post` and the closure that `post` dispatches. The mutex of the manager makes each call one
--     step.
--   Sockets (libhdk/channel/impl/socket_info_zmq.hpp): the record of a ZeroMQ socket, its peers and
--     the flag `connected`. An object that does not exist is `none`.
--   Poller (libhdk/channel/impl/socket_poller_zmq.cpp and .hpp): the thread that owns the sockets,
--     as a state with the effects so far and a small monad whose runs end as `done`, `thrown`,
--     `uncaught` or `undefined`. Control has the handlers of control messages, Traffic those of
--     data and of monitor events, Loop the rounds of `thread_poll`. The theorems are in Routing
--     (messages of channels), Wire (both ends of a connection), Reception (peers), Reading
--     (malformed messages), Items and Opening (a socket is opened and closed) and Multipart (the
--     loops of libhdk/channel/impl/socket_helpers_zmq.hpp). The messages of
--     libhdk/channel/impl/channel_impl_zmq.cpp are `create_frames`, `open_frames`, `send_frames`,
--     `close_frames` and `remove_frames`; Creation is about a socket's life, Reopening about one
--     that is opened twice, Watched about what the handlers leave alone, Pairs about how the poll
--     items stand through any run of the thread. What ZeroMQ answers, and which of its calls fail,
--     is the parameter `Zmq`. A handle stands for one socket object.
--   Channel (libhdk/channel/channel.cpp, channel.hpp and channel/impl/channel_impl_local.cpp): the
--     channel objects by address, the implementations they share, whose lifetime is a count, and
--     the registry of names. Sending has `send`, `send_current` and `connected`; Lifetime and
--     Histories the invariant, Lookup what `make` and `get` find.
--   Waiting (libhdk/channel/impl/channel_impl_zmq.cpp and `call_sync` of
--     libhdk/async/async_object.hpp): the caller and the thread that it waits for, one call of a
--     mutex or of a condition variable at a time, in any order. States proves what evaluation over
--     all states shows; Lost is about lost notifications. Startup has `startup` of
--     libhdk/channel/impl/socket_poller_zmq.cpp.
--   Timer (libhdk/timer/timer.hpp): the timer, its waits on a `steady_timer` and their handlers,
--     which the io_context calls one at a time; the callback is a parameter.
--   Threads (libhdk/async/async_thread_p.hpp): the pool, and the threads that enter and leave it;
--     Sleep is libhdk/async/async_sleep.hpp, Handles libhdk/async/async_thread.cpp, whose objects
--     share the threads, and Objects libhdk/async/async_object.hpp, with the queues of the
--     io_contexts, which call the handlers of a queue in any order.
--   Helpers (libhdk/helpers/helpers.hpp and libhdk/channel/impl/socket_helpers_zmq.hpp): texts of
--     bytes in hexadecimal digits, and of addresses. `decimal` has as many rounds as the number and
--     one more, which are enough for its digits.
--   Singleton (libhdk/singleton.hpp): `instance()`, one access of its atomic or its mutex at a
--     time, by any number of threads. Invariant has what each thread knows where it stands, Once
--     what follows, Progress that the calls can end.
--   Journey: a message from `channel::send` to the callbacks, over the models of the channels, the
--     serialisation, the poller and the brokers; Notice is about the messages that the poller
--     itself posts. Brocker.Call has libhdk/brocker/brocker_call.hpp.
--   KillHandler (libhdk/kill_handler.cpp): `reg`, and what runs when the process ends.
--   Base: tests, lists and the laws of exclusive or that these share.
-- A message's type id comes from Checksum, its bytes from Marshall; the poller carries them to the
-- other end, and posts them to the brokers, whose way to the callbacks is Brocker's. No fuel stands
-- in the model but the number of steps of Removal and of handlers in `complete_all` of Timer, of
-- which the theorems are about any number or enough: all loops recur on a list.
--
-- Not modelled: how the mutexes other than those of Waiting and Singleton are taken; the classes
-- marshall_stream and marshall_type_info, which only forward; the channel over asio, whose
-- functions are empty; the calls of the operating system in
-- libhdk/channel/impl/socket_helpers_zmq.hpp and libhdk/helpers/helpers.hpp; that ZeroMQ can give a
-- socket the address of one that is gone; the byte order other than little-endian. asio and cppzmq
-- under 3rdparty are other projects' libraries.
pub mod Base
pub mod Checksum
pub mod Marshall
pub mod Brocker
pub mod Sockets
pub mod Poller
pub mod Channel
pub mod Waiting
pub mod Timer
pub mod Threads
pub mod KillHandler
pub mod Singleton
pub mod Journey
pub mod Helpers
