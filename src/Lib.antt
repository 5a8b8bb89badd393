-- ===== src/Lib.antt =====
-- ssxrver: models of an HTTP server on epoll, and theorems on them.
--
-- A listening socket hands its connections to loops in turn. Each loop waits for events with epoll,
-- calls the handlers of its connections and timers, and runs the functions that other threads have
-- queued. A connection keeps an input and an output buffer and a request parser. The HTTP server
-- feeds the input to the parser, puts the bodies of requests together, and sends the responses. The
-- log is formatted in the calling threads and written by one of its own. A small layer writes SQL.
--
-- Which file models what (paths from the root of the repository):
--   Prelude: names of the libraries, lists, tests, bytes of texts, and `Option` as code under
--     `assert`, where `none` is an abort.
--   Net/Buffer: net/Buffer.h and net/Buffer.cpp, a vector of bytes with two indices. Below it, Views
--     is the valid buffers, Fifo and Prepend are the two ends, Ints the integers in network order,
--     Search the line ends, ReadFd `readFd`, Shrink `shrink` and `unwrite`, and Refinement the buffer
--     as a queue of bytes.
--   Net/Events: the event masks of net/Channel.cpp, as a record of flags.
--   Net/Poller: net/Channel.h, net/Channel.cpp, and `updateChannel`, `removeChannel` and `update` of
--     net/Epoll.cpp. The calls of `epoll_ctl` and `close` are recorded, newest first. Interest is the
--     kernel's list as these calls leave it, and Dispatch is `handleEvent`.
--   Net/Connection: net/TcpConnection.h and net/TcpConnection.cpp. The state is `World`: a
--     connection, its poller and the effects so far. Handlers is what the loop calls, Stream is where
--     the bytes go (with Drain, for `handleWrite`), Watching is when epoll is asked for writing, Life
--     is opening and closing, Inert is what sending does not touch, Session is any run of sends,
--     writable events and shutdowns, Reuse is a closed connection that is used again, and
--     File is which parts of a file are sent.
--   Net/Timers: net/Timer.h, net/TimerManager.h and net/TimerManager.cpp, with `runAt`, `runEvery` and
--     `runAfter` of net/EventLoop.cpp. Queue is the priority queue, Batch is one
--     `handleRead`, and Descriptor is what the timer's descriptor is set to.
--   Net/LoopPool: `getNextLoop` of net/EventLoopThreadPool.cpp.
--   Net/Loop: `loop` and `quit` of net/EventLoop.cpp, turn by turn, and in Life the making and ending
--     of loops in any threads, and `runInLoop`. Net/LoopThread: net/EventLoopThread.h and
--     net/EventLoopThread.cpp, as steps of the two threads.
--   Net/LoopQueue: the queue of functions of net/EventLoop.cpp and its wake-up descriptor, as steps of
--     the loop's thread and of others. Runs is what the loop's thread does alone.
--   Net/Server: net/TcpServer.h, net/TcpServer.cpp and `accept` of net/SocketOps.cpp. Descriptors is
--     what becomes of the descriptors, and Dispatch a whole call of `acceptHandRead`.
--   Net/Registry: the connections, their pool and `poll` of net/Epoll.h and net/Epoll.cpp.
--   Net/Udp: net/UdpServer.h, net/UdpServer.cpp and `recvfrom` of net/SocketOps.cpp.
--   Net/Sockets: net/SocketOps.cpp, but for `accept` and `recvfrom`, and the constructors of the two
--     servers.
--   Base/Thread: base/Thread.h, base/Thread.cpp and base/CurrentThread.h.
--   Base/Pool: base/ThreadPool.h and base/ThreadPool.cpp.
--   Base/Queue: base/ThreadSafeQueue.hpp. Chain is its list of nodes, and Threads the producers and
--     consumers as steps, with Safety for all schedules and LostWakeup for `notify_one` without the
--     mutex of the condition.
--   Http/Request: http/HttpRequest.h. Http/Parser and Http/ResponseParser: the two sides of
--     http/HttpParser.h and http/HttpParser.cpp, over automata that are parameters. Http/Response:
--     http/HttpResponse.h and http/HttpResponse.cpp. Http/Server: `onMessage` and `onRequest` of
--     http/HttpServer.cpp, on the connections of Net/Connection, with Body and Messages for a body
--     that comes in several reads, Single for a request without one, and Conversation for a connection
--     that is kept alive.
--   Log/Stream: base/LogStream.h and base/LogStream.cpp. Log/Front: base/Logging.h and
--     base/Logging.cpp. Log/File: base/File.h, base/File.cpp and base/LogFile.cpp. Log/Async:
--     base/AsyncLogThread.cpp, with Schedules for any number of threads, and its Life for the log from
--     `start` to its end.
--   Util/Sql: the queries that util/MySQL.cpp writes. Util/Results: the reading of their
--     results. Util/Ops: util/MySQLOps.h and util/MySQLOps.cpp. Util/Config: util/Init.h and
--     util/Init.cpp. Util/Routes: `message` of util/Init.cpp.
--   Each file called Tests applies the theorems to small values.
--
-- The models are of a build that keeps assertions, as CMake's Debug: one that fails aborts the process,
-- and is `none` here. build.sh asks for a Release build by default, in which CMake sets NDEBUG and
-- the tests of assertions are left out; where none fails, both do the same.
-- Answers of the kernel are arguments of the step that asks for them. Numbers are unbounded; where
-- the code subtracts or adds so that it could wrap, the model writes the wrap out. Handlers are run
-- in the thread of their loop, so a call of `runInLoop` is a call at once. Two functions have fuel:
-- the loops of `convert` and `convertHex` (20 and 16 digits, enough for 64 bits), and `%d` and `%zd`
-- (20 digits).
--
-- Not modelled: the automata of http/http11_parser.cpp and http/httpclient_parser.cpp, which are
-- generated from another project's grammar, and util/CJsonObject.cpp, util/CJsonObject.hpp,
-- util/cJSON.h, another project's library: what they give is a parameter. Threads, processes, the
-- clock and the database client are calls of the system, and so are the functions of
-- net/SocketOps.cpp that only pass a call on, and the stack traces of base/Exception.cpp.
pub mod Base
pub mod Prelude
pub mod Net
pub mod Http
pub mod Log
pub mod Util
