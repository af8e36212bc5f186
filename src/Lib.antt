-- ===== src/Lib.antt =====
-- ClearMoon, a C++ network library of reactors with an HTTP server on top of it.
--
-- The parts that are modelled, bottom up, with the file of each:
--   Prelude, OrdMap, StdString: lists of bytes over the native numbers, `std::map` as a sorted
--     association list, and what the code uses of `std::string`, `std::stoul` and `snprintf`.
--   Buffer: net/Buffer.h, net/Buffer.cc and net/Endian.h. A vector of bytes with a read index and a
--     write index. Contents has the invariant of the indices and what each operation does to the
--     queue of bytes, Descriptor reading and writing a descriptor, Queue the queue as a
--     specification, Search the finding of a line end, Numbers the numbers in network order.
--   Http/Request, Http/Response: net/Http/HttpRequest.h and net/Http/HttpResponse.h.
--   Http/Context: net/Http/HttpContext.h and net/Http/HttpContext.cc. The parser is written over any
--     buffer that offers what it uses (Http/Reader), which the buffer above and plain text both do.
--   Http/Server: net/Http/HttpServer.h and net/Http/HttpServer.cc, over the parser, a buffer and the
--     user's callback.
--   Reactor: net/Poller/Epoller.cc, net/Poller/Poller.cc (Epoller) and net/Channel.h, net/Channel.cc
--     (Channel). Epoller/Interest is the kernel's list of descriptors, for the statements only.
--   Tcp: net/TcpConnection.h and net/TcpConnection.cc. Connection has the state, timers and closing,
--     Transfer the bytes and files, Retransmit the messages that are sent again. It stands on Buffer and
--     Reactor; the loop is its poller and a list of timers. Functions that another thread asks for are
--     a list of tasks, callbacks and what the kernel took a list of effects.
--   Timers: net/Timestamp.h (Timestamp), net/Timer.h, net/Timer.cc, net/TimerId.h, net/TimerQueue.h and
--     net/TimerQueue.cc (TimerQueue). Timers are objects on a heap, so a timer that is read or deleted
--     behind its `delete` is `none`; a callback is a list of what it does with the queue.
--   BlockQueue: base/BlockQueue.h and base/BlockQueue.cc. A function is what a thread does under the
--     lock; Wakeups has the threads as a relation of runs, in any order.
--   EventLoop: net/EventLoop.h and net/EventLoop.cc. System has the thread of the loop as steps, and what
--     other threads do between them; Heard, Wakes, Ends and Quit are about wake-ups and the end of the
--     loop, Clock passes calls on to the poller and the timers.
--   LoopThread: net/EventLoopThread.h and net/EventLoopThread.cc, over EventLoop/System. Owner and thread
--     are steps in any order; what is done under the lock is one.
--   LoopPool: net/EventLoopThreadPool.h and net/EventLoopThreadPool.cc. The loops of a server in turn.
--   Endpoints: net/Connector.h and net/Connector.cc (Connector), over Reactor/Channel and a list of
--     timers; net/Acceptor.h and net/Acceptor.cc (Acceptor); net/TcpServer.h and net/TcpServer.cc
--     (TcpServer), over Acceptor and LoopPool; net/TcpClient.h and net/TcpClient.cc (TcpClient), over
--     Connector.
--   AsyncLogger: net/Log/AsyncLogger.h and net/Log/AsyncLogger.cc, over Buffer; LogFile is its `write`.
--   Latch: base/CountDownLatch.h and base/CountDownLatch.cc.
--   Address: net/InetAddress.h and net/InetAddress.cc.
--
-- Memory is a list of bytes below 256, `size_t` is a number with its wrap-around at 2 ^ 64, and a
-- failed assert, an exception or a copy outside the vector is `none` or `aborts`: the build does not
-- define NDEBUG, so asserts are live. What the kernel returns from `readv`, `write` and `stat` is an
-- argument. The parser's loop runs on a bound, the readable bytes and two more rounds: a round takes a
-- line off the buffer or moves the state on, so the bound is never met. `std::stoul` accepts what the C
-- locale accepts.
--
-- Not modelled: the thread pool, whose queue is; sockets, threads and locks as such, which are calls of the
-- system; the formatting of log lines, which is a macro around a stream; and the example programs. Data races are outside of the model: a step of a
-- thread is never in the middle of another's. A callback of a connection is an effect, and what it does a
-- later operation, but for two that the code lets run in the middle of a function that goes on behind
-- them: the one for a completed write in `onRetransmitTimeout`, which is an argument, and the close
-- callback of a client in its `disconnect`.
pub mod Prelude
pub mod OrdMap
pub mod Buffer
pub mod StdString
pub mod Http
pub mod Reactor
pub mod Tcp
pub mod Timers
pub mod BlockQueue
pub mod LoopPool
pub mod EventLoop
pub mod LoopThread
pub mod Endpoints
pub mod AsyncLogger
pub mod Latch
pub mod Address
