-- ===== src/Lib.antt =====
-- Low-latency C++ components: a memory pool, a lock-free queue, a logger that writes from a thread of
-- its own, a TCP socket with fixed buffers, the functions that create and configure sockets, an epoll
-- server, and the start of a thread on a core; and the programs that demonstrate them.
--
-- How the parts interact. `MemPool` and `LFQueue` stand alone. `TCPSocket` gets its descriptor from
-- `createSocket` and sorts errors by `wouldBlock`, both of the socket utilities. `TCPServer` owns a
-- listener and the accepted `TCPSocket`s. `Logger` sends its elements through an `LFQueue` to a thread of
-- `createAndStartThread`, and takes messages from the network parts.
--
-- Which file models which part:
--   include/mem_pool.hpp        MemPool.antt. `store_`, `next_free_index_` and `num_free_` are
--     fields of the record; the address of a slot is base + index * stride; the operations
--     `updateNextFreeIndex`, `allocate`, `deallocate`, constructor and destructor have the same
--     names in snake case. A failed assertion and a use of an object outside its lifetime are the
--     result `fault`. The proofs are in MemPool/Valid (the invariant), Search, Allocate, FindSlot,
--     Deallocate, Run (sequences of calls), Objects (what lives where) and Refines (the pool as a
--     heap).
--   include/lf_queue.hpp        LfQueue.antt, the six operations; LfQueue/Fifo.antt, each side's
--     protocol run alone, with sequences of calls in Fifo/Calls and the abstract view in
--     Fifo/Histories; LfQueue/Spsc.antt, both threads interleaved at every access to shared
--     memory, with its proofs in Spsc/Invariant, Steps, Safety, Progress and Client.
--   include/tcp_socket.hpp, src/tcp_socket.cpp      TcpSocket.antt; proofs in TcpSocket/Buffer,
--     Send, SendLoop, Flush, Receive, Replies (each reply of `recvmsg`), Turn and Stream. What
--     `recvmsg` and `send` return is a parameter, and the callback too.
--   src/socket_utils.cpp        SocketUtils.antt, a trace of system calls and an arbitrary
--     kernel; proofs in SocketUtils/Lookup, NoLeak, Requirements, Configured, Failures and Answer.
--     `wouldBlock` is in Kernel.antt.
--   include/tcp_server.hpp, src/tcp_server.cpp      TcpServer.antt and, for `poll`,
--     TcpServer/Polling.antt, over SocketHeap.antt: a pointer is an address in a heap of sockets,
--     and its use after the deletion is `fault`; `epoll_wait`, `accept` and the allocator are
--     parameters. Proofs in TcpServer/Lists, Valid (who owns what), Delete, Destroy, Accept,
--     Events, Poll, Serve, Effect, Rounds (a round, socket by socket), Listen, Marked and Broken
--     (what becomes of a broken connection), Lifetime (any sequence of calls), Clients and
--     Attended (the sockets that are read).
--   include/logger.hpp, src/logger.cpp      Logger.antt, the formats and the queue elements; the
--     language of the formats in Logger/Language, with proofs in Logger/Format and Logger/Arity;
--     Logger/Threads.antt, the owner (log, then the destructor) and `flushQueue` over the queue,
--     with proofs in Threads/Steps, Closed, Progress and Closes; Logger/Messages.antt, the calls
--     of `log` in the network parts.
--   include/thread_utils.hpp        ThreadUtils.antt, the two threads of `createAndStartThread`;
--     proofs in ThreadUtils/Handshake and Starts.
--   include/time_utils.hpp        TimeUtils.antt; proofs in TimeUtils/Elapsed (the clocks) and
--     TimeUtils/Stamp (the text).
--   src/socket_demo.cpp        SocketDemo.antt, the callbacks; SocketDemo/Reply.antt, what the
--     server answers; SocketDemo/Main.antt, `main`, with proofs in Main/Clients, Connected and
--     Ends.
--   src/lf_queue_demo.cpp       QueueDemo.antt, main and its consumer thread over ThreadUtils
--     and LfQueue/Spsc; proofs in QueueDemo/Invariant, MainSteps, Steps, Ends, Gain and Progress.
--   src/memory_pool_demo.cpp    MemPoolDemo.antt, `main` as a chain of calls that may fault.
--   src/logger_demo.cpp         LoggerDemo.antt, the calls of `log`; LoggerDemo/Written.antt,
--     the file.
--   src/thread_demo.cpp         ThreadDemo.antt, main and its three threads; proofs in
--     ThreadDemo/Invariant, Threads, Calls, MainSteps, Ends, Rounds, Gain and Progress.
--   Base.antt and Base/ hold the shared tests on numbers, the lemmas on lists and on arithmetic
--     modulo the size, the result type of code that may fault, and schedules of two threads.
--
-- Bounds and fuel. In the pool and the queue `size_t` is a number below 2 ^ 64, and its additions and
-- subtractions wrap. The counts of bytes of a socket are plain numbers: they stay within its 64 KiB
-- buffers, where nothing wraps, as long as the kernel takes and gives no more than it is offered. A count of
-- nanoseconds that is no `int64_t` is undefined behaviour: the result `fault` of the clocks, and
-- `none` of a socket's `sendAndRecv`, which is `fault` in the server. The
-- search for a free slot makes at most as many rounds as there are slots; the search comes back to its
-- start by then. Each round of the sending loop sends at least one byte, so one more round than there
-- are bytes is enough. The number of orders and the size of the queue in the demonstration of the
-- queue, 5 and 10, are arbitrary in the model.
--
-- Assertions. The model is of a build with assertions: a failed one is `fault`. A build with NDEBUG
-- drops them; then `log` with too few arguments queues the percent sign and goes on.
--
-- Threads. They are a step function and a schedule, a list that says which thread moves. The
-- theorems about what can go wrong hold for every schedule; those about progress take the threads
-- in turn, with a bound on the number of rounds.
--
-- Not modelled: the memory orders of the atomics (they are the default, sequentially consistent), what
-- moves the clocks, and what a stream writes for a number. What the demonstrations print is kept only where it
-- is data of theirs: the orders, the pointers, and the ids of the threads.
pub mod Base
pub mod MemPool
pub mod LfQueue
pub mod Kernel
pub mod TimeUtils
pub mod ThreadUtils
pub mod TcpSocket
pub mod SocketUtils
pub mod Logger
pub mod SocketHeap
pub mod SocketDemo
pub mod QueueDemo
pub mod MemPoolDemo
pub mod LoggerDemo
pub mod ThreadDemo
pub mod TcpServer
