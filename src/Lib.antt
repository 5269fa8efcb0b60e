-- ===== src/Lib.antt =====
-- A server over epoll: connections carry frames, a pool of threads answers them, and threads of
-- their own send the answers and close idle connections.
--
-- The parts and their files (paths from the root of the repository):
--   Buffer             include/tiny_buffer.h, net/tiny_buffer.cxx: the byte buffer
--   Codec              include/tiny_codec.h, codec/tiny_codec.cxx: encode and decode of a report
--   Poller             include/tiny_poller.h, net/tiny_poller.cxx: EpollPoller
--   Channel            include/tiny_channel.h, net/tiny_channel.cxx: a registered descriptor;
--                      Teardown has the constructor and the destructor of EpollPoller
--   TcpConnection      include/tiny_tcpconnection.h, net/tiny_tcpconnection.cxx: init, reset and
--                      recycle; Input has tcpHandleRead, Output has isend, send, tcpHandleWrite
--   TcpConnectionPool  include/tiny_tcpconnectionpool.h, net/tiny_tcpconnectionpool.cxx, and
--                      TcpConnection::close
--   RecyThread         include/tiny_recythread.h, net/tiny_recythread.cxx: the queue of connections
--                      to be closed; Worker has the thread function
--   SendThread         include/tiny_sendthread.h, net/tiny_sendthread.cxx: the queue of messages and
--                      the thread function
--   App                app/tiny_server.cxx: the read callback and the business task; Serve
--                      joins it to tcpHandleRead, and Events is one call of that after another
--   SafeQueue          include/tiny_safequeue.h: the queue of tasks between threads
--   EventBase          net/tiny_eventbase.cxx: runAt, cancel, handleTimeouts, repeatableTimeout
--   EventLoop          net/tiny_eventbase.cxx, include/tiny_eventbase.h: the loop around the timers,
--                      with refreshNearestTimeout, the task queue and the pipe that wakes it up
--   ThreadPool         include/tiny_threadpool.h: the threads that run the tasks
--   TcpServer          net/tiny_tcpserver.cxx: init of the listening socket, and handleAccept
--   Signal             include/tiny_signal.h, signal/tiny_signal.cxx: handlers for signals
--   IpAddr             include/tiny_ipaddr.h, net/tiny_ipaddr.cxx: addresses with a port
--   Client             client/tiny_client.cxx: the request, what is printed of a reply, and the loop;
--                      Conversation has the client and the server together
--   System             app/tiny_server.cxx: the threads of the server on one state; Loop, Passes and
--                      Sweeps have the parts of each, Run their sequences, Boot the set-up in main;
--                      Reader and Writer have what reading and sending leave of a connection, and
--                      the other children the invariants of these sequences
--   Util               include/tiny_util.h, util/tiny_util.cxx: the clock
--   Prelude            lemmas on lists and numbers, integers, and results with errors
--   Samples            values for the tests; a module Tests of a part has its tests
--
-- How they interact: the poller's round calls a channel; its read callback is tcpHandleRead, which
-- fills the receive buffer and calls the read callback of App; that decodes reports and gives them
-- to the thread pool. The task answers into the queue of SendThread, which encodes and sends. A
-- connection whose peer left goes to the queue of RecyThread, whose sweep closes it into the pool.
-- The listening channel calls handleAccept of TcpServer, which takes connections out of that pool. The
-- loop of EventLoop runs the poller's round, then the timers of EventBase; a task that another
-- thread adds comes through the SafeQueue of the loop, and a byte in its pipe.
--
-- State is passed explicitly: each operation takes the objects that it changes and returns them.
-- Connections and channels are known by their addresses, natural numbers; the connections of a pool
-- are a function from addresses. A method that holds its lock throughout is one step, so that
-- interleavings are sequences of such steps (TcpConnectionPool.Owned.Reach). size_t is a natural
-- number with its wrap-around at 2^64 written out (Prelude.Outcome.add64, sub64). Undefined
-- behaviour is an error value: a copy outside a block, a read of unwritten memory, a null pointer,
-- a failed allocation.
--
-- What the kernel returns is an argument: the results of ::read and ::write are scripts
-- (TcpConnection.Input.Reads, TcpConnection.Output.WriteResult), those of epoll_wait are the slots
-- that it fills, and epoll_ctl is a test of a call. The clock is a function of the reading. The loop
-- of isend is a recursion on its script, and reports that it still runs where the script ends. The
-- loop of the read callback has a bound on its rounds: each round takes at least one byte, so more
-- rounds than bytes are enough. So has the loop of handleTimeouts, where tasks may enter timers; with
-- tasks that do not, one round more than there are timers is enough.
--
-- System puts these together: one record holds the pool of connections, the poller, the queues, and
-- where a pass of SendThread and a sweep of RecyThread stand. An action is one call of handleAccept,
-- one event of a connection, one task, or the part of a pass or of a sweep for one entry, and a run
-- is any sequence of actions; one that cannot happen now (a lock that another thread holds, an empty
-- queue) gives none. The tasks are a list of which any one may run first, which leaves the order of
-- the thread pool open. That a pass compares the sequence number and sends with nothing in between is
-- an assumption of this model: the code takes no lock for the two. An event of a connection is
-- one action too, although the recycling thread may run while a connection puts itself into its queue.
-- A history beside the state says from whom reports were decoded and for whom `send` took an answer,
-- computed from what `decode` and `send` return (System.Decoded, receipt in System.Passes), and not
-- from the lists of tasks and messages.
--
-- A thread of ThreadPool is where its loop stands, and ThreadPool.Steps lets any thread run its next
-- part, so that a run is any interleaving of these with enqueue and stop. The callback of the pipe has
-- a bound on its rounds too: one more than the queue has tasks is enough where tasks add none. The
-- loop of the event base goes through a list of rounds, of which each says what the poller does.
--
-- Not modelled: the futures of tasks (App keeps the list of messages that it gave to the thread
-- pool), the lines of a user that the client reads, memory that is only freed, sleeps, text that is
-- printed, and the outer classes where they only pass a call on.
pub mod App
pub mod Buffer
pub mod Channel
pub mod Client
pub mod Codec
pub mod EventBase
pub mod EventLoop
pub mod IpAddr
pub mod Poller
pub mod Prelude
pub mod RecyThread
pub mod SafeQueue
pub mod Samples
pub mod SendThread
pub mod Signal
pub mod System
pub mod TcpConnection
pub mod TcpConnectionPool
pub mod TcpServer
pub mod ThreadPool
pub mod Util
