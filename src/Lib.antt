-- ===== src/Lib.antt =====
-- Verification of sdpf, a library of RPC over TCP on the libuv event loop.
--
-- A client's `RpcChannel` packs a request into an `IOBuf` and hands it to its `TcpConnection`, which
-- queues it in the loop of an `IOScheduler`; the server's connection hands the received bytes to its
-- channel, which takes the messages out of them, finds the service, and answers. The server's channels
-- are kept by an `RpcServer`, which gives them to its `TcpServer` for the connections that come in.
-- `Dispatcher` packs the meta data and the messages with msgpack. `IOTimer` and `IOSignal` run in
-- the same loop; `ThreadPool` and `BlockingQueue` stand apart.
--
-- Which file models what:
--   Prelude         numbers, lists, options, integers, association lists and finite sets
--   IoBuf           src/IOBuf.cpp: `IOBufImp`, method by method
--   IoScheduler     src/IOScheduler.cpp: `IOSchedulerImp`; Wakeup has the steps of its threads,
--                   Hosted what the objects that live in a scheduler share
--   Dispatcher      src/Dispatcher.cpp: `serialize_meta` and `deserialize_meta`; Messages
--                   is the code of `Msg_Echo` and `Msg_Notify`
--   Frame           src/RpcChannel.cpp: `parse`, `on_recv` and what `send_packet` builds
--   RpcController   src/RpcController.cpp: `RpcControllerImp`; Handshake has the steps of the thread
--                   that waits and of the loop that wakes it
--   RpcChannel      src/RpcChannel.cpp: `RpcChannelImp`; Setup is `start`, `stop` and `on_connect`, Client
--                   is `call_method`, `process_response` and `on_close`, Server is
--                   `process_request`, `done`, `find_svc` and `notify`,
--                   Processing is `on_recv` with all that a message does
--                   Owners is who holds a channel and its connection, by `std::shared_ptr`
--   MsgService      test/MsgService.cpp: the service of the repository's own client and server
--   TcpConnection   src/TcpConnection.cpp: `TcpConnectionImp`; Calls has the methods for any thread
--   Link            a connection with a channel behind it: `on_alloc` and `on_read` of
--                   src/TcpConnection.cpp with `on_recv` of src/RpcChannel.cpp; Calling is a call
--                   over two of them, Notifying a notification, Pipeline the messages
--                   that one sends and the other reads
--   TcpServer       src/TcpServer.cpp: `TcpServerImp`, with the connections it makes
--   RpcServer       src/RpcServer.cpp: `RpcServerImp`, with the states of its channels; Channels
--                   has what happens to it, Joined has it
--                   together with its `TcpServer` where a connection comes in
--   IoTimer         src/IOTimer.cpp: `IOTimerImp`
--   IoSignal        src/IOSignal.cpp: `IOSignalImp`
--   Logger          src/logger.c: `log_init` and `log_uninit`
--   BlockingQueue   include/BlockingQueue.hpp
--   ThreadPool      src/ThreadPool.cpp: `ThreadPoolImp`, its workers as steps
-- The other modules are named for what they prove. A method of the source has the same name here, in
-- snake_case; it takes the object and returns it changed beside its status. Status codes are
-- integers, bytes are numbers that are only moved, and `none` is undefined behaviour. `size_t` and
-- `uint16_t` wrap where the source lets them. Addresses of controllers, services and messages are
-- numbers, and a map is an association list.
--
-- What is not in the repository is a parameter: msgpack is the record `Dispatcher.MsgPack`, with the
-- law that an unpacked array is the one that was packed, and Dispatcher.Sample is an instance of it;
-- libuv's and zlog's answers are arguments; the user's services, messages and callbacks are fields of
-- `RpcChannel.Env`, or the `client` of a connection. In Link a read stores at most as many bytes as
-- libuv was given room for, and is an error where it was given none, as libuv says.
--
-- Fuel: `Frame.on_recv` takes as many rounds as it has fuel, and more than the readable bytes is
-- enough, since a round consumes a byte at least; Link gives it that much.
-- `ThreadPool.join` takes the steps of a worker, and
-- two are enough once the queue has been told to exit.
--
-- Not modelled: the methods of the wrapper classes that only forward to their `Imp`; `log_get_tid`, a
-- system call; the test programs. A channel's connection is its flag `conn` and what it is told,
-- and a server's TCP part is what it returns, where they are not joined in Link and
-- RpcServer.Joined. The mutexes are not part of a state, but in RpcController and
-- IoScheduler.Wakeup: what is done under one is one step. The memory of controllers, messages and
-- services is not followed.
pub mod Prelude
pub mod IoBuf
pub mod IoScheduler
pub mod Dispatcher
pub mod Frame
pub mod Link
pub mod Logger
pub mod RpcController
pub mod RpcChannel
pub mod MsgService
pub mod TcpConnection
pub mod IoTimer
pub mod IoSignal
pub mod TcpServer
pub mod RpcServer
pub mod BlockingQueue
pub mod ThreadPool
