-- ===== src/Lib.antt =====
-- Silkoroutine: the client of a Turbo-Geth node over gRPC, and its command line programs.
--
-- The parts of the program, and how they interact. A program of cmd/ calls the database interface of
-- silkoroutine/ethdb/kv/, whose coroutines await the operations of silkoroutine/bindings/kv/. An
-- operation writes one message to a bidirectional stream of gRPC and reads one pair; the callbacks
-- that the reactor keeps are called by gRPC, and hand the result to the thread that runs an asio
-- `io_context`, which resumes the coroutine. The other programs of cmd/ use gRPC themselves.
--
-- Which file models which part:
--   Common          names that the other files share
--   Util            silkoroutine/common/base.hpp, util.hpp, util.cpp
--   Clock           silkoroutine/common/clock_time.cpp
--   Log             silkoroutine/common/log.hpp, log.cpp: the flag of the level
--   Log/Tee         silkoroutine/common/tee.hpp, over stream buffers that are a parameter
--   Log/Output      silkoroutine/common/log.hpp, log.cpp: the filter, the header, the streams
--   Log/Null        silkoroutine/common/log.cpp: `null_stream`
--   Log/Lock        silkoroutine/common/log.hpp: the lock, for threads that log at one time
--   Log/Threads     all of these, for threads that log over a tee
--   Coro/Task       silkoroutine/coro/task.hpp, use_await.hpp: the frames of the coroutines
--   Coro/Direct     a coroutine read directly, as calls and returns
--   Remote          the messages of silkoroutine/bindings/kv/generated/kv.pb.h that the client uses
--   Kv/Reactor      silkoroutine/bindings/kv/grpc_client_reactor.hpp
--   Kv/World        the state of the bindings, and the code that a callback can hold
--   Kv/Operations   silkoroutine/bindings/async_operation.hpp and bindings/kv/async_*.hpp
--   Kv/Exec         the run of a callback, and the events of gRPC and of the `io_context`
--   Kv/Awaitables   silkoroutine/bindings/kv/awaitables.hpp
--   Kv/Exchange     one operation from its start to its end
--   Kv/Unfinished   one operation of which no more is heard
--   Kv/Overlap      two requests on one reactor at the same time
--   Kv/Protocol     every order of the events that a request waits for, as a step relation
--   Kv/Alone        the bindings of one transaction under any events
--   Sentry/Client   silkoroutine/bindings/p2psentry/: grpc_client.hpp, async_set_status.hpp and
--                   awaitables.hpp
--   Ethdb/Session   what the coroutines of a transaction share, and `co_await`
--   Ethdb/TableMap  the `std::map` of silkoroutine/ethdb/kv/remote_transaction.hpp
--   Ethdb/RemoteCursor       silkoroutine/ethdb/kv/remote_cursor.hpp
--   Ethdb/RemoteTransaction  silkoroutine/ethdb/kv/remote_transaction.cpp, remote_database.hpp
--   Ethdb/Database           silkoroutine/ethdb/kv/remote_database.hpp: transactions that are under
--                            way at one time, on one `io_context`
--   Ethdb/Interface          silkoroutine/ethdb/kv/cursor.hpp, transaction.hpp, database.hpp: the
--                            abstract classes, what derives from them, and clients of them
--   Ethdb/Service            a KV service as a parameter, and what the owner of a transaction
--                            sees of it, also where an exchange with it fails
--   Cmd/ChainConfig          the configurations of cmd/sentry_set_status.cpp
--   Cmd/ChainConfig/Async    those of cmd/sentry_set_status_async.cpp, a copy of the others
--   Cmd/SetStatus            the two programs themselves
--   Cmd/KvFlags              the flags of the programs cmd/kv_seek*.cpp
--   Cmd/KvSeek               cmd/kv_seek.cpp
--   Cmd/KvSeekAsync          cmd/kv_seek_async.cpp and cmd/kv_seek_async_asio.cpp
--   Cmd/KvSeekCallback       cmd/kv_seek_async_callback.cpp
--   Cmd/KvSeekCoroutines     cmd/kv_seek_async_coroutines.cpp, also against a KV service
--   Cmd/KvPrograms           these five programs, side by side
--   Tests           runs on concrete inputs
--
-- gRPC and asio are not modelled themselves. What they do is an input of the models: a list of events
-- for each `co_await`, the results of the calls of a stream, or the events of a completion queue. The
-- theorems say which of these they are about; where none is named they hold for all. A callback is
-- a value of the data type `Command`, so that it can be kept by the reactor and run later. Memory is
-- explicit where it matters: the operations, which are freed before the upcall, and the cursors, to
-- which the map of a transaction points. Use of freed memory, and a call that gRPC forbids, such as
-- the second one of a sentry client, is an outcome of its own. Loops are over lists. The one
-- definition with a bound is `steps` of Coro/Task, which counts the steps of a machine: its theorems
-- give a count that is enough.
--
-- Bytes and characters are numbers, and strings are lists of them. Numbers that a server sends, and
-- sizes, are not bounded, since the code does no arithmetic on them; the clock's count wraps.
--
-- Not modelled: the code that protoc and its gRPC plugin generate, but for the fields and codes that
-- the program uses; the build files; what the programs print, but for the lines of the four kv_seek
-- programs that use gRPC themselves, where they do not fail; the allocator of a handler.
-- The coroutines of the database are awaitables of asio, which Ethdb/Session reads directly; the
-- task of coro/task.hpp is the repository's own, and no other file uses it yet. A stream buffer of
-- the log, and the formatted time, are parameters of Log/Tee and Log/Output; the KV service is one of
-- Ethdb/Service.
pub mod Clock
pub mod Cmd
pub mod Common
pub mod Coro
pub mod Ethdb
pub mod Kv
pub mod Log
pub mod Remote
pub mod Sentry
pub mod Tests
pub mod Util
