-- ===== src/Lib.antt =====
-- A verification library for dk-server-foundation, a TypeScript foundation for server programs.
--
-- The parts modelled and their files:
-- Srpc/ByteStream: src/srpc/SrpcByteStream.ts, byte streams multiplexed over one connection of the
--   streaming RPC. ByteStream.antt has the state (`Conn`: the maps of `IByteStreamInfo`, the objects
--   of the class in a store, the frames sent) and the construction and destruction of streams;
--   Events.antt has what the remote side, Node, timers and a lost connection call. Untouched and
--   Pending are about the buffers of receivers that do not exist yet, Receiving, Buffering and
--   Transparency about what a receiver is handed, Lifecycle about the end of a stream.
-- Srpc/Messages and Srpc/Server: src/srpc/types.ts and src/srpc/SrpcServer.ts. Server.antt has the
--   state, the stream objects in a store; Lifecycle.antt a stream from the connection to its end,
--   split where a hook is awaited; Requests.antt messages, the waiting room and invocations; Run.antt
--   what sockets, hooks, handlers and timers do to a server, with the proofs under it.
-- Srpc/Client: src/srpc/SrpcClient.ts. Client.antt has the state; Connection.antt the connections
--   and their timers, Requests.antt messages and invocations, and Run.antt the events, with the
--   proofs under it.
-- Srpc/Auth: the query of an upgrade request, which SrpcClient.ts signs (`generateWsUrl`) and
--   SrpcServer.ts checks (`verifyClient`).
-- Mesh/Registry: src/services/mesh-client/mesh-client-redis-registry.ts, the registry in Redis of
--   the clients of all nodes. Registry.antt has the Redis state and the Lua scripts, each one step;
--   Client.antt the methods of the class over them. Consistency, Cleanup, Ownership, Listing
--   and Reading hold the proofs.
-- Migration: src/database/migration/create. SchemaModel.antt is schema-model.ts; Comparator.antt and
--   Renames, Enums and Tables under it are comparator.ts, from columns to whole schemas. Keys,
--   UnchangedColumns and Unchanged hold the proofs. Ddl and Mysql, Postgres and Schemas under it are
--   ddl-generator.ts: a statement is kept as what it says, and `render` gives its text by a grammar.
--   Ddl/Columns is about what the statements make of a table; Schemas/Kinds, Parts, Created,
--   Recreated, Dropped and Order are about the statements of a whole migration.
-- DevConsole: src/devconsole/devconsole.store.ts, the ring buffer, with its slots (Shape) and its
--   specification (Recent), and the store (Entries, Store), whose mutex entries are objects shared by
--   the ring buffer and the map of active mutexes (Store/Mutexes, Store/Ending).
-- Redis: Locks.antt has the lock scripts that src/services/leader.ts and src/helpers/redis/mutex.ts
--   share. Leader.antt is the leader election of leader.ts, each method split where it awaits Redis;
--   Leader/Runs.antt are the interleavings of several services, and the proof is in Safety, Attempts,
--   Leadership and Exclusion. Mutex.antt has the attempts of mutex.ts to take a mutex,
--   and Mutex/Acquisition how they end.
-- Common: shared names, lists, maps and integers.
--
-- The parts meet in few places: each stream of the SRPC server has the byte streams of its
-- connection, which the messages of the client act on; the registry serves the mesh, whose leader
-- election runs over the lock scripts; the comparator's differences go to the DDL generator. The
-- mesh service is not modelled.
--
-- Loops recur on a list, but for the attempts to take a mutex: their fuel is the number of
-- attempts asked for, or one, which is shown to be enough. Numbers are natural numbers without a
-- bound, since the source counts in double precision far below its limit; differences of times are
-- integers; 2 MiB and 256 KiB are as in the source. Taken as parameters: JavaScript's text
-- functions and sort (`Builtins`), the prompt for renames, the type of the registry's metadata
-- with JSON and cjson on it (`Codec`), the socket's buffered amount at each read, the clock, the
-- generator of ids, Redis's answers to the mutex, and the HMAC. Other JSON texts are kept as the
-- values that they stand for.
-- Left out: logging, the moment when a key of the registry or the leader's lock expires (the
-- seconds that EXPIRE sets are kept), metadata too deeply nested for cjson, Node's own stream
-- buffering, and the components that PROJECT.json lists as not modelled, which mostly pass input
-- and output to libraries.
pub mod Common
pub mod DevConsole
pub mod Mesh
pub mod Migration
pub mod Redis
pub mod Srpc
