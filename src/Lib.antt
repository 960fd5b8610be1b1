-- ===== src/Lib.antt =====
-- mycat-js, a database proxy that speaks the MySQL protocol: a model of its core and what holds of
-- it. Paths are from the repository's root.
--
-- The program. A client's packets come in through frontend/handler/front-read-handler.js, the
-- client logs in through frontend/handler/front-auth-handler.js, SQL in the packets is parsed by
-- sql/parser/mysql-parser.js over sql/parser/sql-lexer.js, some of the objects in it are replaced
-- by values and it becomes text again in sql/sql-object.js, connections to the databases come from
-- the pools in backend/data-source/, and the answers are packets of net/mysql/ that are written
-- into a connection's buffer, which belongs to the pool of buffer/buffer-pool.js, and from there
-- to the socket. What recurs is run by util/scheduler.js.
--
-- Which file models what:
--   Prelude      shared names: native numbers, lists, Boolean tests, calls that throw.
--   Runtime      the parts of Buffer that the source uses. A buffer is the list of its bytes, and a
--                write takes a buffer and an offset and gives both back.
--   Buffer.Helper    buffer/buffer-helper.js, the 24-bit numbers.
--   Buffer.Pool      buffer/buffer-pool.js: allocate, resize, release. A call that waits for memory
--                returns `waits`, and `retries_allocate` and `retries_resize` are what its coroutine
--                does when it wakes. A buffer here is its size and the mark `_allocated`.
--   Net.Message      net/mysql/mysql-message.js, under the names of its methods.
--   Net.Connection   the write buffer and `write` of net/connection.js and
--                frontend/front-connection.js. Whether the socket's `write` and `flush` throw are fields
--                of the connection.
--   Net.Packets      net/mysql/*-packet.js: for each packet its fields, `calc_payload_length`,
--                `write_body` and `write`; `payload` is the protocol's own description of it. The state
--                and the message of an error packet are buffers or strings (Str); how `buffer.set`
--                writes a string is a parameter.
--   Backend.Source   backend/data-source/physical-data-source.js with backend/back-connection.js and
--                backend/mysql/mysql-data-source.js. A connection is its place in a store, which the
--                queues and the borrowers share. `step` runs a part of a call up to where it sleeps
--                or opens a connection, so that a list of events is an interleaving of calls.
--   Backend.DbPool   backend/data-source/physical-db-pool.js: the choice of the write source, and
--                `init`, over sources that are a parameter, as is what the server throws when it saves
--                the index.
--   Frontend.ReadHandler   readUnCompressed of frontend/handler/front-read-handler.js, over a socket
--                that is a parameter.
--   Config           the users, hosts and settings that a login asks for, and config/mycat-privileges.js.
--   Net.Packets.Login    the read of net/mysql/auth-packet.js.
--   Frontend.Auth    frontend/handler/front-auth-handler.js. `invoke` gives the handler with its
--                connection back, and whether it returned the packet, returned nothing or threw.
--   Frontend.Command    frontend/handler/front-cmd-handler.js and front-query-handler.js up to the
--                routing; `handle` is the one behind the other. The decoder of bytes is a parameter.
--   Frontend.Seed    asciiSeed and serverCapabilities of frontend/front-connection.js. The bytes that
--                are drawn are an argument.
--   Util.Password    util/mysql-password.js, over a hash that is a parameter.
--   Sql.Chars, Sql.Scan, Sql.Number, Sql.Lexer   sql/parser/sql-lexer.js: the characters, the scans
--                of blanks, comments and quotes, parseToken, and the class. A text is the list of its
--                UTF-16 code units; `i` and `p` are the source's offsets.
--   Sql.Object       sql/sql-object.js and sql/sql-expr.js: `to_sql` is `toSql` of an object with the
--                objects below it, which are a tree. It gives the text, the object's fields as the
--                call leaves them, and the replaced objects below it, for the object above to collect.
--   Sql.Words, Sql.Tree, Sql.Attempt, Sql.Parser   ParseHelper of sql/parser/mysql-parser.js, what
--                it builds out of the classes of sql/, and how its methods end. The visitors of
--                the context are recorded as the list of their calls, in order.
--   Util.Scheduler   util/scheduler.js: its state with all timers ever made, what each call does to
--                it between two waits, and `Step`, a step of the program or of the runtime.
--   Util.Splitter    split of util/string-splitter.js.
--   Util.Compression   compressMysqlPacket of one buffer, decompressMysqlPacket and splitPackets of
--                util/compress-helper.js; zlib is a parameter (Zlib), with the hypothesis (IsZlib) that
--                it inflates what it deflated.
--   Tests        the theorems at concrete inputs.
--
-- What the model takes of the runtime: a Buffer write takes the low byte of what it writes and
-- throws a RangeError where it does not fit; a buffer that grows is filled with 0; readBigInt-like
-- reads of 64 bits give BigInts. The writes that name no byte order and the bytes of a fresh
-- unsafe buffer are parameters (Platform), with the byte order of the protocol as a hypothesis
-- (IsPlatform). The compression of a packet is a parameter of the connection. A socket is a
-- parameter (Socket), with the hypothesis (IsSocket) that a read of some bytes that arrived gives
-- them. Whether a database answers, the time, and the outcome of opening a connection are
-- arguments of the events. The pattern of a host mask is its test. Which charset indexes have an
-- encoding is a parameter of the login, and the hash of the passwords is one, with the hypothesis
-- (IsHash) that it gives 20 bytes. A Buffer compares with the bytes of a string, and an answer of
-- the login is sent without an error. A timer that is armed may be called at any step, whatever
-- its delay is; a call that ends is a step.
--
-- Bounds and fuel. `token` has the text's length and 2 as fuel: each blank or comment takes a
-- character. readUnCompressed has its limit and 1: each round that goes on adds a full payload to
-- the length that the limit bounds. splitPackets has the buffer's length: each packet takes 4
-- bytes at least. Each loop of the parser has the text's length and 1 or 2: a statement and an
-- expression take a sign, each comment or blank takes a character. The loop of `escape` has the
-- text's length and 1: it moves on by a character at least. All other loops are recursions on the
-- text, the bytes or the queue. Counters of connections are integers; sizes are natural numbers,
-- and the counter of the buffer pool is never below what is taken from it in the states of
-- Buffer.Pool.Accounting.
--
-- Not modelled: readFloat and readDouble; strings are bytes, not decoded; the upper-casing of a
-- token's slice and of schema names beyond ASCII; the text of error messages, logging and
-- tracing; the `unsafe` argument of allocate, which only decides what a new buffer holds; how a write or a
-- flush that throws leaves a connection;
-- the text that an object keeps for its getter `sql`, the objects' parents and their full names;
-- how `cancelAll` and `shutdown` wait for calls at work; readCompressed; the heartbeats, routing and the handlers
-- behind it, how the configuration is loaded, its setters, and start-up.
pub mod Prelude
pub mod Runtime
pub mod Buffer
pub mod Net
pub mod Backend
pub mod Config
pub mod Frontend
pub mod Sql
pub mod Util
pub mod Tests
