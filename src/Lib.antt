-- ===== src/Lib.antt =====
-- Verification library for packetbeat, a sniffer that follows TCP connections, parses the application
-- protocols in them, correlates requests with responses and publishes one event for each pair.
--
-- A captured packet goes through `DecodePacketData` (protos/tcp/tcp.go) to `FollowTcp`, which finds or
-- creates the stream of its tuple and checks the sequence number, and then to `Parse` of the stream's
-- protocol (an interface in protos/protos.go), which keeps its own private data between packets. A
-- protocol hands complete messages to its transactions, which publish events. Events may go through
-- the filters (filters_runner.go).
--
-- Files, with what they model:
-- - Base and its children: Boolean tests, lists over the native numbers, Go's maps as association lists
--   (a key that is written stays unique), byte strings, `strings.Index`,
--   texts, white space and numbers of the standard library, slices with their array, and signed integers.
-- - Protos: protos/protos.go, packets, protocol identifiers, the interface of a plugin, the registry.
--   A plugin's call gets the state of the world, and returns it with private data, or panics.
-- - Tcp: protos/tcp/tcp.go, `FollowTcp`, `AddPacket`, `GapInStream`, `Expire` and the timer's function,
--   over a store of stream objects (`TcpState.objects`), since timers and two keys share a stream.
--   Tcp/Ports: `buildPortsMap` and `BpfFilter`. Tcp/Decoder: `DecodePacketData` from the layers that
--   gopacket decoded. Tcp/Seq, Tcp/Objects, Tcp/Table, Tcp/Order, Tcp/Delivery, Tcp/Ports/Correct: proofs.
-- - Redis: protos/redis/redis.go, `readLine`, `redisMessageParser`, `Parse`; Redis/Commands: the commands;
--   Redis/Transactions: `handleRedis` and all that it calls, with `Init`. Redis/Lines, Redis/Resume,
--   Redis/Termination, Redis/Timestamps, Redis/Transactions/Laws: proofs.
-- - Mysql: protos/mysql/mysql.go, `mysqlMessageParser`, by the four states; Mysql/Message: its data;
--   Mysql/Integers: `read_linteger`, `read_lstring`, `read_length`; Mysql/Stream: the loop of `Parse`;
--   Mysql/Response: `parseMysqlResponse`; Mysql/State: `Mysql`, its options and transactions;
--   Mysql/Transactions: `handleMysql` and what it calls, and `Parse`. Mysql/Decoding, Mysql/Framing,
--   Mysql/Termination, Mysql/Returns, Mysql/Plugin, Mysql/Truncation, Mysql/Endless, Mysql/Transactions/Laws: proofs.
-- - Pgsql: protos/pgsql/pgsql.go, `pgsqlMessageParser`, by its two states and the types of packets;
--   Pgsql/Message: its data; Pgsql/Reading: `pgsqlFieldsParser`, `pgsqlRowsParser`, `pgsqlErrorParser`,
--   with the panics of their slice expressions; Pgsql/Stream: the loop of `Parse`, and `GapInStream`;
--   Pgsql/State: `Pgsql`, its options and transactions, `pgsqlQueryParser`, `getQueryMethod`;
--   Pgsql/Transactions: `handlePgsql` and what it calls; Pgsql/Plugin: the private data. Pgsql/Lists,
--   Pgsql/Queues, Pgsql/Refinement, Pgsql/Pipeline (the list of transactions of a connection), Pgsql/Progress,
--   Pgsql/Termination, Pgsql/Streaming, Pgsql/Endless, Pgsql/Framing, Pgsql/Loop, Pgsql/Segments (the parser and
--   `Parse`), Pgsql/Spaces, Pgsql/Queries (the text of a query): proofs.
-- - Http: protos/http/http.go, `messageParser`, by its states; Http/Message: its data; Http/Header:
--   `parseHeader`, versions and status lines; Http/Body: bodies and chunks; Http/Hiding: `hideHeaders`;
--   Http/State: `Http`, its options and transactions; Http/Parameters: `extractParameters`, cookies and
--   `cutMessageBody`; Http/Transactions: `handleHttp` and what it calls; Http/Stream: `Parse`,
--   `ReceivedFin` and the private data. Http/Progress, Http/Termination, Http/Secrets, Http/Cutting,
--   Http/Correlation: proofs.
-- - Thrift: protos/thrift/thrift.go, `readMessageBegin`, `readField`, `messageParser`; Thrift/Message: its
--   data; Thrift/Reading: the readers of simple values; Thrift/Values: `funcReadersByType`, collections,
--   structs and `formatStruct`; Thrift/Idl: protos/thrift/thrift_idl.go; Thrift/State: `Thrift`, its options
--   and transactions; Thrift/Transactions: `handleThrift` and what it calls, the timers and
--   `publishTransactions`; Thrift/Stream: `Parse`, `ReceivedFin` and the private data. Thrift/Encoding: the
--   values of the protocol and their bytes, against which the readers are proved. Thrift/Bounds,
--   Thrift/Progress, Thrift/Termination, Thrift/Streaming, Thrift/Steps, Thrift/RoundTrip, Thrift/Calls,
--   Thrift/Messages, Thrift/Prefixes, Thrift/Append, Thrift/Headers, Thrift/Rounds, Thrift/Loop,
--   Thrift/Resume, Thrift/CutStructs (the parser and `Parse`),
--   Thrift/Correlation, Thrift/Timers, Thrift/Expiry (transactions), Thrift/Names (the IDL): proofs.
-- - Transaction: end points and response time, which the protocols repeat.
-- - Filters: filters_runner.go; Filters/Runner and Filters/Loading: proofs.
-- - Tests: runs on small inputs, and the theorems at inputs that meet their hypotheses.
--
-- Bounds and fuel: numbers are native; sequence numbers, ports and times keep their wrap-around at
-- 2 ^ 32 and 2 ^ 16 written out. A time is a number of nanoseconds. The loops of the parsers run on
-- fuel: one round for each byte and one more for Redis, HTTP and Thrift, two rounds for each byte and two more for
-- MySQL and PostgreSQL, and one round for each byte and one more for a loop of `Parse`, which drops bytes with each
-- message. A result of `none`, `stuck`, `endless`, `hangs`, `spent` or `hung` says that the rounds ran
-- out. Only the rows of a MySQL response and a start-up message of PostgreSQL of the length 0 can do so,
-- where the source does not end either: a round for each byte is enough for a row whose cells are
-- complete.
--
-- A slice of PostgreSQL's or HTTP's data has the bytes behind it in its array (`Buffer.spare`), which a slice
-- expression with an upper bound may reach. `strings.TrimSpace` and
-- `bytes.Fields` know the white space of Unicode in UTF-8. `strings.ToUpper` and `strings.ToLower` change
-- the ASCII letters and the runes whose other case is in ASCII; another rune stays, so their results are
-- those of Go where they are compared with ASCII texts, while a text that is published keeps the case of
-- other runes. The lengths of HTTP bodies are an `int` of 64 bits. An allocation never fails.
--
-- The readers of Thrift's values call each other and take fuel, one more than their data are long, since a
-- value inside another is shorter. The options for sizes are natural numbers, the queue of transactions has
-- no bound at which a send waits, and the timers are a list of armed numbers, of which any may fire.
--
-- Parameters: the hash of a tuple, the CSV dump, and for PostgreSQL and Thrift `Bytes_Ntohs`, `Bytes_Ntohl`,
-- `Bytes_Ntohll` and `ReadString` with what is documented of them (libbeat), net/url, go-thrift's parser of
-- IDL files, `utf8.ValidString`, `strconv.Quote` and `strconv.FormatFloat`, the processes of a connection (procs/procs.go reads them
-- from the system), the plugins, the filters, and the order in which Go visits a map.
-- Not modelled: capture devices, process lookup, the reading
-- of configuration files, logging, and the unsynchronised access of the timers' goroutines: a timer
-- fires between two packets.
pub mod Base
pub mod Protos
pub mod Tcp
pub mod Filters
pub mod Transaction
pub mod Redis
pub mod Mysql
pub mod Pgsql
pub mod Http
pub mod Thrift
pub mod Tests
