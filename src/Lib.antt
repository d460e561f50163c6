-- ===== src/Lib.antt =====
-- WireTAP Server: capture of CAN, Modbus and serial frames, and their way to durable storage. A
-- capture hands each frame to an archive, whose worker sends batches to a gateway and keeps frames
-- on disk while the gateway is away. This library models the frames, the archive, the disk cache,
-- the link to the gateway, the protocol's records, the sessions of devices that send frames to the
-- server, the gateway's ingest with its databases, the GVRET listener, and the ranges of addresses
-- that may use it.
--
-- Prelude: the libraries' names, Boolean tests on the native numbers, lists measured by them
-- (Prelude/Tests, Prelude/Lists), and the signed timestamps (Prelude/Int).
--
-- Model is crates/wiretap-model/src/sample.rs: Sample with its accessors, `Sample::ts_us` being
-- `timestamp`, and a field named `data` being `payload`. Strings are lists of bytes.
--
-- Archive is crates/wiretap-server/src/archive.rs. Interface has the traits BatchSink and
-- FrameCache and the bounded channel as records of operations, each with a record of laws: what the
-- traits' comments and tokio's documentation ask. Handle is `Archive` (the state Shared, `enqueue`
-- and its reports), Worker is `Batcher` with what it does between two waits, and Run is
-- `drain_cache`, `run` and `shutdown_flush`. Producers are let in only at an await of the worker:
-- each operation that awaits takes the frames that producers enqueue meanwhile, with their times;
-- what other threads enqueue between two awaits comes with the next one. A Turn is one round of
-- `run` with those frames, and a run is a list of turns: the loop of `run` has no end of its own,
-- so a statement about a run is one about any number of turns. The rounds of `take_queued` and
-- `drain_queue_to_cache` are the length of the queue, one frame a round. Flow, Receive, Spill,
-- Accounting, Turns, Balance, Leaving and Shutdown are about the account of frames; Order, Outage,
-- Delivery, Redelivery, Rounds and Exactly about their order. That nothing is stored twice rests on
-- the law that a sink reports exactly what it stored. Left out: log texts and the statistics line,
-- the duration of waits, the wrap of counters at 2 ^ 64, and the spawning of tasks (`start`,
-- `Running`, `Archives`). The spill threshold compares exact ratios where the source compares
-- floats.
--
-- Cache is crates/wiretap-server/src/cache.rs: Rows a frame as a row and back, Store `SqliteCache`
-- over a Database, which stands for SQLite and the files, with laws for its statements; RowsBack,
-- Contents and Counted are about them. Floats are a parameter, exact to a microsecond below 2 ^ 32
-- seconds, so up to 2105. Left out: `adopt` and `take_over`, the schema's migration and the
-- pragmas; a negative integer in a column is not modelled.
--
-- Wire is crates/wiretap-server/src/wire.rs: Library has the CAN and record libraries as parameters
-- with laws for frames whose bus, identifier and payload fit the protocol, Records `record` and
-- `decode`, RoundTrip their relation.
--
-- Forward is crates/wiretap-server/src/forward.rs: Interface has the codec as a parameter and a
-- connection as what the far end does on it; Receive is `Connection`, Session the handshake,
-- keepalive and close of `ForwardSink`, Chunks `send_chunk`, `quarantine` and `write_batch`. The
-- rounds of `recv` are one more than the bytes that are yet to come, since a message takes a byte;
-- the rounds of `write_batch` are the length of the batch, since a chunk takes a frame. The
-- transfer of catalogues is the interface Lines, and the texts of errors are left out. Enough,
-- Fate, Delivered and Fallback are about them.
--
-- Ingest is crates/wiretap-server/src/ingest.rs: Session a device's session over the actions of the
-- protocol's state machine, which is a library's, as are the stamping of a batch and the limit on
-- wrong tokens; Answers is about a batch. Left out: the listener, the idle limit and writes that
-- fail. A batch is acknowledged on the queue's occupancy before it, so one that is longer than the
-- room left is acknowledged and in part dropped.
--
-- Gateway is crates/wiretap-backend/src/ingest, db.rs, schema.rs and keys.rs. Postgres has
-- PostgreSQL's transactions and statements on one database as a record, with laws: what a statement
-- shows next in its transaction, that a commit makes it lasting, and that an error of a commit
-- leaves open which. Writer is ingest/writer.rs with `detect_version`, Databases what `Databases`
-- keeps of one name with `route`, Writes `write_rows`, Migrate the migrations, `create_database`
-- and `ensure_database`, Keys `Role` and the validation of a key, Sessions the registry, Rows
-- `FrameRow` and the rows of a batch, Hello `handle_hello` and `handle_batch`, Connection the
-- `Gateway` of a client, Serve `serve` and `handle_client`. Interface has what the listener takes
-- from the databases, the catalogues and the protocol's state machine; Named puts the databases
-- together by name and fills the first of these. What other connections commit while a drain waits
-- for its lock is a function `others`, and what they do to the server while a client waits is
-- `meanwhile`. A table has no order, so its rows are compared up to permutation. The rounds of the
-- loop over a machine's actions are one more than the actions that it may still ask for, since each
-- is asked for once. Effects, Buffer, Landed, Drain, Kept, Onward and Stored are about the account
-- of rows; Served, Gate and Always about pools; Registry, Owned and Clients about sessions;
-- Answers, Lively and Ended about verdicts and the end of a connection; Offered about the
-- assignments of a hello; Versions about migrations, whose files leave the recorded version to the
-- last statement of the current schema. Left out: imports and the sweep over all databases,
-- passwords, the text of COPY, the rollup's own queries, and the catalogues' tables.
--
-- Gvret is crates/wiretap-server/src/gvret.rs: Listener `Server::run` over what `accept` gives,
-- Client a client with its receiver of the broadcast as a list of samples and lags, its replies,
-- its drain and its loop over what wakes it; the codec is a parameter. Refused, Drained and Replies
-- are about them. Left out: the pause after a failed accept, the count of clients, and what other
-- clients queue between two commands of one: the room that a queue has, none where it is closed, is
-- fixed while a client is answered.
--
-- Upload is `Reader` of crates/wiretap-backend/src/archive.rs: Reader is an upload as a list of
-- chunks, its header, the rounds of `fill` over an inflater that is a parameter, and the sections.
-- Its rounds have fuel for every byte received, chunk and end, and `take` a fill for each byte it
-- wants; Coming, Fetching, Filling and Sections show that this is enough. Load is `load` over
-- PostgreSQL's COPY, whose chunks have fuel for more than a table has; Copying has the copy without
-- a reader, and Loaded compares them. Left out: the text of the refusals, and the manifest's JSON
-- and checks.
--
-- Cidr is crates/wiretap-server/src/cidr.rs: Range from a parsed address and prefix, Contains about
-- its test.
--
-- Examples has concrete parts over lists, and applies the theorems to runs of them. Not modelled:
-- the catalogues, the sources, the settings, the control socket and the console, and of the gateway
-- its catalogues, the export of an archive, the staging of an import, queries and HTTP.
pub mod Archive
pub mod Cache
pub mod Cidr
pub mod Examples
pub mod Forward
pub mod Gateway
pub mod Gvret
pub mod Ingest
pub mod Model
pub mod Prelude
pub mod Upload
pub mod Wire
