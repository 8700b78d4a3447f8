-- ===== src/Lib.antt =====
-- oxide-outbox: the transactional-outbox worker, its PostgreSQL storage, its Redis
-- idempotency provider and failure counters, and its Kafka transport.
--
-- A producer writes an event as a row of an outbox table; a worker claims rows, publishes them to a
-- broker, and marks those that the broker took; two further tasks delete old rows and move rows
-- that keep failing to a dead-letter table. The crate outbox-core holds the logic over traits;
-- the other crates implement the traits.
--
-- How the program is modelled. An async function is a function of a world `W`, all that the other
-- parties hold, into an outcome (`ok`, `err`, `panicked`) and the next world (Exec.antt); what was
-- done before an error stays done. A trait is a record of such operations (Traits.antt), and what
-- its documentation promises is a hypothesis of the theorems that need it. The libraries that the
-- crates call (uuid, time, tokio's watch channel, metrics) are parameters (Runtime.antt). A
-- `select!` loop runs over a schedule: each turn says what the other tasks do to the world first,
-- and which arm then runs (Loop.antt), and theorems hold of every schedule.
--
-- The files, and the code that they model:
--   Prelude       shared names, Boolean tests, lists, membership, `i64` counts
--   Exec          outbox-core/src/error.rs (OutboxError), and the operator `?`
--   Object        outbox-core/src/object.rs: EventId, IdempotencyToken, EventType, Payload
--   Model         outbox-core/src/model.rs, dlq/model.rs: Event, EventStatus, DlqEntry
--   Config        outbox-core/src/config.rs, idempotency/strategy.rs (invoke)
--   Traits        outbox-core/src/storage.rs, publisher.rs, idempotency/storage.rs, dlq/storage.rs
--   Service       outbox-core/src/service.rs: new, with_idempotency, add_event
--   Processor     outbox-core/src/processor.rs: process_pending_events, event_publish, and
--                 (Steps) the same from one await to the next; (Counting, Refused) a batch on a heap
--   Loop          the shape of the `select!` loops, and their shutdown arm
--   Gc            outbox-core/src/gc.rs: collect_garbage, run
--   Reaper        outbox-core/src/dlq/processor.rs: run
--   Manager       outbox-core/src/manager.rs: run, with its inner loop as `drain`
--   Builder       outbox-core/src/builder.rs: the setters and build
--   Postgres      outbox-postgres/src/lib.rs and its migrations: the statements as functions of
--                 the two tables, the server's clock and the rows that other transactions lock
--                 (Sql, Listener, Writer), and the lemmas on each
--   Heap          what outbox-core/src/dlq/storage.rs promises of a heap, and calls in sequence
--   Redis         outbox-redis/src/lib.rs (new, try_reserve), config.rs and dlq.rs (the heap)
--   Kafka         outbox-kafka/src/lib.rs: new, publish
--   System        the worker of manager.rs on the PostgreSQL storage, with any broker and heap, and
--                 (Cluster) producers, any number of workers and the two background tasks over
--                 one database, interleaved between their calls, with workers killed anywhere;
--                 (Cluster/Runs) the loop of manager.rs as such calls;
--                 (Delivery) events from the producer to the broker, with the rows of killed
--                 workers; (Dedup) tokens in the table;
--                 (Reap, Poison) the dead-letter task on the PostgreSQL storage; (Kept, Forward,
--                 Spared) what runs of the loops do to the tables
--   Demo          example: the publishers, configurations and calls of the demonstration programs,
--                 and (Programs) their main functions
--   Tests         the unit tests of outbox-core, as runs of the model that hold by computation
--   Examples      concrete worlds at which the theorems are applied, and tests
--
-- Switches, bounds and fuel. The feature `dlq` is on where a heap is given (`Option (DlqHeap W)`),
-- the feature `metrics` where a facade is, and `build` takes the feature as a Boolean. Timestamps are
-- microseconds as natural numbers. The fields of the configuration keep the values of their types;
-- nothing computes with them but the two intervals of the statements, whose counts are `ℤ`. The
-- failure count is cut to 32 bits where the code does it. The worker's inner loop runs on fuel, and
-- running out of it is a flow of its own (`starved`), which fuel above the backlog excludes. The outer
-- loops run as long as their schedule.
--
-- A statement sees a table as a list of rows in the order of the scan; theorems about keys assume
-- the primary key of the table. A statement runs as one step, as its transaction makes it, and the
-- connection may fail it before it runs.
--
-- A round of a loop is one step of the loop: the other tasks act between rounds, and the clock of
-- the server moves between them; only System/Cluster lets them act between the calls of a batch. A
-- call that fails on its connection did nothing: an answer that is lost after the server has acted
-- is not modelled. The commands of the Redis server, the `moka` cache
-- and the parsers of uuids and doubles are parameters of `Redis`, which clamps and casts a parsed
-- score as the code does; the producer and the serializers are parameters of `Kafka`.
--
-- Not modelled: the derived serde and sqlx codecs, the log lines, the measured durations, the
-- timers' periods (a tick is a choice of the schedule), and the logging set-up of the example
-- programs.
pub mod Prelude
pub mod Exec
pub mod Object
pub mod Runtime
pub mod Model
pub mod Config
pub mod Traits
pub mod Heap
pub mod Service
pub mod Processor
pub mod Loop
pub mod Gc
pub mod Reaper
pub mod Manager
pub mod Builder
pub mod Postgres
pub mod Redis
pub mod Kafka
pub mod System
pub mod Demo
pub mod Tests
pub mod Examples
