-- ===== src/Lib.antt =====
-- Kronical, a local activity-tracking service: its core logic, its pipeline and its shared
-- helpers.
--
-- The daemon turns what the system's hooks see into activity records and a published snapshot.
-- Hook events get a time and an id in the ingest stage, which sends batches and ticks to the
-- envelope stage. There an adapter makes signals and hints of them, the lock deriver adds the
-- boundaries of a locked session and drops what may not pass it, and the state engine derives the
-- activity state. Hints go to the hints stage, which cuts the time into records; the raw events go
-- to the compression stage; counts, focus and transitions go to the snapshot stage; all four send
-- what is to be kept to the storage stage. The focus changes among the events come from the focus
-- worker, which reconciles what hooks and polls say. The command line reads the log files and shows
-- what is published.
--
-- Which file models which part of the repository:
-- - Time: chrono's instants (nanoseconds since the epoch) and durations. Prelude: what all share.
-- - Events: crates/core/src/events.rs. Events/Model: events/model.rs, its data and the split policy,
--   and `ActivityState` of records.rs. Events/Engine: `DefaultStateEngine`. Events/Adapter,
--   Events/DeriveHint, Events/DeriveSignal: the files of these names.
-- - Records: `RecordBuilder` of crates/core/src/records.rs. Records/Apps and Records/Aggregate:
--   `aggregate_activities_since` of the same file, its loop over the records and its groups.
-- - Compressors: src/daemon/compressor.rs, with the arithmetic of `f32` as a record of operations.
--   Compressors/Scroll, Compressors/Mouse, Compressors/Keyboard, Compressors/Focus: the compressors.
--   Compressors/Interner: its `StringInterner`. Compressors/Engine: `CompressionEngine`.
-- - Snapshot: crates/core/src/snapshot.rs. Compression: crates/core/src/compression.rs.
-- - Tracker: src/daemon/tracker/focus.rs, the worker that makes focus changes of hook messages and polls.
--   Tracker/Titles: its caches; Tracker/Worker: its state and the messages; Tracker/Loop: its polls,
--   checks and loop.
-- - Pipeline: src/daemon/pipeline/types.rs and `StorageCommand` of crates/storage/src/lib.rs.
--   Pipeline/Ingest: ingest.rs. Pipeline/Envelope: envelope.rs. Pipeline/Hints: hints.rs.
--   Pipeline/Compress: what compression.rs stores; Pipeline/Compress/Stats: the counts that it logs;
--   Pipeline/Compress/Stage: its loop. Pipeline/Publish: snapshot_stage.rs; Pipeline/Publish/Apps:
--   `build_app_tree`; Pipeline/Publish/Durations: `pretty_format_duration`. Pipeline/Storage:
--   storage.rs, and what pipeline.rs reads of the storage at the start.
-- - Storage: the backend trait and the metrics of crates/storage/src/lib.rs.
-- - Common/Lru: crates/common/src/lru.rs. Common/Threads: crates/common/src/threading.rs.
--   Common/Interner: crates/common/src/interner.rs. Common/Maps: the hash map behind
--   crates/common/src/maps.rs.
-- - Logs: src/bin/kronictl/log_cli.rs. Logs/Chars: what it uses of Rust's `str`; Logs/Selection: its
--   selections; Logs/Entries: the log files and the commands on them.
-- - Monitor: of src/bin/kronictl.rs the period of sleep and the apps that its monitor shows;
--   Monitor/Sleep: the search for the period; Monitor/Labels: the labels of groups.
-- A function of the source has its name here, a method takes its object first and returns it, and
-- `record` as a message of the source is `activity`. A module's children say what is proved of it.
--
-- Conventions. A stage is a function of its state and of one message, and its loop a function of
-- the list of messages; it returns its sends as a list, in the order of the code. What is sent
-- does not depend on whether an earlier send succeeded, except that the ingest and the envelope
-- stage stop at a failed send: the sends are those of a stage whose receivers are alive, and
-- `deliver` says what arrives of the envelope stage's where they may not be. A reading of a clock
-- is an argument of the call that makes it; in the focus worker, which reads clocks and asks for
-- processes at many places, it is the answer of an environment to the query of that number.
-- Integers of the source keep their wrap-around or saturation where they are computed with: record
-- ids, sequence numbers and event ids on 64 bits, thread ids on a 64-bit `usize`; `i64` casts of
-- thresholds are in two's complement. Counters that only grow by one per event (`hints_delta`,
-- `signals_delta`) are unbounded. An `f32` is its bit pattern. Arithmetic on `i32` wraps, as in a
-- release build. Three definitions have fuel: `douglas_peucker`, as much as the path has points,
-- since both parts of a split are shorter than the path; the printing of a number, 20, since a `u64` has
-- at most 20 digits; and `trim_parens`, as many rounds as its text has characters, since each takes
-- two away (Logs/Parens). All other loops are structural on the list that they read; the wait for the
-- next millisecond is structural on the readings that it makes, `none` standing for a wait that
-- goes on. A `none` of a compressor stands for a panic.
--
-- Not modelled: the storage backends and which writes they keep, behind the trait that Storage
-- states; the system tracker and the hooks, the servers, the rest of the command line, configuration
-- and paths, which are mostly input and output; `trim` and `to_lowercase` in the titles of groups,
-- which are an argument; of the log commands the pager, the searches and the printing. What the
-- string interner of crates/common shares does not show in the records, where a title is its text.
pub mod Prelude
pub mod Time
pub mod Events
pub mod Records
pub mod Snapshot
pub mod Compression
pub mod Compressors
pub mod Tracker
pub mod Pipeline
pub mod Common
pub mod Storage
pub mod Examples
pub mod Logs
pub mod Monitor
