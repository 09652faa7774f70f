-- ===== src/Pipeline.antt =====
-- What the stages of the pipeline send one another (src/daemon/pipeline/types.rs, and
-- `StorageCommand` of crates/storage/src/lib.rs).
pub mod Envelope
pub mod Hints
pub mod Compress
pub mod Publish
pub mod Ingest
pub mod Storage
use kronical.Prelude.{ℕ, String, Bool, Option, none, List, ◌&&◌, ◌==◌, is_none}
use kronical.Compression.{CompactEvent}
use kronical.Events.{RawEvent, WindowFocusInfo}
use kronical.Events.Model.{ActivityState, EventEnvelope}
use kronical.Records.{ActivityRecord}
use kronical.Snapshot
use kronical.Time.{DateTime}

pub data StorageCommand : Type 0 where
  raw_event : RawEvent → StorageCommand
  activity : ActivityRecord → StorageCommand
  envelope : EventEnvelope → StorageCommand
  compact_events : List CompactEvent → StorageCommand
  transition : Snapshot.Transition → StorageCommand
  shutdown : StorageCommand

pub data FlushReason : Type 0 where
  timeout shutdown : FlushReason

pub record RawBatch : Type 0 where
  pub events : List RawEvent
  pub reason : FlushReason

pub data DeriveCommand : Type 0 where
  batch : RawBatch → DeriveCommand
  tick : DateTime → DeriveCommand
  shutdown : DeriveCommand

pub data CompressionCommand : Type 0 where
  process : RawBatch → List EventEnvelope → CompressionCommand
  shutdown : CompressionCommand

pub record SnapshotUpdate : Type 0 where
  pub hints_delta : ℕ
  pub signals_delta : ℕ
  pub focus : Option WindowFocusInfo
  pub focus_title : Option (ℕ × String)
  pub transition : Option Snapshot.Transition
  pub state : Option ActivityState

-- `SnapshotUpdate::default`.
abbrev pub no_update : SnapshotUpdate
no_update = record {
  hints_delta = 0;
  signals_delta = 0;
  focus = none;
  focus_title = none;
  transition = none;
  state = none;
}

abbrev pub update_is_empty : SnapshotUpdate → Bool
update_is_empty u =
    u.hints_delta == 0
    && (u.signals_delta == 0
        && (is_none u.focus
            && (is_none u.focus_title && (is_none u.transition && is_none u.state))))

pub data SnapshotMessage : Type 0 where
  update : SnapshotUpdate → SnapshotMessage
  activity : ActivityRecord → SnapshotMessage
  publish hints_complete shutdown : SnapshotMessage

-- One send of a stage, to the channel that it names.
pub data Send : Type 0 where
  to_hints : EventEnvelope → Send
  to_storage : StorageCommand → Send
  to_compression : CompressionCommand → Send
  to_snapshot : SnapshotMessage → Send
