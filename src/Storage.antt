-- ===== src/Storage.antt =====
-- The facade of the storage (crates/storage/src/lib.rs): what the pipeline asks of a backend, and the
-- metrics that the backends keep. `Result<()>` is the Boolean of its success; a backend may change
-- on a failure too.
use mathlib.Core.List.{foldl}
use kronical.Prelude.{
  ℕ, suc, ◌+◌, ◌-◌, ◌*◌, ◌/◌, ◌%◌, ◌^◌, ◌≡◌, refl, String, Bool, Option, none, some, List, [], ◌∷◌,
  ltb, arith, if◌then◌else◌,
}
use kronical.Compression.{CompactEvent}
use kronical.Events.{RawEvent}
use kronical.Events.Model.{EventEnvelope}
use kronical.Records.{ActivityRecord}
use kronical.Snapshot
use kronical.Time.{DateTime, second}

pub record StorageBackend (S : Type 0) : Type 0 where
  pub add_events : S → List RawEvent → S × Bool
  pub add_compact_events : S → List CompactEvent → S × Bool
  pub add_envelopes : S → List EventEnvelope → S × Bool
  pub add_records : S → List ActivityRecord → S × Bool
  pub add_transitions : S → List Snapshot.Transition → S × Bool
  pub fetch_records_since : S → DateTime → Option String → S × Option (List ActivityRecord)
  pub fetch_recent_transitions :
      S → DateTime → Option String → ℕ → S × Option (List Snapshot.Transition)

pub record StorageMetrics : Type 0 where
  pub backlog_count : ℕ
  pub last_flush_at : Option DateTime

-- The two atomics, and what the watch channel shows.
pub record Metrics : Type 0 where
  pub storage_backlog : ℕ
  pub last_flush_at_epoch : ℕ
  pub published : StorageMetrics

-- A time of 0 seconds is that no flush was made.
abbrev pub storage_metrics_snapshot : ℕ → ℕ → StorageMetrics
storage_metrics_snapshot storage_backlog secs = record {
  backlog_count = storage_backlog;
  last_flush_at = if ltb 0 secs then some (secs * second) else none;
}

abbrev pub publish_metrics : Metrics → Metrics
publish_metrics m = record m {
  published = storage_metrics_snapshot m.storage_backlog m.last_flush_at_epoch;
}

unfoldable pub inc_backlog : Metrics → Metrics
inc_backlog m = publish_metrics (record m { storage_backlog = (m.storage_backlog + 1) % 2 ^ 64 })

-- `fetch_sub`, which wraps.
unfoldable pub dec_backlog : Metrics → Metrics
dec_backlog m =
    publish_metrics (record m { storage_backlog = (m.storage_backlog + (2 ^ 64 - 1)) % 2 ^ 64 })

unfoldable pub set_last_flush : Metrics → DateTime → Metrics
set_last_flush m t = publish_metrics (record m { last_flush_at_epoch = t / second })

-- What the backends do to the metrics.
pub data MetricsCall : Type 0 where
  queued written : MetricsCall
  flushed : DateTime → MetricsCall

abbrev call : Metrics → MetricsCall → Metrics
call m MetricsCall.queued = inc_backlog m
call m MetricsCall.written = dec_backlog m
call m (MetricsCall.flushed t) = set_last_flush m t

abbrev queued_in : List MetricsCall → ℕ
queued_in [] = 0
queued_in (MetricsCall.queued ∷ calls) = suc (queued_in calls)
queued_in (_ ∷ calls) = queued_in calls

abbrev written_in : List MetricsCall → ℕ
written_in [] = 0
written_in (MetricsCall.written ∷ calls) = suc (written_in calls)
written_in (_ ∷ calls) = written_in calls

-- After any calls, the backlog and what was written since are the backlog before and what was queued
-- since, on 64 bits; and the channel shows the backlog.
pub calls-Backlog :
    (m : Metrics) (calls : List MetricsCall)
    → m.published.backlog_count ≡ m.storage_backlog
    → let after = foldl call m calls in
      ((after.storage_backlog + written_in calls) % 2 ^ 64
        ≡ (m.storage_backlog + queued_in calls) % 2 ^ 64)
      × (after.published.backlog_count ≡ after.storage_backlog)
unfolding inc_backlog dec_backlog set_last_flush
calls-Backlog m [] h = (refl, h)
calls-Backlog m (MetricsCall.queued ∷ calls) h =
    let later = calls-Backlog (inc_backlog m) calls refl in (omega (arith, later.0), later.1)
calls-Backlog m (MetricsCall.written ∷ calls) h =
    let later = calls-Backlog (dec_backlog m) calls refl in (omega (arith, later.0), later.1)
calls-Backlog m (MetricsCall.flushed t ∷ calls) h =
    let later = calls-Backlog (set_last_flush m t) calls refl in (omega (arith, later.0), later.1)
