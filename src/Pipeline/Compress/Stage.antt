-- ===== src/Pipeline/Compress/Stage.antt =====
-- `spawn_compression_stage` (src/daemon/pipeline/compression.rs): the loop over the commands. Each
-- command comes with the readings of the clock that `maybe_flush` makes; `none` stands for a panic.
-- `compress_events` has no other failure.
use mathlib.Core.Option
use kronical.Prelude.{
  ℕ, ◌*◌, Bool, Option, none, some, List, [], ◌∷◌, ◌++◌, is_empty, if◌then◌else◌,
}
use kronical.Compression.{CompactEvent, Sizes}
use kronical.Compressors.{Floats}
use kronical.Compressors.Engine.{CompressionEngine, with_focus_cap, compress_events}
use kronical.Events.{RawEvent}
use kronical.Events.Model.{EventEnvelope}
use kronical.Pipeline.{RawBatch, CompressionCommand, Send}
use kronical.Pipeline.Compress.{forward_batch}
use kronical.Pipeline.Compress.Stats
use kronical.Pipeline.Compress.Stats.{
  RollupStats, Rollup, IsBalanced, word, raw_stats, compact_stats, add_batch, flush, maybe_flush,
  add_batch-IsBalanced,
}
use kronical.Time.{second}

pub record CompressionStage : Type 0 where
  pub engine : CompressionEngine
  pub rollup : RollupStats

-- `Instant::now()` at the test of `maybe_flush` and after its flush.
pub record Clock : Type 0 where
  pub now : ℕ
  pub after_flush : ℕ

-- The stage, what it sends and what it logs.
abbrev pub Step : Type 0
Step = CompressionStage × (List Send × List Rollup)

unfoldable pub start : Floats → ℕ → ℕ → CompressionStage
start f focus_interner_max_strings now = record {
  engine = with_focus_cap f focus_interner_max_strings;
  rollup = Stats.new (60 * second) now;
}

module _ (f : Floats) (sizes : Sizes) (persist_raw_events : Bool) where
  -- What follows `Ok((processed_events, compact_events))`.
  abbrev pub after_compression :
      CompressionStage
      → RawBatch
      → List EventEnvelope
      → Clock
      → CompressionEngine × (List RawEvent × List CompactEvent)
      → Step
  after_compression s batch envelopes clock (engine, (processed_events, compact_events)) =
      let rollup =
        add_batch s.rollup batch.reason (raw_stats batch.events) (compact_stats compact_events) in
      let (flushed, line) = maybe_flush rollup clock.now clock.after_flush in
      (
        record { engine = engine; rollup = flushed },
        (forward_batch persist_raw_events envelopes processed_events compact_events, line),
      )

  unfoldable pub process : CompressionStage → RawBatch → List EventEnvelope → Clock → Option Step
  process s batch envelopes clock =
      if is_empty batch.events
      then some (s, ([], []))
      else Option.map (after_compression s batch envelopes clock)
          (compress_events f sizes s.engine batch.events)

  abbrev pub then_go : (CompressionStage → Option Step) → Option Step → Option Step
  then_go go none = none
  then_go go (some (s, (sends, lines))) =
      Option.map
        (λ (t, (later_sends, later_lines)). (t, (sends ++ later_sends, lines ++ later_lines)))
        (go s)

  -- The loop: it ends at a shutdown, or where the senders are gone.
  unfoldable pub run_compression :
      CompressionStage → List (CompressionCommand × Clock) → Option Step
  run_compression s [] = some (s, ([], []))
  run_compression s ((CompressionCommand.shutdown, clock) ∷ commands) =
      let (flushed, line) = flush s.rollup in some (record s { rollup = flushed }, ([], line))
  run_compression s ((CompressionCommand.process batch envelopes, clock) ∷ commands) =
      then_go (λ t. run_compression t commands) (process s batch envelopes clock)
