-- ===== src/Pipeline/Compress/Reports.antt =====
-- The loop of the compression stage returns; what it sends and what it logs.
use kronical.Prelude.{
  ℕ, ◌+◌, ◌%◌, ◌<◌, ◌≡◌, refl, Bool, true, false, Option, none, some, List, [], ◌∷◌, ◌++◌, All,
  All-append, is_empty, arith, if_elim, if◌then◌else◌, Bool-cases, inl, inr, leb, ◌==◌,
}
use kronical.Prelude.Int.{pos}
use kronical.Compression.{CompactEvent, Sizes}
use kronical.Compressors.{Floats}
use kronical.Compressors.Mouse
use kronical.Compressors.Engine.{CompressionEngine, with_focus_cap}
use kronical.Compressors.Engine.Batches.{Accounts, compress_events-Accounts}
use kronical.Events.{RawEvent}
use kronical.Events.Model.{EventEnvelope}
use kronical.Pipeline.{RawBatch, CompressionCommand, StorageCommand, Send, to_storage}
use kronical.Pipeline.Compress.{
  store_events, should_store, forward_raw_events, forward_batch, forward_compact_events,
  clear_raw_event_refs,
}
use kronical.Pipeline.Compress.Forwarding.{pointer_of, clear_raw_event_refs_none}
use kronical.Pipeline.Compress.Stats
use kronical.Pipeline.Compress.Stats.{
  RollupStats, Rollup, IsBalanced, word, raw_stats, compact_stats, add_batch, flush, maybe_flush,
  add_batch-IsBalanced,
}
use kronical.Common.Sums.{sum_by, sum_by-append}
use kronical.Pipeline.Compress.Counts.{
  Column, printed, kept, of_batch, of_send, add_batch-kept, flush-kept, maybe_flush-kept,
  forward_batch-sends,
}
use kronical.Pipeline.Compress.Stage.{
  CompressionStage, Clock, Step, start, after_compression, process, then_go, run_compression,
}

-- A line of the log counts each batch under its reason.
abbrev pub IsSum : Rollup → Type 0
IsSum l = l.batches ≡ (l.timeout + l.shutdown) % word

-- The batches that the loop compresses: those with events, up to the shutdown.
abbrev pub with_events : RawBatch → List RawBatch
with_events batch = if is_empty batch.events then [] else batch ∷ []

abbrev pub compressed : List (CompressionCommand × Clock) → List RawBatch
compressed [] = []
compressed ((CompressionCommand.shutdown, clock) ∷ commands) = []
compressed ((CompressionCommand.process batch envelopes, clock) ∷ commands) =
    with_events batch ++ compressed commands

-- Each number of the lines, with what is kept for the next one, counts what was kept before, the batches,
-- their raw events and the compact events that are sent, on 64 bits.
abbrev pub Counted : CompressionStage → List RawBatch → Step → Type 0
Counted s batches (t, (sends, lines)) =
    (c : Column)
    → (sum_by (printed c) lines + kept c t.rollup) % word
      ≡ (kept c s.rollup + sum_by (of_batch c) batches + sum_by (of_send c) sends) % word

-- The lines of the log that leave a balanced state.
abbrev Logs : RollupStats × List Rollup → Type 0
Logs (s, lines) = IsBalanced s × All IsSum lines

flush-Logs : (s : RollupStats) → IsBalanced s → Logs (flush s)
unfolding flush
flush-Logs s h =
    if_elim Logs (s.batches == 0) _ _ (λ _. (h, tt))
      λ _. (record { raw = refl; compact = refl; batches = refl }, (h.batches, tt))

maybe_flush-Logs :
    (s : RollupStats) (now after_flush : ℕ) → IsBalanced s → Logs (maybe_flush s now after_flush)
unfolding maybe_flush
maybe_flush-Logs s now after_flush h =
    let (flushed, lines) = flush-Logs s h in
    if_elim Logs (leb s.next_flush now) _ _
      (λ _.
        (record { raw = flushed.raw; compact = flushed.compact; batches = flushed.batches }, lines))
      λ _. (h, tt)

-- What may be sent: raw events only where they are kept, and no pointer to them where they are not.
abbrev pub IsAllowed : Bool → Send → Type 0
IsAllowed persist (to_storage (StorageCommand.raw_event _)) = persist ≡ true
IsAllowed persist (to_storage (StorageCommand.compact_events events)) =
    persist ≡ false → All (λ e. pointer_of e ≡ none) events
IsAllowed persist _ = ⊥

store_events-IsAllowed :
    (suppress : List ℕ) (events : List RawEvent)
    → All (IsAllowed true) (store_events suppress events)
unfolding store_events
store_events-IsAllowed suppress [] = tt
store_events-IsAllowed suppress (e ∷ events) =
    if_elim (All (IsAllowed true)) (should_store suppress e) _ _
      (λ _. (refl, store_events-IsAllowed suppress events))
      λ _. store_events-IsAllowed suppress events

forward_raw_events-IsAllowed :
    (envelopes : List EventEnvelope) (events : List RawEvent)
    → All (IsAllowed true) (forward_raw_events envelopes events)
unfolding forward_raw_events
forward_raw_events-IsAllowed envelopes events =
    if_elim (All (IsAllowed true)) (is_empty events) _ _ (λ _. tt)
      λ _. store_events-IsAllowed _ events

forward_compact_events-IsAllowed :
    (persist : Bool) (events : List CompactEvent)
    → (persist ≡ false → All (λ e. pointer_of e ≡ none) events)
    → All (IsAllowed persist) (forward_compact_events events)
unfolding forward_compact_events
forward_compact_events-IsAllowed persist events h =
    if_elim (All (IsAllowed persist)) (is_empty events) _ _ (λ _. tt) λ _. (h, tt)

forward_batch-IsAllowed :
    (persist : Bool) (envelopes : List EventEnvelope) (events : List RawEvent)
    (compacts : List CompactEvent)
    → All (IsAllowed persist) (forward_batch persist envelopes events compacts)
unfolding forward_batch
forward_batch-IsAllowed true envelopes events compacts =
    All-append (IsAllowed true) (forward_raw_events envelopes events)
      (forward_compact_events compacts) (forward_raw_events-IsAllowed envelopes events)
      (forward_compact_events-IsAllowed true compacts (λ h. cc))
forward_batch-IsAllowed false envelopes events compacts =
    forward_compact_events-IsAllowed false (clear_raw_event_refs compacts)
      (λ _. (clear_raw_event_refs_none compacts).0)

module _ (f : Floats) where
  -- What a run needs of its start, and keeps.
  pub record IsSound (s : CompressionStage) : Type 0 where
    pub positive : f.lt s.engine.mouse_compressor.douglas_peucker_epsilon (f.as_f32 (pos 0)) ≡ false
    pub bytes : s.engine.total_compact_events_bytes < word
    pub balanced : IsBalanced s.rollup

  pub start-IsSound :
      (max_strings now : ℕ)
      → f.lt (f.as_f32 (pos 2)) (f.as_f32 (pos 0)) ≡ false
      → IsSound (start f max_strings now)
  unfolding start with_focus_cap Stats.new Mouse.new
  start-IsSound max_strings now h = record {
    positive = h;
    bytes = omega arith;
    balanced = record { raw = refl; compact = refl; batches = refl };
  }

  -- A step that returned, its state sound, its sends allowed and its lines right.
  abbrev Returns : Bool → CompressionStage → List RawBatch → Option Step → Type 0
  Returns persist s batches o =
      (r : Step) × (o ≡ some r)
      × IsSound r.0
      × All (IsAllowed persist) r.1.0
      × All IsSum r.1.1
      × Counted s batches r

  module _ (sizes : Sizes) (persist_raw_events : Bool) where
    after_compression-Returns :
        (s : CompressionStage) (batch : RawBatch) (envelopes : List EventEnvelope) (clock : Clock)
        (r : CompressionEngine × (List RawEvent × List CompactEvent))
        → IsSound s
        → Accounts sizes s.engine batch.events r
        → Returns persist_raw_events s
            (batch ∷ [])
            (some (after_compression f sizes persist_raw_events s batch envelopes clock r))
    after_compression-Returns s batch envelopes clock (engine, (processed, compacts)) h a =
        let rollup =
          add_batch s.rollup batch.reason (raw_stats batch.events) (compact_stats compacts) in
        let (balanced, lines) =
          maybe_flush-Logs rollup clock.now clock.after_flush
            (add_batch-IsBalanced s.rollup batch.reason batch.events compacts h.balanced) in
        (
          _,
          refl,
          record {
            positive = rw a.mouse_settings h.positive;
            bytes = rw a.bytes (omega arith);
            balanced = balanced;
          },
          forward_batch-IsAllowed persist_raw_events envelopes processed compacts,
          lines,
          λ c. omega (
            arith,
            maybe_flush-kept c rollup clock.now clock.after_flush,
            add_batch-kept c s.rollup batch compacts,
            forward_batch-sends c persist_raw_events envelopes processed compacts,
          ),
        )

    process-Returns :
        (s : CompressionStage) (batch : RawBatch) (envelopes : List EventEnvelope) (clock : Clock)
        → IsSound s
        → Returns persist_raw_events s
            (with_events batch)
            (process f sizes persist_raw_events s batch envelopes clock)
    unfolding process
    process-Returns s batch envelopes clock h =
        let (r, e, a) = compress_events-Accounts f sizes s.engine batch.events h.positive h.bytes in
        elim (Bool-cases (is_empty batch.events)) [
          | inl none_of_them ↦ rw none_of_them (_, refl, h, tt, tt, λ c. omega arith)
          | inr some_of_them ↦
              rw some_of_them (rw e (after_compression-Returns s batch envelopes clock r h a))
        ]

    then_go-Returns :
        (go : CompressionStage → Option Step) (o : Option Step) (s : CompressionStage)
        (first later : List RawBatch)
        → ((t : CompressionStage) → IsSound t → Returns persist_raw_events t later (go t))
        → Returns persist_raw_events s first o
        → Returns persist_raw_events s (first ++ later) (then_go f sizes persist_raw_events go o)
    then_go-Returns go o s first later next ((t, (sends, lines)), e, h, allowed, sums, counted) =
        let ((u, (sends', lines')), e', h', allowed', sums', counted') = next t h in
        rw e (
          rw e' (
            (u, (sends ++ sends', lines ++ lines')),
            refl,
            h',
            All-append (IsAllowed persist_raw_events) sends sends' allowed allowed',
            All-append IsSum lines lines' sums sums',
            λ c. omega (
              arith,
              counted c,
              counted' c,
              sum_by-append (printed c) lines lines',
              sum_by-append (of_batch c) first later,
              sum_by-append (of_send c) sends sends',
            ),
          ))

    -- The stage's loop returns on every list of commands, with no panic, where `epsilon` is not
    -- below 0.0, the count of bytes is below 2^64 and the rollup is balanced, as at the start; the
    -- three still hold at the end. It sends raw events only if they are to be kept, and if they are
    -- not, compact events without a pointer to them. In each line that it logs the batches are those
    -- by timeout and those by shutdown. Each number of the lines, summed over all of them and with
    -- what is kept for the next line, is what was kept before and what was compressed since:
    -- batches with events, by their reason, their raw events and the compact events that are sent,
    -- each by kind. All sums are on 64 bits.
    pub run_compression-Returns :
        (s : CompressionStage) (commands : List (CompressionCommand × Clock))
        → IsSound s
        → (r : Step) × (run_compression f sizes persist_raw_events s commands ≡ some r)
          × IsSound r.0
          × All (IsAllowed persist_raw_events) r.1.0
          × All IsSum r.1.1
          × Counted s (compressed commands) r
    unfolding run_compression
    run_compression-Returns s [] h = (_, refl, h, tt, tt, λ c. omega arith)
    run_compression-Returns s ((CompressionCommand.shutdown, clock) ∷ commands) h =
        let (balanced, lines) = flush-Logs s.rollup h.balanced in
        (
          _,
          refl,
          record { positive = h.positive; bytes = h.bytes; balanced = balanced },
          tt,
          lines,
          λ c. omega (arith, flush-kept c s.rollup),
        )
    run_compression-Returns s ((CompressionCommand.process batch envelopes, clock) ∷ commands) h =
        then_go-Returns (λ t. run_compression f sizes persist_raw_events t commands) _ s
          (with_events batch) (compressed commands) (λ t. run_compression-Returns t commands)
          (process-Returns s batch envelopes clock h)
