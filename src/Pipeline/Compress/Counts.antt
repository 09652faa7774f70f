-- ===== src/Pipeline/Compress/Counts.antt =====
-- What the numbers of the log's lines count (src/daemon/pipeline/compression.rs): batches, raw events and
-- compact events by their kind.
use kronical.Prelude.{
  ℕ, ◌+◌, ◌%◌, ◌≡◌, refl, ◌∙◌, Bool, true, false, List, [], ◌∷◌, map, arith, if_elim, is_empty, leb,
}
use kronical.Common.Sums.{sum_by, sum_by-append}
use kronical.Compression.{CompactEvent}
use kronical.Events.{RawEvent}
use kronical.Events.Model.{EventEnvelope}
use kronical.Pipeline.{FlushReason, RawBatch, StorageCommand, Send, to_storage}
use kronical.Pipeline.Compress.{
  should_store, store_events, suppressed, forward_raw_events, forward_compact_events, clear_refs,
  clear_raw_event_refs, forward_batch,
}
use kronical.Pipeline.Compress.Stats.{
  RawEventStats, CompactEventStats, RollupStats, Rollup, word, ByReason, one_more, add_raw,
  add_compact, no_raw, no_compact, count_raw, count_compact, count_all_raw, count_all_compact,
  raw_stats, compact_stats, add_batch, flush, maybe_flush,
}

pub data RawKind : Type 0 where
  keys clicks focuses : RawKind

pub data CompactKind : Type 0 where
  scrolls trajectories key_groups focus_runs : CompactKind

-- A number of the line.
pub data Column : Type 0 where
  all_batches timeouts shutdowns : Column
  raw_kind : RawKind → Column
  compact_kind : CompactKind → Column

abbrev pub raw_of : RawKind → RawEventStats → ℕ
raw_of RawKind.keys s = s.keyboard
raw_of RawKind.clicks s = s.mouse
raw_of RawKind.focuses s = s.focus

abbrev pub compact_of : CompactKind → CompactEventStats → ℕ
compact_of CompactKind.scrolls s = s.scroll
compact_of CompactKind.trajectories s = s.mouse_traj
compact_of CompactKind.key_groups s = s.keyboard
compact_of CompactKind.focus_runs s = s.focus

-- What is kept for the next line, and what a line says.
abbrev pub kept : Column → RollupStats → ℕ
kept Column.all_batches s = s.batches
kept Column.timeouts s = s.by_reason.timeout
kept Column.shutdowns s = s.by_reason.shutdown
kept (Column.raw_kind k) s = raw_of k s.raw
kept (Column.compact_kind k) s = compact_of k s.compact

abbrev pub printed : Column → Rollup → ℕ
printed Column.all_batches l = l.batches
printed Column.timeouts l = l.timeout
printed Column.shutdowns l = l.shutdown
printed (Column.raw_kind RawKind.keys) l = l.raw_keyboard
printed (Column.raw_kind RawKind.clicks) l = l.raw_mouse
printed (Column.raw_kind RawKind.focuses) l = l.raw_focus
printed (Column.compact_kind CompactKind.scrolls) l = l.compact_scroll
printed (Column.compact_kind CompactKind.trajectories) l = l.compact_mouse_traj
printed (Column.compact_kind CompactKind.key_groups) l = l.compact_keyboard
printed (Column.compact_kind CompactKind.focus_runs) l = l.compact_focus

-- 1 for an event of the kind, 0 for another.
abbrev pub is_raw : RawEvent → RawKind → ℕ
is_raw (RawEvent.keyboard_input _ _ _) RawKind.keys = 1
is_raw (RawEvent.keyboard_input _ _ _) RawKind.clicks = 0
is_raw (RawEvent.keyboard_input _ _ _) RawKind.focuses = 0
is_raw (RawEvent.mouse_input _ _ _) RawKind.keys = 0
is_raw (RawEvent.mouse_input _ _ _) RawKind.clicks = 1
is_raw (RawEvent.mouse_input _ _ _) RawKind.focuses = 0
is_raw (RawEvent.window_focus_change _ _ _) RawKind.keys = 0
is_raw (RawEvent.window_focus_change _ _ _) RawKind.clicks = 0
is_raw (RawEvent.window_focus_change _ _ _) RawKind.focuses = 1

abbrev pub is_compact : CompactEvent → CompactKind → ℕ
is_compact (CompactEvent.scroll _) CompactKind.scrolls = 1
is_compact (CompactEvent.scroll _) CompactKind.trajectories = 0
is_compact (CompactEvent.scroll _) CompactKind.key_groups = 0
is_compact (CompactEvent.scroll _) CompactKind.focus_runs = 0
is_compact (CompactEvent.mouse_trajectory _) CompactKind.scrolls = 0
is_compact (CompactEvent.mouse_trajectory _) CompactKind.trajectories = 1
is_compact (CompactEvent.mouse_trajectory _) CompactKind.key_groups = 0
is_compact (CompactEvent.mouse_trajectory _) CompactKind.focus_runs = 0
is_compact (CompactEvent.keyboard _) CompactKind.scrolls = 0
is_compact (CompactEvent.keyboard _) CompactKind.trajectories = 0
is_compact (CompactEvent.keyboard _) CompactKind.key_groups = 1
is_compact (CompactEvent.keyboard _) CompactKind.focus_runs = 0
is_compact (CompactEvent.focus _) CompactKind.scrolls = 0
is_compact (CompactEvent.focus _) CompactKind.trajectories = 0
is_compact (CompactEvent.focus _) CompactKind.key_groups = 0
is_compact (CompactEvent.focus _) CompactKind.focus_runs = 1

abbrev pub of_reason : Column → FlushReason → ℕ
of_reason Column.timeouts FlushReason.timeout = 1
of_reason Column.shutdowns FlushReason.shutdown = 1
of_reason _ _ = 0

-- What a batch adds to the number, and what the compact events that are sent to the storage do.
abbrev pub of_batch : Column → RawBatch → ℕ
of_batch Column.all_batches batch = 1
of_batch Column.timeouts batch = of_reason Column.timeouts batch.reason
of_batch Column.shutdowns batch = of_reason Column.shutdowns batch.reason
of_batch (Column.raw_kind k) batch = sum_by (λ e. is_raw e k) batch.events
of_batch (Column.compact_kind k) batch = 0

abbrev pub of_compact : Column → CompactEvent → ℕ
of_compact (Column.compact_kind k) e = is_compact e k
of_compact _ e = 0

abbrev pub of_send : Column → Send → ℕ
of_send c (to_storage (StorageCommand.compact_events es)) = sum_by (of_compact c) es
of_send c _ = 0

count_raw-of :
    (s : RawEventStats) (e : RawEvent) (k : RawKind)
    → raw_of k (count_raw s e) % word ≡ (raw_of k s + is_raw e k) % word
count_raw-of s (RawEvent.keyboard_input _ _ _) RawKind.keys = omega arith
count_raw-of s (RawEvent.keyboard_input _ _ _) RawKind.clicks = omega arith
count_raw-of s (RawEvent.keyboard_input _ _ _) RawKind.focuses = omega arith
count_raw-of s (RawEvent.mouse_input _ _ _) RawKind.keys = omega arith
count_raw-of s (RawEvent.mouse_input _ _ _) RawKind.clicks = omega arith
count_raw-of s (RawEvent.mouse_input _ _ _) RawKind.focuses = omega arith
count_raw-of s (RawEvent.window_focus_change _ _ _) RawKind.keys = omega arith
count_raw-of s (RawEvent.window_focus_change _ _ _) RawKind.clicks = omega arith
count_raw-of s (RawEvent.window_focus_change _ _ _) RawKind.focuses = omega arith

count_compact-of :
    (s : CompactEventStats) (e : CompactEvent) (k : CompactKind)
    → compact_of k (count_compact s e) % word ≡ (compact_of k s + is_compact e k) % word
count_compact-of s (CompactEvent.scroll _) CompactKind.scrolls = omega arith
count_compact-of s (CompactEvent.scroll _) CompactKind.trajectories = omega arith
count_compact-of s (CompactEvent.scroll _) CompactKind.key_groups = omega arith
count_compact-of s (CompactEvent.scroll _) CompactKind.focus_runs = omega arith
count_compact-of s (CompactEvent.mouse_trajectory _) CompactKind.scrolls = omega arith
count_compact-of s (CompactEvent.mouse_trajectory _) CompactKind.trajectories = omega arith
count_compact-of s (CompactEvent.mouse_trajectory _) CompactKind.key_groups = omega arith
count_compact-of s (CompactEvent.mouse_trajectory _) CompactKind.focus_runs = omega arith
count_compact-of s (CompactEvent.keyboard _) CompactKind.scrolls = omega arith
count_compact-of s (CompactEvent.keyboard _) CompactKind.trajectories = omega arith
count_compact-of s (CompactEvent.keyboard _) CompactKind.key_groups = omega arith
count_compact-of s (CompactEvent.keyboard _) CompactKind.focus_runs = omega arith
count_compact-of s (CompactEvent.focus _) CompactKind.scrolls = omega arith
count_compact-of s (CompactEvent.focus _) CompactKind.trajectories = omega arith
count_compact-of s (CompactEvent.focus _) CompactKind.key_groups = omega arith
count_compact-of s (CompactEvent.focus _) CompactKind.focus_runs = omega arith

count_all_raw-of :
    (s : RawEventStats) (events : List RawEvent) (k : RawKind)
    → raw_of k (count_all_raw s events) % word
      ≡ (raw_of k s + sum_by (λ e. is_raw e k) events) % word
count_all_raw-of s [] k = omega arith
count_all_raw-of s (e ∷ events) k =
    omega (arith, count_raw-of s e k, count_all_raw-of (count_raw s e) events k)

count_all_compact-of :
    (s : CompactEventStats) (events : List CompactEvent) (k : CompactKind)
    → compact_of k (count_all_compact s events) % word
      ≡ (compact_of k s + sum_by (λ e. is_compact e k) events) % word
count_all_compact-of s [] k = omega arith
count_all_compact-of s (e ∷ events) k =
    omega (arith, count_compact-of s e k, count_all_compact-of (count_compact s e) events k)

no_raw-of : (k : RawKind) → raw_of k no_raw ≡ 0
no_raw-of RawKind.keys = refl
no_raw-of RawKind.clicks = refl
no_raw-of RawKind.focuses = refl

no_compact-of : (k : CompactKind) → compact_of k no_compact ≡ 0
no_compact-of CompactKind.scrolls = refl
no_compact-of CompactKind.trajectories = refl
no_compact-of CompactKind.key_groups = refl
no_compact-of CompactKind.focus_runs = refl

no_compacts :
    (c : Column) (events : List CompactEvent)
    → ((e : CompactEvent) → of_compact c e ≡ 0)
    → sum_by (of_compact c) events ≡ 0
no_compacts c [] h = refl
no_compacts c (e ∷ events) h = omega (arith, h e, no_compacts c events h)

timeouts-of :
    (m : ByReason) (r : FlushReason)
    → (one_more m r).timeout % word ≡ (m.timeout + of_reason Column.timeouts r) % word
timeouts-of m FlushReason.timeout = omega arith
timeouts-of m FlushReason.shutdown = omega arith

shutdowns-of :
    (m : ByReason) (r : FlushReason)
    → (one_more m r).shutdown % word ≡ (m.shutdown + of_reason Column.shutdowns r) % word
shutdowns-of m FlushReason.timeout = omega arith
shutdowns-of m FlushReason.shutdown = omega arith

add_raw-of :
    (a b : RawEventStats) (k : RawKind)
    → raw_of k (add_raw a b) % word ≡ (raw_of k a + raw_of k b) % word
add_raw-of a b RawKind.keys = omega arith
add_raw-of a b RawKind.clicks = omega arith
add_raw-of a b RawKind.focuses = omega arith

add_compact-of :
    (a b : CompactEventStats) (k : CompactKind)
    → compact_of k (add_compact a b) % word ≡ (compact_of k a + compact_of k b) % word
add_compact-of a b CompactKind.scrolls = omega arith
add_compact-of a b CompactKind.trajectories = omega arith
add_compact-of a b CompactKind.key_groups = omega arith
add_compact-of a b CompactKind.focus_runs = omega arith

-- A batch adds to each number what it should, on 64 bits.
pub add_batch-kept :
    (c : Column) (s : RollupStats) (batch : RawBatch) (compacts : List CompactEvent)
    → kept c (add_batch s batch.reason (raw_stats batch.events) (compact_stats compacts)) % word
      ≡ (kept c s + of_batch c batch + sum_by (of_compact c) compacts) % word
unfolding add_batch raw_stats compact_stats
add_batch-kept Column.all_batches s batch compacts =
    omega (arith, no_compacts Column.all_batches compacts (λ e. refl))
add_batch-kept Column.timeouts s batch compacts =
    omega (
      arith,
      timeouts-of s.by_reason batch.reason,
      no_compacts Column.timeouts compacts (λ e. refl),
    )
add_batch-kept Column.shutdowns s batch compacts = omega (
  arith,
  shutdowns-of s.by_reason batch.reason,
  no_compacts Column.shutdowns compacts (λ e. refl),
)
add_batch-kept (Column.raw_kind k) s batch compacts = omega (
  arith,
  add_raw-of s.raw (count_all_raw no_raw batch.events) k,
  count_all_raw-of no_raw batch.events k,
  no_raw-of k,
  no_compacts (Column.raw_kind k) compacts (λ e. refl),
)
add_batch-kept (Column.compact_kind k) s batch compacts = omega (
  arith,
  add_compact-of s.compact (count_all_compact no_compact compacts) k,
  count_all_compact-of no_compact compacts k,
  no_compact-of k,
)

-- What a flush logs is what is no longer kept.
pub flush-kept :
    (c : Column) (s : RollupStats) → sum_by (printed c) (flush s).1 + kept c (flush s).0 ≡ kept c s
unfolding flush
flush-kept Column.all_batches s = ground arith
flush-kept Column.timeouts s = ground arith
flush-kept Column.shutdowns s = ground arith
flush-kept (Column.raw_kind RawKind.keys) s = ground arith
flush-kept (Column.raw_kind RawKind.clicks) s = ground arith
flush-kept (Column.raw_kind RawKind.focuses) s = ground arith
flush-kept (Column.compact_kind CompactKind.scrolls) s = ground arith
flush-kept (Column.compact_kind CompactKind.trajectories) s = ground arith
flush-kept (Column.compact_kind CompactKind.key_groups) s = ground arith
flush-kept (Column.compact_kind CompactKind.focus_runs) s = ground arith

kept-next : (c : Column) (s : RollupStats) (t : ℕ) → kept c (record s { next_flush = t }) ≡ kept c s
kept-next Column.all_batches s t = refl
kept-next Column.timeouts s t = refl
kept-next Column.shutdowns s t = refl
kept-next (Column.raw_kind k) s t = refl
kept-next (Column.compact_kind k) s t = refl

pub maybe_flush-kept :
    (c : Column) (s : RollupStats) (now after_flush : ℕ)
    → sum_by (printed c) (maybe_flush s now after_flush).1
        + kept c (maybe_flush s now after_flush).0
      ≡ kept c s
unfolding maybe_flush
maybe_flush-kept c s now after_flush =
    if_elim (λ (r : RollupStats × List Rollup). sum_by (printed c) r.1 + kept c r.0 ≡ kept c s)
      (leb s.next_flush now)
      (record (flush s).0 { next_flush = after_flush + s.interval }, (flush s).1) (s, [])
      (λ _. omega (arith, flush-kept c s, kept-next c (flush s).0 (after_flush + s.interval)))
      λ _. omega arith

clear_refs-kind : (c : Column) (e : CompactEvent) → of_compact c (clear_refs e) ≡ of_compact c e
clear_refs-kind (Column.compact_kind k) (CompactEvent.scroll x) = refl
clear_refs-kind (Column.compact_kind k) (CompactEvent.mouse_trajectory x) = refl
clear_refs-kind (Column.compact_kind k) (CompactEvent.keyboard x) = refl
clear_refs-kind (Column.compact_kind k) (CompactEvent.focus x) = refl
clear_refs-kind Column.all_batches e = refl
clear_refs-kind Column.timeouts e = refl
clear_refs-kind Column.shutdowns e = refl
clear_refs-kind (Column.raw_kind k) e = refl

cleared-kinds :
    (c : Column) (compacts : List CompactEvent)
    → sum_by (of_compact c) (map clear_refs compacts) ≡ sum_by (of_compact c) compacts
cleared-kinds c [] = refl
cleared-kinds c (e ∷ compacts) = omega (arith, clear_refs-kind c e, cleared-kinds c compacts)

store_events-sends :
    (c : Column) (suppress : List ℕ) (events : List RawEvent)
    → sum_by (of_send c) (store_events suppress events) ≡ 0
unfolding store_events
store_events-sends c suppress [] = refl
store_events-sends c suppress (e ∷ events) =
    if_elim (λ l. sum_by (of_send c) l ≡ 0) (should_store suppress e)
      (to_storage (StorageCommand.raw_event e) ∷ store_events suppress events)
      (store_events suppress events) (λ _. omega (arith, store_events-sends c suppress events))
      λ _. store_events-sends c suppress events

forward_raw_events-sends :
    (c : Column) (envelopes : List EventEnvelope) (events : List RawEvent)
    → sum_by (of_send c) (forward_raw_events envelopes events) ≡ 0
unfolding forward_raw_events
forward_raw_events-sends c envelopes events =
    if_elim (λ l. sum_by (of_send c) l ≡ 0) (is_empty events) []
      (store_events (suppressed false envelopes) events) (λ _. refl)
      λ _. store_events-sends c (suppressed false envelopes) events

forward_compact_events-sends :
    (c : Column) (compacts : List CompactEvent)
    → sum_by (of_send c) (forward_compact_events compacts) ≡ sum_by (of_compact c) compacts
unfolding forward_compact_events
forward_compact_events-sends c [] = refl
forward_compact_events-sends c (e ∷ compacts) = omega arith

-- The compact events that are sent are those of the batch.
pub forward_batch-sends :
    (c : Column) (persist : Bool) (envelopes : List EventEnvelope) (events : List RawEvent)
    (compacts : List CompactEvent)
    → sum_by (of_send c) (forward_batch persist envelopes events compacts)
      ≡ sum_by (of_compact c) compacts
unfolding forward_batch clear_raw_event_refs
forward_batch-sends c true envelopes events compacts = omega (
  arith,
  sum_by-append (of_send c) (forward_raw_events envelopes events) (forward_compact_events compacts),
  forward_raw_events-sends c envelopes events,
  forward_compact_events-sends c compacts,
)
forward_batch-sends c false envelopes events compacts =
    forward_compact_events-sends c (map clear_refs compacts) ∙ cleared-kinds c compacts
