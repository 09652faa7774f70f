-- ===== src/Pipeline/Compress/Stats.antt =====
-- `RawEventStats`, `CompactEventStats` and `RollupStats` (src/daemon/pipeline/compression.rs): the
-- counts that the stage logs. Counts are `usize` and `u64`; instants and the interval are
-- nanoseconds. `flush` returns what it logs.
use kronical.Prelude.{ℕ, ◌+◌, ◌%◌, ◌^◌, ◌≡◌, refl, List, [], ◌∷◌, arith, leb, ◌==◌, if◌then◌else◌}
use kronical.Compression.{CompactEvent}
use kronical.Events.{RawEvent}
use kronical.Pipeline.{FlushReason}

abbrev pub word : ℕ
word = 2 ^ 64

pub record RawEventStats : Type 0 where
  pub total : ℕ
  pub keyboard : ℕ
  pub mouse : ℕ
  pub focus : ℕ

abbrev pub no_raw : RawEventStats
no_raw = record { total = 0; keyboard = 0; mouse = 0; focus = 0 }

abbrev pub count_raw : RawEventStats → RawEvent → RawEventStats
count_raw s (RawEvent.keyboard_input _ _ _) = record s {
  total = (s.total + 1) % word;
  keyboard = (s.keyboard + 1) % word;
}
count_raw s (RawEvent.mouse_input _ _ _) = record s {
  total = (s.total + 1) % word;
  mouse = (s.mouse + 1) % word;
}
count_raw s (RawEvent.window_focus_change _ _ _) = record s {
  total = (s.total + 1) % word;
  focus = (s.focus + 1) % word;
}

abbrev pub count_all_raw : RawEventStats → List RawEvent → RawEventStats
count_all_raw s [] = s
count_all_raw s (e ∷ events) = count_all_raw (count_raw s e) events

unfoldable pub raw_stats : List RawEvent → RawEventStats
raw_stats events = count_all_raw no_raw events

pub record CompactEventStats : Type 0 where
  pub total : ℕ
  pub scroll : ℕ
  pub mouse_traj : ℕ
  pub keyboard : ℕ
  pub focus : ℕ

abbrev pub no_compact : CompactEventStats
no_compact = record { total = 0; scroll = 0; mouse_traj = 0; keyboard = 0; focus = 0 }

abbrev pub count_compact : CompactEventStats → CompactEvent → CompactEventStats
count_compact s (CompactEvent.scroll _) = record s {
  total = (s.total + 1) % word;
  scroll = (s.scroll + 1) % word;
}
count_compact s (CompactEvent.mouse_trajectory _) = record s {
  total = (s.total + 1) % word;
  mouse_traj = (s.mouse_traj + 1) % word;
}
count_compact s (CompactEvent.keyboard _) = record s {
  total = (s.total + 1) % word;
  keyboard = (s.keyboard + 1) % word;
}
count_compact s (CompactEvent.focus _) = record s {
  total = (s.total + 1) % word;
  focus = (s.focus + 1) % word;
}

abbrev pub count_all_compact : CompactEventStats → List CompactEvent → CompactEventStats
count_all_compact s [] = s
count_all_compact s (e ∷ events) = count_all_compact (count_compact s e) events

unfoldable pub compact_stats : List CompactEvent → CompactEventStats
compact_stats events = count_all_compact no_compact events

-- `by_reason`, a map of two keys: the counts of both, 0 where the key is missing.
pub record ByReason : Type 0 where
  pub timeout : ℕ
  pub shutdown : ℕ

pub record RollupStats : Type 0 where
  pub interval : ℕ
  pub next_flush : ℕ
  pub batches : ℕ
  pub raw : RawEventStats
  pub compact : CompactEventStats
  pub by_reason : ByReason

unfoldable pub new : ℕ → ℕ → RollupStats
new interval now = record {
  interval = interval;
  next_flush = now + interval;
  batches = 0;
  raw = no_raw;
  compact = no_compact;
  by_reason = record { timeout = 0; shutdown = 0 };
}

abbrev pub add_raw : RawEventStats → RawEventStats → RawEventStats
add_raw a b = record {
  total = (a.total + b.total) % word;
  keyboard = (a.keyboard + b.keyboard) % word;
  mouse = (a.mouse + b.mouse) % word;
  focus = (a.focus + b.focus) % word;
}

abbrev pub add_compact : CompactEventStats → CompactEventStats → CompactEventStats
add_compact a b = record {
  total = (a.total + b.total) % word;
  scroll = (a.scroll + b.scroll) % word;
  mouse_traj = (a.mouse_traj + b.mouse_traj) % word;
  keyboard = (a.keyboard + b.keyboard) % word;
  focus = (a.focus + b.focus) % word;
}

abbrev pub one_more : ByReason → FlushReason → ByReason
one_more m FlushReason.timeout = record m { timeout = (m.timeout + 1) % word }
one_more m FlushReason.shutdown = record m { shutdown = (m.shutdown + 1) % word }

unfoldable pub add_batch :
    RollupStats → FlushReason → RawEventStats → CompactEventStats → RollupStats
add_batch s reason raw compact = record s {
  batches = (s.batches + 1) % word;
  raw = add_raw s.raw raw;
  compact = add_compact s.compact compact;
  by_reason = one_more s.by_reason reason;
}

-- The numbers of the line that `flush` logs.
pub record Rollup : Type 0 where
  pub batches : ℕ
  pub timeout : ℕ
  pub shutdown : ℕ
  pub raw_focus : ℕ
  pub raw_keyboard : ℕ
  pub raw_mouse : ℕ
  pub compact_focus : ℕ
  pub compact_keyboard : ℕ
  pub compact_scroll : ℕ
  pub compact_mouse_traj : ℕ

unfoldable pub flush : RollupStats → RollupStats × List Rollup
flush s = if s.batches == 0 then (s, []) else (
  record s {
    batches = 0;
    raw = no_raw;
    compact = no_compact;
    by_reason = record { timeout = 0; shutdown = 0 };
  },
  record {
    batches = s.batches;
    timeout = s.by_reason.timeout;
    shutdown = s.by_reason.shutdown;
    raw_focus = s.raw.focus;
    raw_keyboard = s.raw.keyboard;
    raw_mouse = s.raw.mouse;
    compact_focus = s.compact.focus;
    compact_keyboard = s.compact.keyboard;
    compact_scroll = s.compact.scroll;
    compact_mouse_traj = s.compact.mouse_traj;
  }
      ∷ [],
)

-- With the reading of the clock before the test and, where it flushes, the one after.
unfoldable pub maybe_flush : RollupStats → ℕ → ℕ → RollupStats × List Rollup
unfolding flush
maybe_flush s now after_flush =
    let (flushed, line) = flush s in
    if leb s.next_flush now
    then (record flushed { next_flush = after_flush + s.interval }, line)
    else (s, [])

-- The total of each count is the sum of its kinds, on 64 bits.
pub record IsBalanced (s : RollupStats) : Type 0 where
  pub raw : s.raw.total ≡ (s.raw.keyboard + s.raw.mouse + s.raw.focus) % word
  pub compact :
      s.compact.total
      ≡ (s.compact.scroll + s.compact.mouse_traj + s.compact.keyboard + s.compact.focus) % word
  pub batches : s.batches ≡ (s.by_reason.timeout + s.by_reason.shutdown) % word

count_all_raw-balanced :
    (s : RawEventStats) (events : List RawEvent)
    → s.total ≡ (s.keyboard + s.mouse + s.focus) % word
    → let t = count_all_raw s events in t.total ≡ (t.keyboard + t.mouse + t.focus) % word
count_all_raw-balanced s [] h = h
count_all_raw-balanced s (RawEvent.keyboard_input a b c ∷ events) h =
    count_all_raw-balanced (count_raw s (RawEvent.keyboard_input a b c)) events (omega arith)
count_all_raw-balanced s (RawEvent.mouse_input a b c ∷ events) h =
    count_all_raw-balanced (count_raw s (RawEvent.mouse_input a b c)) events (omega arith)
count_all_raw-balanced s (RawEvent.window_focus_change a b c ∷ events) h =
    count_all_raw-balanced (count_raw s (RawEvent.window_focus_change a b c)) events (omega arith)

count_all_compact-balanced :
    (s : CompactEventStats) (events : List CompactEvent)
    → s.total ≡ (s.scroll + s.mouse_traj + s.keyboard + s.focus) % word
    → let t = count_all_compact s events in
      t.total ≡ (t.scroll + t.mouse_traj + t.keyboard + t.focus) % word
count_all_compact-balanced s [] h = h
count_all_compact-balanced s (CompactEvent.scroll x ∷ events) h =
    count_all_compact-balanced (count_compact s (CompactEvent.scroll x)) events (omega arith)
count_all_compact-balanced s (CompactEvent.mouse_trajectory x ∷ events) h =
    count_all_compact-balanced (count_compact s (CompactEvent.mouse_trajectory x)) events
      (omega arith)
count_all_compact-balanced s (CompactEvent.keyboard x ∷ events) h =
    count_all_compact-balanced (count_compact s (CompactEvent.keyboard x)) events (omega arith)
count_all_compact-balanced s (CompactEvent.focus x ∷ events) h =
    count_all_compact-balanced (count_compact s (CompactEvent.focus x)) events (omega arith)

pub add_batch-IsBalanced :
    (s : RollupStats) (reason : FlushReason) (events : List RawEvent) (compacts : List CompactEvent)
    → IsBalanced s
    → IsBalanced (add_batch s reason (raw_stats events) (compact_stats compacts))
unfolding add_batch raw_stats compact_stats
add_batch-IsBalanced s FlushReason.timeout events compacts h = record {
  raw = omega (arith, h.raw, count_all_raw-balanced no_raw events refl);
  compact = omega (arith, h.compact, count_all_compact-balanced no_compact compacts refl);
  batches = omega (arith, h.batches);
}
add_batch-IsBalanced s FlushReason.shutdown events compacts h = record {
  raw = omega (arith, h.raw, count_all_raw-balanced no_raw events refl);
  compact = omega (arith, h.compact, count_all_compact-balanced no_compact compacts refl);
  batches = omega (arith, h.batches);
}
