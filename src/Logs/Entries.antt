-- ===== src/Logs/Entries.antt =====
-- The log files and the commands on them (src/bin/kronictl/log_cli.rs): what is collected, listed, shown and
-- filtered. A path is its components, a time the nanoseconds since the epoch (no file is older).
use kronical.Prelude.{
  ℕ, zero, suc, ◌+◌, ◌-◌, ◌*◌, min, Bool, true, false, Option, none, some, List, [], ◌∷◌, ltb, leb,
  ◌==◌, length, if◌then◌else◌,
}
use mathlib.Core.List.{reverse}
use kronical.Prelude.Int.{ℤ, pos, negsuc}
use kronical.Prelude.Sort.{sort_by}
use kronical.Time.{second}
use kronical.Logs.{LogEntry, Result, ◌>>=◌}
use kronical.Logs.Chars.{Text, display_usize, display_isize}
use kronical.Logs.Selection.{parse_selection, neg_index}

-- What the file system says of an entry of the directory.
pub record Metadata : Type 0 where
  pub is_file : Bool
  pub modified : Option ℕ
  pub len : ℕ

pub record DirEntry : Type 0 where
  pub path : List Text
  pub canonical : Option (List Text)
  pub metadata : Option Metadata

abbrev pub unwrap_or {ℓ} : {A : Type ℓ} → A → Option A → A
unwrap_or a none = a
unwrap_or a (some b) = b

abbrev pub entry_of : DirEntry → Metadata → LogEntry
entry_of e m = record {
  index = 0;
  path = unwrap_or e.path e.canonical;
  modified = unwrap_or 0 m.modified;
  size = m.len;
}

-- The files among the entries; one that cannot be read fails the whole.
abbrev pub add_entry : DirEntry → Option Metadata → Option (List LogEntry) → Option (List LogEntry)
add_entry e m none = none
add_entry e none (some entries) = some entries
add_entry e (some m) (some entries) =
    if m.is_file then some (entry_of e m ∷ entries) else some entries

unfoldable pub files_of : List (Option DirEntry) → Option (List LogEntry)
files_of [] = some []
files_of (none ∷ rest) = none
files_of (some e ∷ rest) = add_entry e e.metadata (files_of rest)

-- `Ord` of a text, then of a path.
abbrev pub le_text : Text → Text → Bool
le_text [] t = true
le_text (a ∷ s) [] = false
le_text (a ∷ s) (b ∷ t) = let rest = le_text s t in if a == b then rest else ltb a b

abbrev pub same_text : Text → Text → Bool
same_text [] [] = true
same_text (a ∷ s) (b ∷ t) = let rest = same_text s t in if a == b then rest else false
same_text _ _ = false

abbrev pub le_path : List Text → List Text → Bool
le_path [] t = true
le_path (a ∷ s) [] = false
le_path (a ∷ s) (b ∷ t) = let rest = le_path s t in if same_text a b then rest else le_text a b

unfoldable pub older : LogEntry → LogEntry → Bool
older a b = if a.modified == b.modified then le_path a.path b.path else ltb a.modified b.modified

unfoldable pub number_from : ℕ → List LogEntry → List LogEntry
number_from n [] = []
number_from n (e ∷ entries) = record e { index = n } ∷ number_from (n + 1) entries

abbrev pub numbered : Option (List LogEntry) → Option (List LogEntry)
numbered none = none
numbered (some entries) = some (number_from 0 (sort_by older entries))

-- The entries of a directory that cannot be opened are `none`.
unfoldable pub collect_log_entries : Bool → Option (List (Option DirEntry)) → Option (List LogEntry)
collect_log_entries false dir = some []
collect_log_entries true none = none
collect_log_entries true (some dir) = numbered (files_of dir)

-- `list_logs`: the index in front of each line.
unfoldable pub rows_from : Bool → ℕ → List LogEntry → List (ℤ × LogEntry)
rows_from reversed position [] = []
rows_from reversed position (e ∷ entries) =
    let rest = rows_from reversed (position + 1) entries in
    (if reversed then negsuc position else pos e.index, e) ∷ rest

unfoldable pub list_logs : Bool → List LogEntry → List (ℤ × LogEntry)
list_logs reversed entries = rows_from reversed 0 (if reversed then reverse entries else entries)

-- `entries[idx]` panics past the end.
unfoldable pub entry_at : List LogEntry → ℕ → Option LogEntry
entry_at [] n = none
entry_at (e ∷ entries) zero = some e
entry_at (e ∷ entries) (suc n) = entry_at entries n

abbrev pub and_entry : Option LogEntry → Option (List LogEntry) → Option (List LogEntry)
and_entry (some e) (some es) = some (e ∷ es)
and_entry _ _ = none

unfoldable pub entries_at : List LogEntry → List ℕ → Option (List LogEntry)
entries_at entries [] = some []
entries_at entries (i ∷ selected) = and_entry (entry_at entries i) (entries_at entries selected)

-- `show_logs`: the entries that are shown, with `none` for a panic.
unfoldable pub show_logs : List LogEntry → Text → Result (Option (List LogEntry))
show_logs [] selection = Result.ok (some [])
show_logs (e ∷ es) selection = parse_selection selection (length (e ∷ es)) >>= λ selected.
    Result.ok (entries_at (e ∷ es) selected)

-- `filter_logs`: the entries of the last hours. A start before the epoch is as good as the epoch.
unfoldable pub retain : ℕ → List LogEntry → List LogEntry
retain cutoff [] = []
retain cutoff (e ∷ entries) =
    let rest = retain cutoff entries in if leb cutoff e.modified then e ∷ rest else rest

unfoldable pub filter_logs : ℕ → ℕ → List LogEntry → List LogEntry
filter_logs now hours entries =
    retain (now - min (hours * 3600) 0xFFFF_FFFF_FFFF_FFFF * second) entries

-- The numbers above a file that is shown, `[index|index from the end]`.
abbrev pub heading : LogEntry → List LogEntry → Text × Text
heading e entries = (display_usize e.index, display_isize (neg_index e.index (length entries)))
