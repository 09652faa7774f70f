-- ===== src/Examples/Listed.antt =====
-- The log commands at concrete inputs: a directory with two log files.
use kronical.Prelude.Sort.{sort_by}
use kronical.Prelude.{
  ◌≡◌, refl, true, false, none, some, List, [], ◌∷◌, All, arith, map, if◌then◌else◌, ◌==◌,
}
use kronical.Prelude.Int.{negsuc}
use kronical.Prelude.Text.{codes}
use kronical.Logs.{LogEntry, Result, SelectError, ◌>>=◌, Returns}
use kronical.Logs.Chars.{
  trim, split, is_whitespace, parse_isize, read_digits, read_number, trim_start,
}
use kronical.Logs.Selection.{
  non_empty, parse_selection, contains, counting, find_dash, normalize_index, push_all, push_unique,
  range, resolve_index, select_tokens, trim_parens, trim_wrapping_parens,
}
use kronical.Logs.Entries.{
  DirEntry, collect_log_entries, list_logs, show_logs, heading, files_of, number_from, older,
}
use kronical.Logs.Listing.{Resolves, list_logs-Resolves}
use kronical.Logs.Selected.{once, all_indices, parse_selection-once}
use kronical.Logs.Shown.{IsShow, show_logs-IsShow}
use kronical.Logs.Labels.{ReadsAs, heading-ReadsAs}

abbrev newer : DirEntry
newer = record {
  path = codes "b" ∷ [];
  canonical = none;
  metadata = some (record { is_file = true; modified = some 9; len = 4 });
}

abbrev older_file : DirEntry
older_file = record {
  path = codes "a" ∷ [];
  canonical = none;
  metadata = some (record { is_file = true; modified = some 5; len = 2 });
}

abbrev folder : DirEntry
folder = record {
  path = codes "c" ∷ [];
  canonical = none;
  metadata = some (record { is_file = false; modified = some 7; len = 0 });
}

abbrev logs : List LogEntry
logs =
    record { index = 0; path = codes "a" ∷ []; modified = 5; size = 2 }
    ∷ record { index = 1; path = codes "b" ∷ []; modified = 9; size = 4 }
    ∷ []

collected :
    collect_log_entries true (some (some newer ∷ some folder ∷ some older_file ∷ [])) ≡ some logs
unfolding collect_log_entries files_of number_from sort_by older
collected = refl

list_logs-Resolves_example : All (Resolves logs) (list_logs true logs)
list_logs-Resolves_example =
    list_logs-Resolves true true (some (some newer ∷ some folder ∷ some older_file ∷ [])) logs
      collected (omega arith)

-- The tests of the source.
ranges :
    (parse_selection (codes "0,2,3") 5 ≡ Result.ok (0 ∷ 2 ∷ 3 ∷ []))
    × (parse_selection (codes "1-(-1)") 5 ≡ Result.ok (1 ∷ 2 ∷ 3 ∷ 4 ∷ []))
    × (parse_selection (codes "3-1") 5 ≡ Result.ok (3 ∷ 2 ∷ 1 ∷ []))
    × (parse_selection (codes "0,1,1,-1") 4 ≡ Result.ok (0 ∷ 1 ∷ 3 ∷ []))
unfolding parse_selection select_tokens non_empty split trim_start is_whitespace find_dash
    resolve_index parse_isize trim_wrapping_parens trim_parens read_number read_digits
    normalize_index push_unique contains push_all range counting
ranges = (refl, refl, refl, refl)

out_of_range :
    (parse_selection (codes "5") 3 ≡ Result.err (SelectError.past_last 5 2))
    × (parse_selection (codes "-7") 3 ≡ Result.err (SelectError.before_first (negsuc 6) 3))
unfolding parse_selection select_tokens non_empty split trim_start is_whitespace find_dash
    resolve_index parse_isize trim_wrapping_parens trim_parens read_number read_digits
    normalize_index
out_of_range = (refl, refl)

parse_selection-once_example : parse_selection (codes "1-0,1") 2 ≡ (
    if 2 == 0
    then Result.ok []
    else all_indices 2 (non_empty (map trim (split b',' (codes "1-0,1")))) >>= λ l.
        Result.ok (once l))
parse_selection-once_example = parse_selection-once (codes "1-0,1") 2

show_logs-IsShow_example : Returns (IsShow logs) (show_logs logs (codes "1-0,1"))
show_logs-IsShow_example = show_logs-IsShow logs (codes "1-0,1")

abbrev second_log : LogEntry
second_log = record { index = 1; path = codes "b" ∷ []; modified = 9; size = 4 }

heading-ReadsAs_example :
    let (index, from_end) = heading second_log logs in
    ReadsAs 2 index (Result.ok 1) × ReadsAs 2 from_end (Result.ok 1)
heading-ReadsAs_example = heading-ReadsAs second_log logs (omega arith) (omega arith)
