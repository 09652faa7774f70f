-- ===== src/Monitor/Labels.antt =====
-- How the monitor labels a group of windows (src/bin/kronictl.rs, `group_label_for_display`).
use kronical.Prelude.{Option, none, some, List, [], ◌∷◌, ◌==◌, is_empty, if◌then◌else◌}
use kronical.Prelude.Text.{codes}
use kronical.Logs.Chars.{Text, trim, trim_start, split}

-- `str::strip_prefix`.
unfoldable pub strip_prefix : Text → Text → Option Text
strip_prefix [] s = some s
strip_prefix (p ∷ prefix) [] = none
strip_prefix (p ∷ prefix) (c ∷ s) =
    let rest = strip_prefix prefix s in if p == c then rest else none

abbrev trimmed_rest : Option Text → Option Text
trimmed_rest none = none
trimmed_rest (some rest) = some (trim_start rest)

unfoldable pub strip_group_prefix : Text → Text → Option Text
strip_group_prefix title canonical =
    let prefix = trim canonical in
    if is_empty prefix then none else trimmed_rest (strip_prefix prefix title)

-- `rest.split(':').next().unwrap_or(rest)`.
abbrev first_part : Text → List Text → Text
first_part rest [] = rest
first_part rest (part ∷ parts) = part

abbrev temporal_key : Option Text → Option Text
temporal_key none = none
temporal_key (some rest) = some (first_part rest (split b':' rest))

abbrev or_temporal : Text → Option Text → Option Text
or_temporal window_id none = temporal_key (strip_prefix (codes "group-temporal:") window_id)
or_temporal window_id (some rest) = some rest

unfoldable pub canonical_of : Text → Option Text
canonical_of window_id = or_temporal window_id (strip_prefix (codes "group:") window_id)

abbrev or_title : Text → Option Text → Text
or_title title none = title
or_title title (some rest) = rest

abbrev label_of : Text → Option Text → Text
label_of window_title none = window_title
label_of window_title (some key) = or_title window_title (strip_group_prefix window_title key)

unfoldable pub group_label_for_display : Text → Text → Text
group_label_for_display window_id window_title =
    let label = trim_start (label_of window_title (canonical_of window_id)) in
    if is_empty label then window_title else label
