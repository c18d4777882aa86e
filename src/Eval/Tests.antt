-- ===== src/Eval/Tests.antt =====
-- Comparisons of small diffs.
use mergecrew.Base.{
  is_space, trim_end, trim_start, none, [], ◌∷◌, ◌++◌, true, false, ◌≡◌, ◌↔◌, refl, arith, Text,
  codes, same_text, take, drop,
}
use mergecrew.Patch.{split_lines}
use mergecrew.Eval.{
  FileDiff, lazy_path, after_blanks, open_file, push_added, push_removed, scan_line, scan_lines,
  parse_diff,
}
use mergecrew.Eval.Compare.{
  CompareOptions, FixtureTolerances, collapse, rename, normalize, set_of, normalized, overlap,
  compare_file, compare_all, compare_parsed, compare_snapshot,
}
use mergecrew.Eval.Accepts.{IsAccepted, compare_snapshot-pass_iff}
use mergecrew.Eval.Same.{compare_snapshot-same}

abbrev tolerant : FixtureTolerances
tolerant = record { ignore_local_renames = true; ignore_whitespace_only = true }

abbrev strict : CompareOptions
strict = record {
  tolerances = record { ignore_local_renames = false; ignore_whitespace_only = false };
  required_files = none;
  overlap_threshold = none;
}

-- A file of which a line is replaced by others.
abbrev header : Text
header = codes "--- a/f" ++ 10 ∷ codes "+++ b/f" ++ 10 ∷ codes "@@" ++ 10 ∷ codes "-x"

abbrev diff : Text
diff = header ++ 10 ∷ codes "+y"

abbrev padded : Text
padded = header ++ 10 ∷ codes "+y" ++ 10 ∷ codes "+p" ++ 10 ∷ codes "+q"

abbrev file : FileDiff
file = record { path = codes "f"; added = codes "y" ∷ []; removed = codes "x" ∷ [] }

diff_parsed : parse_diff diff ≡ file ∷ []
unfolding parse_diff split_lines scan_lines scan_line is_space trim_end trim_start lazy_path
    after_blanks open_file push_added push_removed same_text take drop
diff_parsed = refl

-- Names are told from numbers, and blanks at the end are lost.
line_normalized : normalize tolerant (codes "  let  x1 = 2a; ") ≡ codes "IDENT IDENT = 2a;"
unfolding normalize collapse rename is_space trim_end trim_start
line_normalized = refl

-- One of three lines that the agent adds is expected, and the diff passes by the default threshold, a half.
padded_passes : (compare_snapshot padded diff strict).pass ≡ true
unfolding parse_diff split_lines scan_lines scan_line is_space trim_end trim_start lazy_path
    after_blanks open_file push_added push_removed same_text take drop compare_snapshot
    compare_parsed compare_all compare_file overlap normalized set_of normalize
padded_passes = refl

compare_snapshot-same_example : (compare_snapshot diff diff strict).pass ≡ true
unfolding parse_diff split_lines scan_lines scan_line is_space trim_end trim_start lazy_path
    after_blanks open_file push_added push_removed same_text take drop
compare_snapshot-same_example = compare_snapshot-same diff strict ((refl, tt), omega arith)

compare_snapshot-pass_iff_example :
    ((compare_snapshot padded diff strict).pass ≡ true)
    ↔ IsAccepted strict (parse_diff padded) (parse_diff diff)
compare_snapshot-pass_iff_example = compare_snapshot-pass_iff padded diff strict
