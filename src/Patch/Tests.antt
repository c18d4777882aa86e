-- ===== src/Patch/Tests.antt =====
-- The parser on small patches.
use mergecrew.Base.{none, some, [], ◌∷◌, ◌++◌, ◌≡◌, refl, All, Text, codes, same_text, take}
use mergecrew.Patch.{
  add, del, context, DiffHunk, digits, hunk_header, split_lines, push_entry, read_entry, read_lines,
  parse_unified_patch,
}
use mergecrew.Patch.Numbers.{IsCounted, parse_unified_patch-IsCounted}

abbrev untrimmed : Text → Text
untrimmed s = s

-- One line is replaced, and one stays.
abbrev patch : Text
patch = codes "@@ -7,2 +7,2 @@ f" ++ 10 ∷ codes "-old" ++ 10 ∷ codes "+new" ++ 10 ∷ codes " kept"

abbrev hunk : DiffHunk
hunk = record {
  old_start = 7;
  old_lines = 2;
  new_start = 7;
  new_lines = 2;
  header = codes " f";
  lines =
      record { type = del; old_line = some 7; new_line = none; content = codes "old" }
      ∷ record { type = add; old_line = none; new_line = some 7; content = codes "new" }
      ∷ record { type = context; old_line = some 8; new_line = some 8; content = codes "kept" }
      ∷ [];
}

patch_read : parse_unified_patch untrimmed (some patch) ≡ hunk ∷ []
unfolding parse_unified_patch split_lines read_lines hunk_header digits read_entry push_entry
    same_text take
patch_read = refl

parse_unified_patch-IsCounted_example : All IsCounted (parse_unified_patch untrimmed (some patch))
parse_unified_patch-IsCounted_example = parse_unified_patch-IsCounted untrimmed (some patch)

-- A carriage return at the end of the heading hides the header, and the hunk with it.
abbrev patch_of_crlf : Text
patch_of_crlf = codes "@@ -7 +7 @@ f" ++ 13 ∷ 10 ∷ codes "-old"

hunk_lost : parse_unified_patch untrimmed (some patch_of_crlf) ≡ []
unfolding parse_unified_patch split_lines read_lines hunk_header digits
hunk_lost = refl
