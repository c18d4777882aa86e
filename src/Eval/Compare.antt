-- ===== src/Eval/Compare.antt =====
-- `compareSnapshot` of packages/eval-fixtures/src/compare.ts. A threshold and an overlap are fractions of natural
-- numbers, compared exactly.
use mergecrew.Base.{
  is_digit, is_word, is_space, is_empty, trim, ℕ, ◌*◌, Option, none, some, List, [], ◌∷◌, ◌++◌,
  Bool, false, not, ltb, if◌then◌else◌, any, find, map, keep, count_of, length, get_or_else, Text,
  codes, same_text,
}
use mergecrew.Eval.{FileDiff, parse_diff}

pub record FixtureTolerances : Type 0 where
  pub ignore_local_renames : Bool
  pub ignore_whitespace_only : Bool

pub record Fraction : Type 0 where
  pub num : ℕ
  pub den : ℕ

pub record CompareOptions : Type 0 where
  pub tolerances : FixtureTolerances
  pub required_files : Option (List Text)
  pub overlap_threshold : Option Fraction

pub data SnapshotMismatch : Type 0 where
  missing_required_file unexpected_file untouched_expected_file : Text → SnapshotMismatch
  low_overlap : Text → Fraction → Fraction → SnapshotMismatch

pub record SnapshotResult : Type 0 where
  pub pass : Bool
  pub mismatches : List SnapshotMismatch
  pub per_file_overlap : List (Text × Fraction)

-- `s.replace(/\s+/g, ' ')`; the flag says that the last character was a blank.
unfoldable pub collapse : Bool → Text → Text
collapse blank [] = []
collapse blank (c ∷ s) =
    let rest = collapse (is_space c) s in
    if is_space c then (if blank then rest else 32 ∷ rest) else c ∷ rest

-- Where the replacement of `\b[A-Za-z_][A-Za-z0-9_]*\b` stands: between words, in a name, or in a word that begins with a digit.
pub data Word : Type 0 where
  outside name other : Word

abbrev next_word : Word → ℕ → Word
next_word outside c = if is_word c then (if is_digit c then other else name) else outside
next_word name c = if is_word c then name else outside
next_word other c = if is_word c then other else outside

abbrev written : Word → Word → ℕ → Text
written outside name c = codes "IDENT"
written name name c = []
written _ _ c = c ∷ []

unfoldable pub rename : Word → Text → Text
rename w [] = []
rename w (c ∷ s) = let next = next_word w c in written w next c ++ rename next s

unfoldable pub normalize : FixtureTolerances → Text → Text
normalize t line =
    let s = if t.ignore_whitespace_only then trim (collapse false line) else line in
    if t.ignore_local_renames then rename outside s else s

abbrev pub includes : List Text → Text → Bool
includes xs x = any (λ y. same_text y x) xs

-- `new Set(xs)`, of which `has` and `size` are used.
unfoldable pub set_of : List Text → List Text
set_of [] = []
set_of (x ∷ xs) = let rest = set_of xs in if includes rest x then rest else x ∷ rest

unfoldable pub normalized : FixtureTolerances → List Text → List Text
normalized t lines = keep (λ l. not (is_empty l)) (map (normalize t) lines)

abbrev pub one : Fraction
one = record { num = 1; den = 1 }

abbrev pub hits : List Text → List Text → ℕ
hits expected actual = count_of (includes expected) actual

abbrev pub overlap_of : List Text → List Text → Fraction
overlap_of actual [] = one
overlap_of actual (e ∷ es) = record { num = hits (e ∷ es) actual; den = length (e ∷ es) }

unfoldable pub overlap : List Text → List Text → FixtureTolerances → Fraction
overlap actual expected t =
    if is_empty expected
    then one
    else overlap_of (normalized t actual) (set_of (normalized t expected))

abbrev pub is_less : Fraction → Fraction → Bool
is_less a b = ltb (a.num * b.den) (b.num * a.den)

abbrev pub added_of : Option FileDiff → List Text
added_of none = []
added_of (some f) = f.added

abbrev pub added_in : List FileDiff → Text → List Text
added_in files path = added_of (find (λ f. same_text f.path path) files)

-- What the loop over the expected files adds for one path.
abbrev pub is_missing : Text → SnapshotMismatch → Bool
is_missing path (missing_required_file p) = same_text p path
is_missing path _ = false

pub record Comparison : Type 0 where
  pub mismatches : List SnapshotMismatch
  pub overlaps : List (Text × Fraction)

abbrev pub paths_of : List FileDiff → List Text
paths_of files = map (λ f. f.path) files

module _ (t : FixtureTolerances) (threshold : Fraction) (actual expected : List FileDiff) where
  abbrev pub compare_touched : Text → Comparison → Comparison
  compare_touched path k =
      let o = overlap (added_in actual path) (added_in expected path) t in
      record {
        mismatches =
            if is_less o threshold
            then k.mismatches ++ low_overlap path o threshold ∷ []
            else k.mismatches;
        overlaps = k.overlaps ++ (path, o) ∷ [];
      }

  abbrev pub compare_untouched : Text → Comparison → Comparison
  compare_untouched path k =
      if any (is_missing path) k.mismatches
      then k
      else record k { mismatches = k.mismatches ++ untouched_expected_file path ∷ [] }

  unfoldable pub compare_file : Text → Comparison → Comparison
  compare_file path k =
      if includes (paths_of actual) path then compare_touched path k else compare_untouched path k

  unfoldable pub compare_all : List Text → Comparison → Comparison
  compare_all [] k = k
  compare_all (p ∷ ps) k = compare_all ps (compare_file p k)

abbrev pub unlisted : List Text → List Text → List Text
unlisted listed paths = keep (λ p. not (includes listed p)) paths

abbrev pub half : Fraction
half = record { num = 1; den = 2 }

unfoldable pub compare_parsed : CompareOptions → List FileDiff → List FileDiff → SnapshotResult
compare_parsed options actual expected =
    let required = get_or_else options.required_files (paths_of expected) in
    let threshold = get_or_else options.overlap_threshold half in
    let start : Comparison = record {
      mismatches = map missing_required_file (unlisted (paths_of actual) required);
      overlaps = [];
    } in
    let looped =
      compare_all options.tolerances threshold actual expected (paths_of expected) start in
    let mismatches =
      looped.mismatches ++ map unexpected_file (unlisted (paths_of expected) (paths_of actual)) in
    record {
      pass = is_empty mismatches;
      mismatches = mismatches;
      per_file_overlap = looped.overlaps;
    }

unfoldable pub compare_snapshot : Text → Text → CompareOptions → SnapshotResult
compare_snapshot agent_diff expected_diff options =
    compare_parsed options (parse_diff agent_diff) (parse_diff expected_diff)
