-- ===== src/Changes/Chip.antt =====
-- apps/runner/src/risk-chip.ts. `sensitive path` is the answer of the path patterns; the fields of a file
-- that may be missing count 0, as the source counts them.
use mergecrew.Base.{
  ℕ, ◌+◌, ◌≤◌, String, Option, some, List, [], ◌∷◌, ◌++◌, Bool, true, ◌&&◌, ◌||◌, ◌≡◌, arith,
  if◌then◌else◌, ltb, leb, length, any, get_or_else, length-append, lt→ltb, ltb→lt,
}
use mergecrew.Changes.{ChangesetFile, lines_from, sum_lines}

pub data RiskLevel : Type 0 where
  low medium high : RiskLevel

abbrev pub large_diff_lines : ℕ
large_diff_lines = 500

abbrev pub large_diff_files : ℕ
large_diff_files = 20

abbrev pub medium_diff_lines : ℕ
medium_diff_lines = 100

abbrev pub medium_diff_files : ℕ
medium_diff_files = 5

abbrev big : ℕ → ℕ → Bool
big lines files = leb large_diff_lines lines || leb large_diff_files files

abbrev mid : ℕ → ℕ → Bool
mid lines files = leb medium_diff_lines lines || leb medium_diff_files files

unfoldable pub level_of : Bool → Bool → ℕ → ℕ → RiskLevel
level_of touches failed lines files =
    if touches
    then high
    else if failed && (big lines files || mid lines files)
    then high
    else if failed
    then medium
    else if big lines files
    then high
    else if mid lines files
    then medium
    else low

abbrev touches_sensitive_path : (String → Bool) → List ChangesetFile → Bool
touches_sensitive_path sensitive files = any (λ f. sensitive f.path) files

-- The test summary's `failed`, 0 where it is missing.
unfoldable pub compute_risk_chip : (String → Bool) → List ChangesetFile → Option ℕ → RiskLevel
unfolding level_of
compute_risk_chip sensitive files failed =
    level_of (touches_sensitive_path sensitive files) (ltb 0 (get_or_else failed 0))
      (sum_lines files) (length files)

abbrev pub rank : RiskLevel → ℕ
rank low = 0
rank medium = 1
rank high = 2

level_of_mono :
    (t u f g : Bool) (m n i j : ℕ)
    → (t ≡ true → u ≡ true)
    → (f ≡ true → g ≡ true)
    → m ≤ n
    → i ≤ j
    → rank (level_of t f m i) ≤ rank (level_of u g n j)
unfolding level_of
level_of_mono t u f g m n i j a b c d = ground arith

any-append {ℓ} :
    {A : Type ℓ} (p : A → Bool) (xs ys : List A) → any p xs ≡ true → any p (xs ++ ys) ≡ true
any-append p [] ys h = ground arith
any-append p (x ∷ xs) ys h = ground (arith, any-append p xs ys)

lines_from-grows : (acc : ℕ) (fs : List ChangesetFile) → acc ≤ lines_from acc fs
unfolding lines_from
lines_from-grows acc [] = omega arith
lines_from-grows acc (f ∷ fs) = omega (arith, lines_from-grows (acc + f.additions + f.deletions) fs)

lines_from-le :
    (acc : ℕ) (fs gs : List ChangesetFile) → lines_from acc fs ≤ lines_from acc (fs ++ gs)
unfolding lines_from
lines_from-le acc [] gs = lines_from-grows acc gs
lines_from-le acc (f ∷ fs) gs = lines_from-le (acc + f.additions + f.deletions) fs gs

-- The chip never falls when files are added or tests start to fail.
pub compute_risk_chip_mono :
    (sensitive : String → Bool) (files more : List ChangesetFile) (failed failed' : ℕ)
    → failed ≤ failed'
    → rank (compute_risk_chip sensitive files (some failed))
      ≤ rank (compute_risk_chip sensitive (files ++ more) (some failed'))
unfolding compute_risk_chip
compute_risk_chip_mono sensitive files more failed failed' h =
    level_of_mono _ _ _ _ _ _ _ _ (any-append (λ f. sensitive f.path) files more)
      (λ e. lt→ltb 0 failed' (ground (arith, ltb→lt 0 failed e, h))) (lines_from-le 0 files more)
      (ground (arith, length-append files more))
