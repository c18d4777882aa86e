-- ===== src/Runner/Summary.antt =====
-- apps/runner/src/test-summary.ts: `mergeIntoSummary`. The counts come from `parseTestOutput`, whose regular expressions are
-- left out.
pub mod Again
use mergecrew.Base.{
  ℕ, ◌+◌, String, Option, none, some, List, [], ◌∷◌, ◌++◌, Bool, not, str_eq, keep, get_or_else,
}

pub record ParsedCounts : Type 0 where
  pub passed : ℕ
  pub failed : ℕ
  pub skipped : ℕ
  pub duration_ms : ℕ

pub record TestSuite : Type 0 where
  pub name : String
  pub passed : ℕ
  pub failed : ℕ

pub record TestSummary : Type 0 where
  pub passed : ℕ
  pub failed : ℕ
  pub skipped : ℕ
  pub duration_ms : ℕ
  pub suites : List TestSuite

-- `suites.reduce((s, x) => s + f(x), 0)`
abbrev pub sum_from : (TestSuite → ℕ) → ℕ → List TestSuite → ℕ
sum_from f s [] = s
sum_from f s (x ∷ xs) = sum_from f (s + f x) xs

abbrev pub other_suite : String → TestSuite → Bool
other_suite skill s = not (str_eq s.name skill)

abbrev pub suites_of : Option TestSummary → List TestSuite
suites_of none = []
suites_of (some p) = p.suites

abbrev pub skipped_of : Option TestSummary → ℕ
skipped_of none = 0
skipped_of (some p) = p.skipped

abbrev pub duration_of : Option TestSummary → ℕ
duration_of none = 0
duration_of (some p) = p.duration_ms

abbrev pub suite_of : String → ParsedCounts → TestSuite
suite_of skill c = record { name = skill; passed = c.passed; failed = c.failed }

unfoldable pub merge_into_summary : Option TestSummary → String → ParsedCounts → TestSummary
merge_into_summary prev skill counts =
    let suites = keep (other_suite skill) (suites_of prev) ++ suite_of skill counts ∷ [] in
    record {
      passed = sum_from (λ s. s.passed) 0 suites;
      failed = sum_from (λ s. s.failed) 0 suites;
      skipped = skipped_of prev + counts.skipped;
      duration_ms = duration_of prev + counts.duration_ms;
      suites = suites;
    }
