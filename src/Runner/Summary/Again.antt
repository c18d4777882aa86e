-- ===== src/Runner/Summary/Again.antt =====
-- A skill that is run again.
use mergecrew.Base.{
  ◌+◌, String, Option, some, List, [], ◌∷◌, ◌++◌, ◌≡◌, refl, ap, inl, inr, arith, str_eq, eq_iff,
  keep, Bool-cases,
}
use mergecrew.Runner.Summary.{
  ParsedCounts, TestSuite, TestSummary, sum_from, other_suite, suite_of, suites_of,
  merge_into_summary,
}

keep-again :
    (skill : String) (xs : List TestSuite) (x : TestSuite)
    → x.name ≡ skill
    → keep (other_suite skill) (keep (other_suite skill) xs ++ (x ∷ []))
      ≡ keep (other_suite skill) xs
keep-again skill [] x e = rw (e, (eq_iff skill skill).1 refl) refl
keep-again skill (y ∷ xs) x e = elim (Bool-cases (str_eq y.name skill)) [
  | inl q ↦ rw q (keep-again skill xs x e)
  | inr q ↦ rw (q, q) (ap (λ rest. y ∷ rest) (keep-again skill xs x e))
]

-- What a second run of a skill makes of the summary: its suite, the passed and the failed tests are those of the second run alone,
-- as if the first had not been, but the skipped tests and the time of both runs are counted.
pub record IsRunAgain (prev : Option TestSummary) (skill : String) (first second : ParsedCounts)
    (s : TestSummary) : Type 0 where
  pub suites : s.suites ≡ (merge_into_summary prev skill second).suites
  pub passed : s.passed ≡ (merge_into_summary prev skill second).passed
  pub failed : s.failed ≡ (merge_into_summary prev skill second).failed
  pub skipped : s.skipped ≡ (merge_into_summary prev skill second).skipped + first.skipped
  pub duration_ms :
      s.duration_ms ≡ (merge_into_summary prev skill second).duration_ms + first.duration_ms

pub merge_into_summary-IsRunAgain :
    (prev : Option TestSummary) (skill : String) (first second : ParsedCounts)
    → IsRunAgain prev skill first second
        (merge_into_summary (some (merge_into_summary prev skill first)) skill second)
unfolding merge_into_summary
merge_into_summary-IsRunAgain prev skill first second =
    let same = keep-again skill (suites_of prev) (suite_of skill first) refl in
    let suites : List TestSuite → List TestSuite = λ xs. xs ++ (suite_of skill second ∷ []) in
    record {
      suites = ap suites same;
      passed = ap (λ xs. sum_from (λ s. s.passed) 0 (suites xs)) same;
      failed = ap (λ xs. sum_from (λ s. s.failed) 0 (suites xs)) same;
      skipped = omega arith;
      duration_ms = omega arith;
    }
