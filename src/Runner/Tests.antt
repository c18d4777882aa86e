-- ===== src/Runner/Tests.antt =====
-- The coordinator and the summary on a few operations.
use mergecrew.Base.{List, none, some, [], ◌∷◌, true, ◌≡◌, ◌↔◌, ◌||◌}
use mergecrew.Runner.Cancellation.{cancel_run}
use mergecrew.Runner.Cancellation.Replay.{
  Operation, registered, unregistered, replay, fresh, is_registered, has_controller, cancel_run_iff,
}
use mergecrew.Runner.Summary.{ParsedCounts, merge_into_summary}
use mergecrew.Runner.Summary.Again.{IsRunAgain, merge_into_summary-IsRunAgain}

-- Two steps of one run and one of another; one of them is over.
abbrev operations : List Operation
operations =
    unregistered "run-1" 7 ∷ registered "run-2" 9 ∷ registered "run-1" 8 ∷ registered "run-1" 7 ∷ []

cancel_run_iff_example :
    ((has_controller 8 (cancel_run "run-1" (replay operations fresh)).1.aborted ≡ true) ↔ (
      (is_registered "run-1" 8 operations || has_controller 8 (replay operations fresh).aborted)
      ≡ true))
    × ((cancel_run "run-1" (replay operations fresh)).1.inflight
        ≡ (replay operations fresh).inflight)
cancel_run_iff_example = cancel_run_iff "run-1" 8 operations

abbrev counts : ParsedCounts
counts = record { passed = 8; failed = 1; skipped = 2; duration_ms = 30 }

merge_into_summary-IsRunAgain_example : IsRunAgain none "build.run_tests" counts counts (
    merge_into_summary
      (some (merge_into_summary none "build.run_tests" counts))
      "build.run_tests"
      counts)
merge_into_summary-IsRunAgain_example =
    merge_into_summary-IsRunAgain none "build.run_tests" counts counts
