-- ===== src/Budget/Tests.antt =====
-- The budget's theorems on concrete budgets.
use mergecrew.Base.{none, some, [], ◌∷◌, ◌≡◌, refl, arith}
use mergecrew.Budget.{
  BudgetSpec, BudgetTracker, new_tracker, not_exhausted, exhausted, clamp_budget_for_run,
}
use mergecrew.Budget.Laws.{add_all, clamp-spent_unlimited}

abbrev hundred : BudgetSpec
hundred = record { tokens = some 100; usd = none }

abbrev spent : BudgetTracker
spent = record { tokens = 120; usd = 3; spec = some hundred }

clamp-spent_unlimited_example :
    exhausted (
      add_all
        (new_tracker (clamp_budget_for_run (some hundred) (some hundred) 150 0))
        ((9000, 4) ∷ []))
    ≡ not_exhausted
clamp-spent_unlimited_example =
    clamp-spent_unlimited hundred hundred 100 150 0 ((9000, 4) ∷ []) refl (omega arith) refl refl
