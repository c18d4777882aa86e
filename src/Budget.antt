-- ===== src/Budget.antt =====
-- packages/agent-runtime/src/budget.ts (`BudgetTracker`) and packages/domain/src/stock-agents.ts
-- (`clampBudgetForRun`). Amounts of money are whole numbers of the smallest unit.
pub mod Laws
mod Tests
use mergecrew.Base.{
  ℕ, zero, suc, ◌+◌, ◌-◌, min, Option, none, some, List, [], ◌∷◌, Bool, true, false, ◌&&◌, leb,
  if◌then◌else◌,
}

pub record BudgetSpec : Type 0 where
  pub tokens : Option ℕ
  pub usd : Option ℕ

pub record BudgetTracker : Type 0 where
  pub tokens : ℕ
  pub usd : ℕ
  pub spec : Option BudgetSpec

unfoldable pub new_tracker : Option BudgetSpec → BudgetTracker
new_tracker spec = record { tokens = 0; usd = 0; spec = spec }

unfoldable pub add : BudgetTracker → ℕ → ℕ → BudgetTracker
add t total_tokens usd_estimate = record t {
  tokens = t.tokens + total_tokens;
  usd = t.usd + usd_estimate;
}

pub data Exhausted : Type 0 where
  not_exhausted by_tokens by_usd : Exhausted

-- `cap && used >= cap`: a cap of 0 is falsy.
unfoldable pub reached : Option ℕ → ℕ → Bool
reached none used = false
reached (some zero) used = false
reached (some (suc c)) used = leb (suc c) used

abbrev exhausted_by : Option BudgetSpec → ℕ → ℕ → Exhausted
exhausted_by none tokens usd = not_exhausted
exhausted_by (some s) tokens usd =
    if reached s.tokens tokens
    then by_tokens
    else if reached s.usd usd
    then by_usd
    else not_exhausted

unfoldable pub exhausted : BudgetTracker → Exhausted
unfolding reached
exhausted t = exhausted_by t.spec t.tokens t.usd

-- `runBudget !== undefined ? Math.max(0, runBudget - prior) : undefined`
abbrev remaining : Option ℕ → ℕ → Option ℕ
remaining none prior = none
remaining (some b) prior = some (b - prior)

-- The lesser where both are set, else the one that is.
abbrev lesser : Option ℕ → Option ℕ → Option ℕ
lesser none r = r
lesser (some p) none = some p
lesser (some p) (some r) = some (min p r)

abbrev tokens_of : Option BudgetSpec → Option ℕ
tokens_of none = none
tokens_of (some s) = s.tokens

abbrev usd_of : Option BudgetSpec → Option ℕ
usd_of none = none
usd_of (some s) = s.usd

unfoldable pub clamp_budget_for_run :
    Option BudgetSpec → Option BudgetSpec → ℕ → ℕ → Option BudgetSpec
clamp_budget_for_run per_step none prior_tokens prior_usd = per_step
clamp_budget_for_run per_step (some run) prior_tokens prior_usd = some (record {
  tokens = lesser (tokens_of per_step) (remaining run.tokens prior_tokens);
  usd = lesser (usd_of per_step) (remaining run.usd prior_usd);
})
