-- ===== src/Budget/Laws.antt =====
-- What a budget guarantees.
use mergecrew.Base.{
  ℕ, zero, suc, ◌+◌, ◌-◌, min, ap, ◌≤◌, ◌<◌, Option, none, some, List, [], ◌∷◌, true, ◌≡◌, ◌≢◌,
  refl, ◌⊎◌, arith,
}
use mergecrew.Budget.{
  BudgetSpec, BudgetTracker, new_tracker, add, not_exhausted, by_tokens, reached, exhausted,
  exhausted_by, lesser, tokens_of, clamp_budget_for_run,
}

-- The turns of a step, each with its tokens and its cost.
pub add_all : BudgetTracker → List (ℕ × ℕ) → BudgetTracker
add_all t [] = t
add_all t ((n, c) ∷ us) = add_all (add t n c) us

reached_mono : (o : Option ℕ) (m n : ℕ) → m ≤ n → reached o m ≡ true → reached o n ≡ true
unfolding reached
reached_mono none m n h r = cc
reached_mono (some zero) m n h r = cc
reached_mono (some (suc c)) m n h r = ground arith

exhausted_by_mono :
    (s : Option BudgetSpec) (m n c d : ℕ)
    → m ≤ n
    → c ≤ d
    → exhausted_by s m c ≢ not_exhausted
    → exhausted_by s n d ≢ not_exhausted
exhausted_by_mono none m n c d h k ne = ne
exhausted_by_mono (some s) m n c d h k ne =
    ground (arith, reached_mono s.tokens m n, reached_mono s.usd c d)

-- Once a budget is exhausted it stays so, whatever is spent after that.
pub exhausted_persists :
    (t : BudgetTracker) (us : List (ℕ × ℕ))
    → exhausted t ≢ not_exhausted
    → exhausted (add_all t us) ≢ not_exhausted
unfolding exhausted add_all add
exhausted_persists t [] ne = ne
exhausted_persists t ((n, c) ∷ us) ne = exhausted_persists (add t n c) us (
    exhausted_by_mono t.spec t.tokens (t.tokens + n) t.usd (t.usd + c) (omega arith) (omega arith)
      ne)

-- A positive token cap is not passed unnoticed: with the cap reached the tracker says so.
pub exhausted_at_cap :
    (t : BudgetTracker) (s : BudgetSpec) (c : ℕ)
    → t.spec ≡ some s
    → s.tokens ≡ some c
    → 0 < c
    → c ≤ t.tokens
    → exhausted t ≡ by_tokens
unfolding exhausted reached
exhausted_at_cap t s zero e f p h = absurd (omega arith)
exhausted_at_cap t s (suc c) e f p h = ground arith

lesser_bounds :
    (p : Option ℕ) (b prior : ℕ)
    → (e : ℕ) × (lesser p (some (b - prior)) ≡ some e)
      × ((e + prior ≤ b) ⊎ (e ≡ 0))
      × ((own : ℕ) → p ≡ some own → e ≤ own)
lesser_bounds none b prior = (b - prior, refl, omega arith, λ own q. cc)
lesser_bounds (some own) b prior =
    (min own (b - prior), refl, omega arith, λ x (q : some own ≡ some x). ground arith)

-- A step's clamped token budget, together with what its kind spent before in the run, stays within the
-- run's budget, unless that was used up before; it is never above the step's own budget.
pub clamp-within_run :
    (per_step : Option BudgetSpec) (run : BudgetSpec) (b prior_tokens prior_usd : ℕ)
    → run.tokens ≡ some b
    → (e : ℕ) × (tokens_of (clamp_budget_for_run per_step (some run) prior_tokens prior_usd)
        ≡ some e)
      × ((e + prior_tokens ≤ b) ⊎ (e ≡ 0))
      × ((own : ℕ) → tokens_of per_step ≡ some own → e ≤ own)
unfolding clamp_budget_for_run
clamp-within_run per_step run b prior_tokens prior_usd e =
    rw e (lesser_bounds (tokens_of per_step) b prior_tokens)

uncapped :
    (t : BudgetTracker) (s : BudgetSpec) (us : List (ℕ × ℕ))
    → t.spec ≡ some s
    → s.tokens ≡ some 0
    → s.usd ≡ none
    → exhausted (add_all t us) ≡ not_exhausted
unfolding exhausted reached add_all add
uncapped t s [] e p q = ground arith
uncapped t s ((n, c) ∷ us) e p q = uncapped (add t n c) s us e p q

lesser_spent : (p : Option ℕ) (b prior : ℕ) → b ≤ prior → lesser p (some (b - prior)) ≡ some 0
lesser_spent none b prior h = ap some (omega arith)
lesser_spent (some own) b prior h = ap some (omega arith)

-- A kind that used up its run budget is given a budget of 0 tokens, and a tracker reads that as no cap:
-- with no cap on the cost either it is never exhausted, whatever the step spends.
pub clamp-spent_unlimited :
    (per_step run : BudgetSpec) (b prior_tokens prior_usd : ℕ) (us : List (ℕ × ℕ))
    → run.tokens ≡ some b
    → b ≤ prior_tokens
    → per_step.usd ≡ none
    → run.usd ≡ none
    → exhausted (
        add_all
          (new_tracker (clamp_budget_for_run (some per_step) (some run) prior_tokens prior_usd))
          us)
      ≡ not_exhausted
unfolding clamp_budget_for_run new_tracker
clamp-spent_unlimited per_step run b prior_tokens prior_usd us e h p q =
    uncapped _ _ us refl (rw e (lesser_spent per_step.tokens b prior_tokens h)) (rw (p, q) refl)
