-- ===== src/Orchestrator/Sweeper/Candidates.antt =====
-- The rows of a scan: what the query of `tick` in apps/orchestrator/src/heartbeat-sweeper.ts gives.
use mergecrew.Base.{
  ℕ, zero, suc, ◌≤◌, Option, none, some, List, [], ◌∷◌, Bool, true, ◌≡◌, refl, sym, subst, arith,
  Bool-cases, inl, inr, length, All, All-map, Any, here, there, keep, take,
}
use mergecrew.Orchestrator.Store.{Db, AgentStep, WorkflowRun, DailyRun, find_run, find_workflow_run}
use mergecrew.Orchestrator.Sweeper.{
  SweeperConfig, StaleStep, is_stale, of_run, of_workflow_run, add_row, join_rows, stale_steps,
}

-- A stored step that is stale.
abbrev pub IsCandidate : SweeperConfig → Db → AgentStep → Type 0
IsCandidate cfg db s = Any (λ x. x ≡ s) db.steps × (is_stale cfg db.now s ≡ true)

keep-candidates :
    (p : AgentStep → Bool) (xs : List AgentStep)
    → All (λ s. Any (λ x. x ≡ s) xs × (p s ≡ true)) (keep p xs)
keep-candidates p [] = tt
keep-candidates p (x ∷ xs) =
    let later = All-map (λ s h. (there h.0, h.1)) (keep p xs) (keep-candidates p xs) in
    elim (Bool-cases (p x)) [ inl q ↦ rw q ((here refl, q), later) | inr q ↦ rw q later ]

take-All : (P : AgentStep → Type 0) (n : ℕ) (xs : List AgentStep) → All P xs → All P (take n xs)
unfolding take
take-All P zero xs h = tt
take-All P (suc n) [] h = tt
take-All P (suc n) (x ∷ xs) (p, h) = (p, take-All P n xs h)

length-take : (n : ℕ) (xs : List AgentStep) → length (take n xs) ≤ n
unfolding take
length-take zero xs = omega arith
length-take (suc n) [] = omega arith
length-take (suc n) (x ∷ xs) = omega (arith, length-take n xs)

add_row-candidates :
    (P : AgentStep → Type 0) (s : AgentStep) (o : Option StaleStep) (rest : List StaleStep) (n : ℕ)
    → P s
    → ((x : StaleStep) → o ≡ some x → x.step ≡ s)
    → All (λ x. P x.step) rest × (length rest ≤ n)
    → All (λ x. P x.step) (add_row o rest) × (length (add_row o rest) ≤ suc n)
add_row-candidates P s none rest n p its (h, few) = (h, omega arith)
add_row-candidates P s (some x) rest n p its (h, few) =
    ((subst P (sym (its x refl)) p, h), omega arith)

-- A joined row is of the step.
of_run-step :
    (s : AgentStep) (o : Option DailyRun) (x : StaleStep) → of_run s o ≡ some x → x.step ≡ s
of_run-step s none x e = cc
of_run-step s (some r) x e = ground arith

of_workflow_run-step :
    (db : Db) (s : AgentStep) (o : Option WorkflowRun) (x : StaleStep)
    → of_workflow_run db s o ≡ some x
    → x.step ≡ s
of_workflow_run-step db s none x e = cc
of_workflow_run-step db s (some w) x e = of_run-step s (find_run w.daily_run_id db) x e

join-candidates :
    (P : AgentStep → Type 0) (db : Db) (ss : List AgentStep)
    → All P ss
    → All (λ x. P x.step) (join_rows db ss) × (length (join_rows db ss) ≤ length ss)
unfolding join_rows
join-candidates P db [] h = (tt, omega arith)
join-candidates P db (s ∷ ss) (p, h) =
    let row = find_workflow_run s.workflow_run_id db in
    add_row-candidates P s _ _ (length ss) p (of_workflow_run-step db s row)
      (join-candidates P db ss h)

pub stale_steps-candidates :
    (cfg : SweeperConfig) (db : Db)
    → All (λ s. IsCandidate cfg db s.step) (stale_steps cfg db) × (length (stale_steps cfg db) ≤ 50)
unfolding stale_steps
stale_steps-candidates cfg db =
    let rows = keep (is_stale cfg db.now) db.steps in
    let candidates =
      take-All (IsCandidate cfg db) 50 rows (keep-candidates (is_stale cfg db.now) db.steps) in
    let (due, few) = join-candidates (IsCandidate cfg db) db (take 50 rows) candidates in
    (due, omega (arith, few, length-take 50 rows))
