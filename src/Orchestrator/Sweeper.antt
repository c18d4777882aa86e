-- ===== src/Orchestrator/Sweeper.antt =====
-- apps/orchestrator/src/heartbeat-sweeper.ts: `staleThresholdFor`, `tick` and `recoverStep`. The clock stands still during a
-- tick. Of the texts with numbers in them only the reason is modelled.
pub mod Threshold
pub mod Candidates
pub mod Giving
pub mod Bounded
pub mod Keeping
mod Tests
use mergecrew.Base.{
  ℕ, suc, zero, ◌+◌, ◌-◌, ◌*◌, ◌^◌, min, Option, none, some, List, [], ◌∷◌, Bool, true, false, ◌&&◌,
  if◌then◌else◌, ◌==◌, ltb, leb, keep, take,
}
use mergecrew.Exec.{Exec, Result, ok, raised, proceed, pure, gets, for_each, ◌>>=◌, ◌>>◌}
use mergecrew.Orchestrator.Store.{
  Db, AgentStep, StepStatus, WorkflowRun, DailyRun, Job, runner_step, builtin, StepJob, Event,
  agent_step_failed, agent_step_recovered, gave_up, recovered, find_run, find_workflow_run,
  update_step, emit, add_job, change, step_is,
}

pub record SweeperConfig : Type 0 where
  pub stale_after_ms : ℕ
  pub max_attempts : ℕ

-- `Math.max(0, attempt - 1)` is the subtraction that stops at 0.
unfoldable pub stale_threshold_for : SweeperConfig → ℕ → ℕ
stale_threshold_for cfg attempt = min (cfg.stale_after_ms * 2 ^ (attempt - 1)) 3600000

abbrev pub is_running : StepStatus → Bool
is_running StepStatus.running = true
is_running _ = false

-- `heartbeatAt: { lt: now - staleAfterMs }`, which no `null` meets.
abbrev pub older_than : ℕ → ℕ → Option ℕ → Bool
older_than now age none = false
older_than now age (some h) = ltb (h + age) now

abbrev pub is_stale : SweeperConfig → ℕ → AgentStep → Bool
is_stale cfg now s = is_running s.status && older_than now (cfg.stale_after_ms) (s.heartbeat_at)

-- A stale step with its run and project, which the query joins.
pub record StaleStep : Type 0 where
  pub step : AgentStep
  pub run_id : ℕ
  pub project_id : ℕ

abbrev of_run : AgentStep → Option DailyRun → Option StaleStep
of_run s none = none
of_run s (some r) = some (record { step = s; run_id = r.id; project_id = r.project_id })

abbrev of_workflow_run : Db → AgentStep → Option WorkflowRun → Option StaleStep
of_workflow_run db s none = none
of_workflow_run db s (some w) = of_run s (find_run w.daily_run_id db)

abbrev add_row : Option StaleStep → List StaleStep → List StaleStep
add_row none rest = rest
add_row (some x) rest = x ∷ rest

-- The rows of the other tables are there, by their foreign keys.
unfoldable pub join_rows : Db → List AgentStep → List StaleStep
join_rows db [] = []
join_rows db (s ∷ ss) =
    add_row (of_workflow_run db s (find_workflow_run s.workflow_run_id db)) (join_rows db ss)

unfoldable pub stale_steps : SweeperConfig → Db → List StaleStep
stale_steps cfg db = join_rows db (take 50 (keep (is_stale cfg db.now) db.steps))

-- `updateMany` with a test of the status.
unfoldable pub update_running_step : ℕ → (AgentStep → AgentStep) → Exec Db Unit
update_running_step i f db =
    (ok tt, record db { steps = change (λ s. step_is i s && is_running s.status) f db.steps })

-- The cap of the attempts is reached.
unfoldable pub give_up_step : StaleStep → Exec Db Unit
give_up_step s = do
  now ← gets (λ db. db.now)
  update_running_step s.step.id (λ x. record x {
    status = StepStatus.failed;
    finished_at = some now;
    heartbeat_at = none;
    failure_reason = some "runner_dead";
  })
  emit (record {
    type = agent_step_failed;
    daily_run_id = s.run_id;
    agent_step_id = some s.step.id;
    payload = gave_up "runner_dead" s.step.attempt;
  })

abbrev pub step_job : StaleStep → StepJob
step_job s = record {
  organization_id = s.step.organization_id;
  project_id = s.project_id;
  run_id = s.run_id;
  workflow_run_id = s.step.workflow_run_id;
  step_id = s.step.id;
  agent_ref = s.step.agent_ref;
}

-- The job goes to the instance's queue, with no executor.
unfoldable pub redispatch_step : StaleStep → Exec Db Unit
redispatch_step s = do
  now ← gets (λ db. db.now)
  update_step s.step.id (λ x. record x { heartbeat_at = some now })
  add_job (runner_step builtin (step_job s))
  emit (record {
    type = agent_step_recovered;
    daily_run_id = s.run_id;
    agent_step_id = some s.step.id;
    payload = recovered s.step.attempt;
  })

-- `ageMs < threshold`; a step without a heartbeat is infinitely old.
abbrev pub in_backoff : SweeperConfig → ℕ → AgentStep → Bool
in_backoff cfg now s = elim s.heartbeat_at [
  | none ↦ false
  | some h ↦ ltb now (h + stale_threshold_for cfg s.attempt)
]

unfoldable pub recover_step : SweeperConfig → StaleStep → Exec Db Unit
recover_step cfg s = if leb cfg.max_attempts s.step.attempt then give_up_step s else (do
  now ← gets (λ db. db.now)
  if in_backoff cfg now s.step then pure tt else redispatch_step s)

-- An exception ends the scan, and the `catch` of the tick takes it.
unfoldable pub tick : SweeperConfig → Exec Db Unit
tick cfg db = (ok tt, (for_each (stale_steps cfg db) (recover_step cfg) db).1)
