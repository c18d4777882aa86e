-- ===== src/Orchestrator/Dispatch.antt =====
-- apps/orchestrator/src/orchestrator.ts: `enqueueRunnerStep`, `failStepNoRunner`, `dispatchAgentStep`
-- and `handleOrgCapWait`; packages/domain/src/stock-agents.ts: `resolveAgentByRef`.
pub mod Keeping
pub mod Cap
pub mod Deferral
use mergecrew.Base.{
  ℕ, String, Option, none, some, List, [], ◌∷◌, Bool, true, false, ◌&&◌, if◌then◌else◌, str_eq,
  ◌==◌, get_or_else, count_of, leb, ltb,
}
use mergecrew.Exec.{Exec, pure, gets, ◌>>=◌, ◌>>◌}
use mergecrew.Orchestrator.Store.{
  Db, DailyRun, DailyRunStatus, AgentStep, StepStatus, StepJob, WaitJob, RunnerKind, no_runner,
  instance_builtin, agent, fargate_byo, github_actions, Job, runner_step, agent_push, org_cap_wait,
  builtin, by_agent, by_fargate, by_github, Event, EventType, agent_step_failed, reason,
  AgentDefinition, MergecrewConfig, Lifecycle, Organization, is_inflight, find_run,
  find_organization, update_step, emit, add_job, create_step,
}

-- Where a step belongs.
pub record Scope : Type 0 where
  pub organization_id : ℕ
  pub project_id : ℕ
  pub run_id : ℕ
  pub workflow_run_id : ℕ

abbrev lookup_agent : String → List (String × AgentDefinition) → Option AgentDefinition
lookup_agent r [] = none
lookup_agent r ((j, d) ∷ ds) = if str_eq j r then some d else lookup_agent r ds

-- Of the stock definitions only the kind matters here.
abbrev stock_agents_by_ref : String → Option AgentDefinition
stock_agents_by_ref r =
    if str_eq r "planner"
    then some (record { kind = "Planner" })
    else if str_eq r "coder"
    then some (record { kind = "Coder" })
    else if str_eq r "reviewer"
    then some (record { kind = "Reviewer" })
    else none

unfoldable pub resolve_agent_by_ref :
    List (String × AgentDefinition) → String → Option AgentDefinition
resolve_agent_by_ref agents r = elim (lookup_agent r agents) [
  | some d ↦ some d
  | none ↦ stock_agents_by_ref r
]

unfoldable pub fail_step_no_runner : StepJob → Exec Db Unit
fail_step_no_runner args = do
  now ← gets (λ db. db.now)
  update_step args.step_id (λ s. record s {
    status = StepStatus.failed;
    failure_reason = some "runner_not_configured";
    finished_at = some now;
  })
  emit (record {
    type = agent_step_failed;
    daily_run_id = args.run_id;
    agent_step_id = some args.step_id;
    payload = reason "runner_not_configured";
  })

unfoldable pub enqueue_by : RunnerKind → StepJob → Exec Db Unit
unfolding fail_step_no_runner
enqueue_by no_runner args = fail_step_no_runner args
enqueue_by instance_builtin args = add_job (runner_step builtin args)
enqueue_by agent args = do
  add_job (agent_push args.organization_id args)
  add_job (runner_step by_agent args)
enqueue_by fargate_byo args = do
  add_job (agent_push args.organization_id args)
  add_job (runner_step by_fargate args)
enqueue_by github_actions args = do
  add_job (agent_push args.organization_id args)
  add_job (runner_step by_github args)

-- `profile?.kind ?? 'none'`
unfoldable pub enqueue_runner_step : StepJob → Exec Db Unit
enqueue_runner_step args = do
  profile ← gets (λ db. db.profiles args.organization_id)
  enqueue_by (get_or_else profile no_runner) args

-- A run that is cancelled or paused takes no new step; a missing run does not block.
abbrev status_blocks : DailyRunStatus → Bool
status_blocks DailyRunStatus.cancelled = true
status_blocks DailyRunStatus.paused_gate = true
status_blocks DailyRunStatus.paused_rate_limit = true
status_blocks _ = false

abbrev pub run_blocks : Option DailyRun → Bool
run_blocks none = false
run_blocks (some r) = status_blocks r.status

-- `org?.orgConcurrencyCap ?? 0`; 0 is no cap.
abbrev pub cap_of : Option Organization → ℕ
cap_of none = 0
cap_of (some o) = o.concurrency_cap

abbrev pub inflight_in : ℕ → AgentStep → Bool
inflight_in org s = s.organization_id == org && is_inflight s.status

abbrev pub inflight : ℕ → Db → ℕ
inflight org db = count_of (inflight_in org) db.steps

abbrev pub at_cap : ℕ → ℕ → Bool
at_cap cap n = ltb 0 cap && leb cap n

abbrev new_step : Scope → String → AgentDefinition → Option String → ℕ → AgentStep
new_step sc r d node_key i = record {
  id = i;
  organization_id = sc.organization_id;
  workflow_run_id = sc.workflow_run_id;
  agent_kind = d.kind;
  agent_ref = r;
  attempt = 1;
  status = StepStatus.pending;
  output = none;
  failure_reason = none;
  finished_at = none;
  heartbeat_at = none;
  graph_node_key = node_key;
}

unfoldable pub create_and_enqueue : Scope → String → AgentDefinition → Option String → Exec Db Unit
create_and_enqueue sc r d node_key = do
  i ← create_step (new_step sc r d node_key)
  enqueue_runner_step (record {
    organization_id = sc.organization_id;
    project_id = sc.project_id;
    run_id = sc.run_id;
    workflow_run_id = sc.workflow_run_id;
    step_id = i;
    agent_ref = r;
  })

-- The job of a deferred dispatch.
abbrev pub wait_job : Scope → String → WaitJob
wait_job sc r = record {
  organization_id = sc.organization_id;
  project_id = sc.project_id;
  run_id = sc.run_id;
  workflow_run_id = sc.workflow_run_id;
  agent_ref = r;
}

unfoldable pub defer : Scope → String → Exec Db Unit
defer sc r = do
  delay ← gets (λ db. db.org_cap_deferral_ms)
  add_job (org_cap_wait (wait_job sc r) delay)

unfoldable pub dispatch_capped : Scope → String → AgentDefinition → Option String → Exec Db Unit
dispatch_capped sc r d node_key = do
  cap ← gets (λ db. cap_of (find_organization sc.organization_id db))
  n ← gets (inflight sc.organization_id)
  if at_cap cap n then defer sc r else create_and_enqueue sc r d node_key

unfoldable pub dispatch_resolved :
    Scope → String → Option AgentDefinition → Option String → Exec Db Unit
dispatch_resolved sc r none node_key = pure tt
dispatch_resolved sc r (some d) node_key = do
  run ← gets (find_run sc.run_id)
  if run_blocks run then pure tt else dispatch_capped sc r d node_key

unfoldable pub dispatch_agent_step : Scope → String → MergecrewConfig → Option String → Exec Db Unit
dispatch_agent_step sc r cfg node_key =
    dispatch_resolved sc r (resolve_agent_by_ref cfg.agents r) node_key

abbrev pub empty_config : MergecrewConfig
empty_config = record {
  agents = [];
  workflows = [];
  human_gates = none;
  skills = [];
  runner = none;
  build = none;
}

-- `(lc?.parsed ?? {})`
abbrev pub config_of : Option Lifecycle → MergecrewConfig
config_of none = empty_config
config_of (some lc) = lc.parsed

abbrev scope_of : WaitJob → Scope
scope_of w = record {
  organization_id = w.organization_id;
  project_id = w.project_id;
  run_id = w.run_id;
  workflow_run_id = w.workflow_run_id;
}

unfoldable pub handle_org_cap_wait : WaitJob → Exec Db Unit
handle_org_cap_wait w = do
  lc ← gets (λ db. db.lifecycle w.project_id)
  dispatch_agent_step (scope_of w) w.agent_ref (config_of lc) none
