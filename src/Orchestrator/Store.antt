-- ===== src/Orchestrator/Store.antt =====
-- The rows that the orchestrator reads and writes (packages/domain/src/run.ts and the tables behind
-- it), the jobs that it queues and the events that it emits. Ids are numbers.
pub mod Rows
pub mod Tables
pub mod Ids
use mergecrew.Base.{
  ◌&&◌, ℕ, String, Option, List, [], ◌∷◌, ◌++◌, map, Bool, true, false, if◌then◌else◌, ◌==◌, any,
  find, ◌+◌,
}
pub use mergecrew.Config.{AgentDefinition, WorkflowDef, MergecrewConfig}
use mergecrew.Exec.{Exec, ok, raised, not_found}
use mergecrew.Graph.{GraphProfile}

pub data DailyRunStatus : Type 0 where
  pending running paused_rate_limit paused_gate done failed cancelled : DailyRunStatus

pub data StepStatus : Type 0 where
  pending running done failed rate_limited paused_gate cancelled : StepStatus

pub data PauseKind : Type 0 where
  rate_limit gate budget : PauseKind

pub data WorkflowStatus : Type 0 where
  running done failed : WorkflowStatus

-- The fields of `output` that routing reads.
pub record StepOutput : Type 0 where
  pub verdict : Option String
  pub mode : Option String

-- `agent_ref` is `input.agentRef`.
pub record AgentStep : Type 0 where
  pub id : ℕ
  pub organization_id : ℕ
  pub workflow_run_id : ℕ
  pub agent_kind : String
  pub agent_ref : String
  pub attempt : ℕ
  pub status : StepStatus
  pub output : Option StepOutput
  pub failure_reason : Option String
  pub finished_at : Option ℕ
  pub heartbeat_at : Option ℕ
  pub graph_node_key : Option String

pub record DailyRun : Type 0 where
  pub id : ℕ
  pub organization_id : ℕ
  pub project_id : ℕ
  pub status : DailyRunStatus
  pub started_at : Option ℕ
  pub finished_at : Option ℕ

pub record WorkflowRun : Type 0 where
  pub id : ℕ
  pub daily_run_id : ℕ
  pub workflow_id : String
  pub parent : Option ℕ
  pub status : WorkflowStatus
  pub finished_at : Option ℕ

pub record RunPause : Type 0 where
  pub id : ℕ
  pub daily_run_id : ℕ
  pub step_id : Option ℕ
  pub kind : PauseKind
  pub approval_request_id : Option ℕ
  pub wake_at : Option ℕ
  pub resumed_at : Option ℕ

-- packages/domain/src/gates.ts: `GateDecision`
pub data Resolution : Type 0 where
  approve reject takeover : Resolution

pub record ApprovalRequest : Type 0 where
  pub id : ℕ
  pub organization_id : ℕ
  pub project_id : ℕ
  pub workflow_run_id : ℕ
  pub resolved_at : Option ℕ
  pub resolution : Option Resolution

pub record Project : Type 0 where
  pub id : ℕ
  pub organization_id : ℕ
  pub graph_profile : GraphProfile
  pub graph_yaml : Option String
  pub runs_paused : Bool

pub record Organization : Type 0 where
  pub id : ℕ
  pub concurrency_cap : ℕ
  pub runs_paused : Bool

pub data RunnerKind : Type 0 where
  no_runner instance_builtin agent fargate_byo github_actions : RunnerKind

pub record StepJob : Type 0 where
  pub organization_id : ℕ
  pub project_id : ℕ
  pub run_id : ℕ
  pub workflow_run_id : ℕ
  pub step_id : ℕ
  pub agent_ref : String

-- The job of a dispatch that waits for the organization's cap.
pub record WaitJob : Type 0 where
  pub organization_id : ℕ
  pub project_id : ℕ
  pub run_id : ℕ
  pub workflow_run_id : ℕ
  pub agent_ref : String

pub data Executor : Type 0 where
  builtin by_agent by_fargate by_github : Executor

pub data Job : Type 0 where
  runner_step : Executor → StepJob → Job
  agent_push : ℕ → StepJob → Job
  org_cap_wait : WaitJob → ℕ → Job
  wake : ℕ → ℕ → ℕ → Job  -- run, step, delay
  workspace_cleanup : ℕ → Job

pub data EventType : Type 0 where
  run_started run_cancelled run_completed run_failed run_resumed : EventType
  run_paused_gate run_paused_rate_limit workflow_started workflow_completed : EventType
  agent_step_completed agent_step_failed agent_step_recovered : EventType
  stage_failed review_loop_exhausted : EventType

pub data Payload : Type 0 where
  nothing : Payload
  reason : String → Payload
  workflow : String → Payload
  approval : ℕ → Option String → Payload
  retry_after : ℕ → Payload
  tokens : Option ℕ → Payload
  stage : String → ℕ → ℕ → Payload  -- stage, failed, total
  rounds : ℕ → ℕ → Payload  -- rounds, cap
  started : Bool → ℕ → Payload  -- manual, lifecycle version
  recovered : ℕ → Payload  -- prior attempt
  aborted : String → String → Payload  -- reason, scope
  gave_up : String → ℕ → Payload  -- reason, attempts

pub record Event : Type 0 where
  pub type : EventType
  pub daily_run_id : ℕ
  pub agent_step_id : Option ℕ
  pub payload : Payload

pub record Lifecycle : Type 0 where
  pub version : ℕ
  pub source_yaml : String
  pub parsed : MergecrewConfig

-- `lifecycle` gives a project's latest version, `now` and the settings are the environment's.
pub record Db : Type 0 where
  pub steps : List AgentStep
  pub runs : List DailyRun
  pub workflow_runs : List WorkflowRun
  pub pauses : List RunPause
  pub approvals : List ApprovalRequest
  pub projects : List Project
  pub organizations : List Organization
  pub profiles : ℕ → Option RunnerKind
  pub lifecycle : ℕ → Option Lifecycle
  pub next_id : ℕ
  pub jobs : List Job
  pub events : List Event
  pub now : ℕ
  pub review_loop_cap : ℕ
  pub org_cap_deferral_ms : ℕ

abbrev pub is_terminal : StepStatus → Bool
is_terminal StepStatus.done = true
is_terminal StepStatus.failed = true
is_terminal StepStatus.cancelled = true
is_terminal _ = false

abbrev pub is_failed : StepStatus → Bool
is_failed StepStatus.failed = true
is_failed StepStatus.cancelled = true
is_failed _ = false

-- `pending` or `running`
abbrev pub is_inflight : StepStatus → Bool
is_inflight StepStatus.pending = true
is_inflight StepStatus.running = true
is_inflight _ = false

abbrev pub step_is : ℕ → AgentStep → Bool
step_is i s = s.id == i

abbrev pub run_is : ℕ → DailyRun → Bool
run_is i r = r.id == i

abbrev pub workflow_run_is : ℕ → WorkflowRun → Bool
workflow_run_is i w = w.id == i

abbrev pub find_step : ℕ → Db → Option AgentStep
find_step i db = find (step_is i) db.steps

abbrev pub find_run : ℕ → Db → Option DailyRun
find_run i db = find (run_is i) db.runs

abbrev pub find_workflow_run : ℕ → Db → Option WorkflowRun
find_workflow_run i db = find (workflow_run_is i) db.workflow_runs

abbrev pub find_project : ℕ → Db → Option Project
find_project i db = find (λ p. p.id == i) db.projects

-- The rows that the row-level security of `withTenant` shows.
abbrev pub tenant_project : ℕ → ℕ → Project → Bool
tenant_project org i p = p.id == i && p.organization_id == org

abbrev pub tenant_run : ℕ → ℕ → DailyRun → Bool
tenant_run org i r = r.id == i && r.organization_id == org

abbrev pub find_organization : ℕ → Db → Option Organization
find_organization i db = find (λ o. o.id == i) db.organizations

abbrev pub change : {A : Type 0} → (A → Bool) → (A → A) → List A → List A
change p f = map (λ x. if p x then f x else x)

-- `tx.agentStep.update({ where: { id } })` and its like throw where no row fits.
unfoldable pub update_step : ℕ → (AgentStep → AgentStep) → Exec Db Unit
update_step i f db =
    if any (step_is i) db.steps
    then (ok tt, record db { steps = change (step_is i) f db.steps })
    else (raised not_found, db)

unfoldable pub update_run : ℕ → (DailyRun → DailyRun) → Exec Db Unit
update_run i f db =
    if any (run_is i) db.runs
    then (ok tt, record db { runs = change (run_is i) f db.runs })
    else (raised not_found, db)

unfoldable pub update_workflow_run : ℕ → (WorkflowRun → WorkflowRun) → Exec Db Unit
update_workflow_run i f db =
    if any (workflow_run_is i) db.workflow_runs
    then (ok tt, record db { workflow_runs = change (workflow_run_is i) f db.workflow_runs })
    else (raised not_found, db)

-- `updateMany` changes the rows that fit, be there none.
unfoldable pub update_pauses : (RunPause → Bool) → (RunPause → RunPause) → Exec Db Unit
update_pauses p f db = (ok tt, record db { pauses = change p f db.pauses })

unfoldable pub emit : Event → Exec Db Unit
emit e db = (ok tt, record db { events = db.events ++ e ∷ [] })

unfoldable pub add_job : Job → Exec Db Unit
add_job j db = (ok tt, record db { jobs = db.jobs ++ j ∷ [] })

-- A `create` gives the row the next id.
unfoldable pub create_step : (ℕ → AgentStep) → Exec Db ℕ
create_step row db =
    (ok db.next_id, record db { steps = db.steps ++ row db.next_id ∷ []; next_id = db.next_id + 1 })

unfoldable pub create_run : (ℕ → DailyRun) → Exec Db ℕ
create_run row db =
    (ok db.next_id, record db { runs = db.runs ++ row db.next_id ∷ []; next_id = db.next_id + 1 })

unfoldable pub create_workflow_run : (ℕ → WorkflowRun) → Exec Db ℕ
create_workflow_run row db = (
  ok db.next_id,
  record db { workflow_runs = db.workflow_runs ++ row db.next_id ∷ []; next_id = db.next_id + 1 },
)

unfoldable pub create_pause : (ℕ → RunPause) → Exec Db ℕ
create_pause row db = (
  ok db.next_id,
  record db { pauses = db.pauses ++ row db.next_id ∷ []; next_id = db.next_id + 1 },
)
