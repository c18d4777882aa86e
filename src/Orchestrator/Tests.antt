-- ===== src/Orchestrator/Tests.antt =====
-- The orchestrator's theorems on one small database: a project with one run, a node of two agents, an
-- organization with a cap of two.
use mergecrew.Base.{
  ℕ, String, Option, none, some, List, [], ◌∷◌, false, ◌≡◌, ◌≢◌, refl, arith, here, there, Any,
  find, ◌==◌, if◌then◌else◌, ◌↔◌, All, All-Any, find-Any, ap, ◌∙◌,
}
use mergecrew.Exec.{ok}
use mergecrew.Graph.{GraphDefinition, GraphNode, roster, strict, lenient, get_node_agents}
use mergecrew.Orchestrator.Store.{
  no_runner, Db, DailyRun, DailyRunStatus, AgentStep, StepStatus, WorkflowStatus, RunPause,
  PauseKind, ApprovalRequest, instance_builtin, MergecrewConfig, StepJob, WaitJob, org_cap_wait,
  find_run,
}
use mergecrew.Orchestrator.Dispatch.{
  Scope, resolve_agent_by_ref, dispatch_agent_step, enqueue_runner_step, handle_org_cap_wait,
}
use mergecrew.Orchestrator.Dispatch.Cap.{IsWithinCap}
use mergecrew.Orchestrator.Dispatch.Deferral.{
  dispatch-deferred, enqueue_runner_step_iff, chosen, failed_closed,
}
use mergecrew.Orchestrator.Flow.{waiting, advance, stage_fails, fan_in, maybe_advance_workflow}
use mergecrew.Orchestrator.Flow.Round.{IsUnderWay, IsFaulty, fan_in-round_iff}
use mergecrew.Orchestrator.Replies.Siblings.{resume_gate-keeps_siblings}
use mergecrew.Orchestrator.Replies.{
  completed, gate_pending, on_step_reply, approve, resume_gate, resume_rate_limit, open_pause_of,
}
use mergecrew.Orchestrator.Replies.Isolation.{on_step_reply-isolated, resume_gate-isolated}
use mergecrew.Orchestrator.Replies.Gates.{gate_pending-blocks, resume_rate_limit-running}

abbrev pub no_yaml : String → Option GraphDefinition
no_yaml s = none

abbrev pub scope : Scope
scope = record { organization_id = 1; project_id = 1; run_id = 1; workflow_run_id = 1 }

abbrev pub crew : MergecrewConfig
crew = record {
  agents =
      ("backend_engineer", record { kind = "Coder" })
      ∷ ("frontend_engineer", record { kind = "Coder" })
      ∷ [];
  workflows = record { id = "build"; agents = "backend_engineer" ∷ []; out = [] } ∷ [];
  human_gates = none;
  skills = [];
  runner = none;
  build = none;
}

abbrev pub a_step : ℕ → String → StepStatus → AgentStep
a_step i kind status = record {
  id = i;
  organization_id = 1;
  workflow_run_id = 1;
  agent_kind = kind;
  agent_ref = "backend_engineer";
  attempt = 1;
  status = status;
  output = none;
  failure_reason = none;
  finished_at = none;
  heartbeat_at = none;
  graph_node_key = some "implementation";
}

abbrev pub a_run : ℕ → DailyRunStatus → DailyRun
a_run i status = record {
  id = i;
  organization_id = 1;
  project_id = 1;
  status = status;
  started_at = some 1;
  finished_at = none;
}

abbrev pub a_pause : ℕ → RunPause
a_pause i = record {
  id = i;
  daily_run_id = 1;
  step_id = some 7;
  kind = PauseKind.gate;
  approval_request_id = some i;
  wake_at = none;
  resumed_at = none;
}

abbrev pub base_with : List AgentStep → DailyRunStatus → Db
base_with steps status = record {
  steps = steps;
  runs = a_run 1 status ∷ a_run 2 DailyRunStatus.running ∷ [];
  workflow_runs =
      record {
        id = 1;
        daily_run_id = 1;
        workflow_id = "build";
        parent = none;
        status = WorkflowStatus.running;
        finished_at = none;
      }
      ∷ [];
  pauses = a_pause 31 ∷ a_pause 32 ∷ [];
  approvals =
      record {
        id = 31;
        organization_id = 1;
        project_id = 1;
        workflow_run_id = 1;
        resolved_at = none;
        resolution = none;
      }
      ∷ [];
  projects =
      record {
        id = 1;
        organization_id = 1;
        graph_profile = roster;
        graph_yaml = none;
        runs_paused = false;
      }
      ∷ [];
  organizations = record { id = 1; concurrency_cap = 2; runs_paused = false } ∷ [];
  profiles = λ org. if org == 1 then some instance_builtin else none;
  lifecycle = λ p. some (record { version = 1; source_yaml = ""; parsed = crew });
  next_id = 100;
  jobs = [];
  events = [];
  now = 1000;
  review_loop_cap = 2;
  org_cap_deferral_ms = 5000;
}

-- Two steps in flight: the organization is at its cap.
abbrev busy : Db
busy =
    base_with (a_step 7 "Coder" StepStatus.running ∷ a_step 8 "Coder" StepStatus.running ∷ [])
      DailyRunStatus.running

-- The node's second round: the first round's steps are done.
abbrev second_round : Db
second_round =
    base_with
      (a_step 5 "Coder" StepStatus.done
        ∷ a_step 6 "Coder" StepStatus.done
        ∷ a_step 7 "Coder" StepStatus.running
        ∷ [])
      DailyRunStatus.running

abbrev implementation : GraphNode
implementation = record {
  agent_ref = none;
  agents = some ("backend_engineer" ∷ "frontend_engineer" ∷ []);
  policy = some strict;
}

busy-IsWithinCap : IsWithinCap 1 2 busy
busy-IsWithinCap = record { capped = refl; positive = omega arith; within = omega arith }

on_step_reply-isolated_example :
    find_run 2 (on_step_reply no_yaml scope 7 (completed none none) busy).1 ≡ find_run 2 busy
on_step_reply-isolated_example =
    on_step_reply-isolated no_yaml scope 7 (completed none none) 2 busy (λ e. omega (arith, e))

busy_pauses :
    (ar : ApprovalRequest) (p : RunPause)
    → find (open_pause_of ar.id) busy.pauses ≡ some p
    → p.daily_run_id ≢ 2
busy_pauses ar p e f =
    let of_run : All (λ q. q.daily_run_id ≡ 1) busy.pauses = (refl, (refl, tt)) in
    let (q, one, same) =
      All-Any {P = λ q. q.daily_run_id ≡ 1} (find-Any (open_pause_of ar.id) busy.pauses e) of_run in
    let two : q.daily_run_id ≡ 2 = ap (λ x. x.daily_run_id) same.0 ∙ f in omega (arith, one, two)

resume_gate-isolated_example : find_run 2 (resume_gate no_yaml 31 approve busy).1 ≡ find_run 2 busy
resume_gate-isolated_example =
    resume_gate-isolated no_yaml 31 approve 2 busy (λ ar p e. busy_pauses ar p)

-- One step of the node is done, the other was cancelled.
abbrev half_done : Db
half_done =
    base_with (a_step 7 "Coder" StepStatus.done ∷ a_step 8 "Coder" StepStatus.cancelled ∷ [])
      DailyRunStatus.running

fan_in-round_iff_example :
    (((fan_in scope "implementation" implementation half_done).0 ≡ ok waiting)
      ↔ IsUnderWay 1 "implementation" half_done)
    × (((fan_in scope "implementation" implementation half_done).0 ≡ ok stage_fails) ↔ (
        (¬ IsUnderWay 1 "implementation" half_done)
        × (some strict ≢ some lenient)
        × IsFaulty 1 "implementation" half_done))
    × (((fan_in scope "implementation" implementation half_done).0 ≡ ok advance) ↔ (
        (¬ IsUnderWay 1 "implementation" half_done)
        × (¬ ((some strict ≢ some lenient) × IsFaulty 1 "implementation" half_done))))
unfolding get_node_agents
fan_in-round_iff_example =
    fan_in-round_iff scope "implementation" implementation half_done (omega arith) refl

abbrev review : AgentStep
review = a_step 9 "Reviewer" StepStatus.done

gate_pending-blocks_example :
    (db' : Db) × (on_step_reply no_yaml scope 7 (gate_pending 31 none) busy ≡ (ok tt, db'))
    × (maybe_advance_workflow no_yaml scope db' ≡ (ok tt, db'))
gate_pending-blocks_example =
    gate_pending-blocks no_yaml scope 7 31 none busy (here (refl, refl)) (here refl)

abbrev paused : Db
paused = base_with (a_step 7 "Coder" StepStatus.paused_gate ∷ []) DailyRunStatus.paused_gate

abbrev request : ApprovalRequest
request = record {
  id = 31;
  organization_id = 1;
  project_id = 1;
  workflow_run_id = 1;
  resolved_at = none;
  resolution = none;
}

resume_gate-keeps_siblings_example :
    let after = (resume_gate no_yaml 31 approve paused).1 in
    (find_run 1 after ≡ find_run 1 paused) × Any (λ x. x ≡ a_pause 32) after.pauses
resume_gate-keeps_siblings_example =
    resume_gate-keeps_siblings no_yaml 31 request (a_pause 31) (a_pause 32) paused refl refl
      (there (here refl))
      (record { other = λ e. omega (arith, e); of_run = refl; open_still = refl })

-- The run was cancelled before its wake-up.
abbrev cancelled_run : Db
cancelled_run = base_with [] DailyRunStatus.cancelled

resume_rate_limit-running_example :
    find_run 1 (resume_rate_limit scope 7 cancelled_run).1 ≡ some (a_run 1 DailyRunStatus.running)
resume_rate_limit-running_example =
    resume_rate_limit-running scope 7 cancelled_run (a_run 1 DailyRunStatus.cancelled) refl

dispatch-deferred_example :
    (w : WaitJob) × (dispatch_agent_step scope "backend_engineer" crew (some "implementation") busy
      ≡ (ok tt, record busy { jobs = org_cap_wait w 5000 ∷ [] }))
    × (handle_org_cap_wait w second_round
        ≡ dispatch_agent_step scope "backend_engineer" crew none second_round)
unfolding resolve_agent_by_ref
dispatch-deferred_example =
    dispatch-deferred scope "backend_engineer" crew (some "implementation")
      (record { kind = "Coder" }) busy second_round refl refl (omega arith) (omega arith)

abbrev stray_job : StepJob
stray_job = record {
  organization_id = 9;
  project_id = 1;
  run_id = 1;
  workflow_run_id = 1;
  step_id = 7;
  agent_ref = "backend_engineer";
}

enqueue_runner_step_iff_example :
    (((enqueue_runner_step stray_job busy).1.jobs ≡ []) ↔ (chosen stray_job busy ≡ no_runner))
    × (chosen stray_job busy ≡ no_runner
        → enqueue_runner_step stray_job busy ≡ (ok tt, failed_closed stray_job busy))
enqueue_runner_step_iff_example = enqueue_runner_step_iff stray_job busy (here refl)
