-- ===== src/Orchestrator/Replies.antt =====
-- apps/orchestrator/src/orchestrator.ts: `onStepReply`, `resumeRateLimit` and `resumeGate`.
pub mod Keeping
pub mod Resuming
pub mod Cap
pub mod Isolation
pub mod Gates
pub mod Siblings
use mergecrew.Base.{
  ℕ, String, Option, none, some, List, [], ◌∷◌, Bool, true, false, not, ◌&&◌, if◌then◌else◌, ◌==◌,
  ◌+◌, get_or_else, count_of, find, is_some,
}
use mergecrew.Exec.{Exec, pure, gets, ◌>>=◌, ◌>>◌}
use mergecrew.Graph.{GraphDefinition}
use mergecrew.Orchestrator.Store.{
  Db, DailyRunStatus, AgentStep, StepStatus, StepJob, StepOutput, RunPause, PauseKind, rate_limit,
  gate, ApprovalRequest, Job, wake, Event, EventType, run_paused_gate, run_paused_rate_limit,
  run_resumed, agent_step_completed, agent_step_failed, Payload, nothing, reason, approval,
  retry_after, tokens, find_step, update_step, update_run, update_pauses, emit, add_job,
  create_pause,
}
pub use mergecrew.Orchestrator.Store.{Resolution, approve, reject, takeover}
use mergecrew.Orchestrator.Dispatch.{Scope, enqueue_runner_step}
use mergecrew.Orchestrator.Flow.{dispatch_graph_next, maybe_advance_workflow}

-- packages/domain/src/run.ts: the outcomes, each with the fields that its reply carries. The pause's
-- random jitter stands in the reply's `rate_limited`.
pub data StepOutcome : Type 0 where
  completed : Option StepOutput → Option ℕ → StepOutcome
  failed : String → StepOutcome
  rate_limited : ℕ → ℕ → StepOutcome  -- retryAfterMs, jitter
  gated_reject : String → StepOutcome
  gate_pending : ℕ → Option String → StepOutcome
  cancelled : StepOutcome
  budget_exhausted : Option String → StepOutcome

abbrev event : Scope → EventType → Option ℕ → Payload → Event
event sc t i p = record { type = t; daily_run_id = sc.run_id; agent_step_id = i; payload = p }

-- `step.input.agentRef` goes back into the queue with the same step.
abbrev pub step_job : Scope → AgentStep → StepJob
step_job sc s = record {
  organization_id = sc.organization_id;
  project_id = sc.project_id;
  run_id = sc.run_id;
  workflow_run_id = sc.workflow_run_id;
  step_id = s.id;
  agent_ref = s.agent_ref;
}

unfoldable pub pause_for_gate : Scope → ℕ → ℕ → Option String → Exec Db Unit
pause_for_gate sc i approval_id why = do
  update_step i (λ s. record s { status = StepStatus.paused_gate })
  update_run sc.run_id (λ r. record r { status = DailyRunStatus.paused_gate })
  emit (event sc run_paused_gate (some i) (approval approval_id why))

unfoldable pub pause_for_rate_limit : Scope → ℕ → ℕ → ℕ → Exec Db Unit
pause_for_rate_limit sc i retry jitter = do
  now ← gets (λ db. db.now)
  create_pause (λ j. record {
    id = j;
    daily_run_id = sc.run_id;
    step_id = some i;
    kind = rate_limit;
    approval_request_id = none;
    wake_at = some (now + retry + jitter);
    resumed_at = none;
  })
  update_run sc.run_id (λ r. record r { status = DailyRunStatus.paused_rate_limit })
  emit (event sc run_paused_rate_limit (some i) (retry_after retry))
  add_job (wake sc.run_id i (retry + 1000))

unfoldable pub fail_step : Scope → ℕ → StepStatus → String → Exec Db Unit
fail_step sc i status why = do
  now ← gets (λ db. db.now)
  update_step i
      (λ s. record s { status = status; finished_at = some now; failure_reason = some why })
  emit (event sc agent_step_failed (some i) (reason why))

unfoldable pub complete_step : Scope → ℕ → Option StepOutput → Option ℕ → Exec Db Unit
complete_step sc i output total = do
  now ← gets (λ db. db.now)
  update_step i
      (λ s. record s { status = StepStatus.done; finished_at = some now; output = output })
  emit (event sc agent_step_completed (some i) (tokens total))

abbrev is_gate : PauseKind → Bool
is_gate gate = true
is_gate _ = false

abbrev is_rate_limit : PauseKind → Bool
is_rate_limit rate_limit = true
is_rate_limit _ = false

abbrev opt_eq : Option ℕ → ℕ → Bool
opt_eq none i = false
opt_eq (some j) i = j == i

abbrev pub open_pause_of : ℕ → RunPause → Bool
open_pause_of i p = opt_eq p.approval_request_id i && is_gate p.kind && not (is_some p.resumed_at)

abbrev pub open_in : ℕ → RunPause → Bool
open_in r p = p.daily_run_id == r && not (is_some p.resumed_at)

abbrev pub still_paused : ℕ → Db → ℕ
still_paused r db = count_of (open_in r) db.pauses

-- The run goes back to `running` when no pause of it is open.
unfoldable pub resume_run : ℕ → Exec Db Unit
resume_run r = do
  n ← gets (still_paused r)
  if n == 0 then update_run r (λ x. record x { status = DailyRunStatus.running }) else pure tt

abbrev resolution_name : Resolution → String
resolution_name approve = "approve"
resolution_name reject = "reject"
resolution_name takeover = "takeover"

abbrev gate_reason : Resolution → String
gate_reason approve = "gate_approve"
gate_reason reject = "gate_reject"
gate_reason takeover = "gate_takeover"

abbrev pub approval_scope : ApprovalRequest → RunPause → Scope
approval_scope ar p = record {
  organization_id = ar.organization_id;
  project_id = ar.project_id;
  run_id = p.daily_run_id;
  workflow_run_id = ar.workflow_run_id;
}

abbrev fail_gated : Resolution → Option ℕ → Exec Db Unit
fail_gated res none = pure tt
fail_gated res (some i) = do
  now ← gets (λ db. db.now)
  update_step i (λ s. record s {
    status = StepStatus.failed;
    failure_reason = some (gate_reason res);
    finished_at = some now;
  })

abbrev requeue : Scope → Option AgentStep → Exec Db Unit
requeue sc none = pure tt
requeue sc (some s) = do
  update_step s.id (λ x. record x { status = StepStatus.pending })
  enqueue_runner_step (step_job sc s)

unfoldable pub requeue_step : Scope → Option ℕ → Exec Db Unit
requeue_step sc none = pure tt
requeue_step sc (some i) = do s ← gets (find_step i); requeue sc s

abbrev pub wake_step : Scope → Option AgentStep → Exec Db Unit
wake_step sc none = pure tt
wake_step sc (some s) = enqueue_runner_step (step_job sc s)

abbrev pub open_rate_limit : ℕ → ℕ → RunPause → Bool
open_rate_limit r i p =
    p.daily_run_id == r && opt_eq p.step_id i && is_rate_limit p.kind && not (is_some p.resumed_at)

unfoldable pub resume_rate_limit : Scope → ℕ → Exec Db Unit
resume_rate_limit sc i = do
  now ← gets (λ db. db.now)
  update_pauses (open_rate_limit sc.run_id i) (λ p. record p { resumed_at = some now })
  update_run sc.run_id (λ r. record r { status = DailyRunStatus.running })
  emit (event sc run_resumed (some i) nothing)
  s ← gets (find_step i)
  wake_step sc s

module _ (parse_yaml : String → Option GraphDefinition) where
  unfoldable pub after_step : Scope → Bool → Exec Db Unit
  after_step sc dispatched = if dispatched then pure tt else maybe_advance_workflow parse_yaml sc

  unfoldable pub on_step_reply : Scope → ℕ → StepOutcome → Exec Db Unit
  on_step_reply sc i (gate_pending approval_id why) = pause_for_gate sc i approval_id why
  on_step_reply sc i (rate_limited retry jitter) = pause_for_rate_limit sc i retry jitter
  on_step_reply sc i (completed output total) = do
    complete_step sc i output total
    dispatched ← dispatch_graph_next parse_yaml sc i
    after_step sc dispatched
  on_step_reply sc i (gated_reject why) = do
    fail_step sc i StepStatus.failed why
    maybe_advance_workflow parse_yaml sc
  on_step_reply sc i (failed why) = do
    fail_step sc i StepStatus.failed why
    maybe_advance_workflow parse_yaml sc
  on_step_reply sc i (budget_exhausted why) = do
    fail_step sc i StepStatus.failed (get_or_else why "budget_exhausted")
    maybe_advance_workflow parse_yaml sc
  on_step_reply sc i cancelled = do
    fail_step sc i StepStatus.cancelled "cancelled"
    maybe_advance_workflow parse_yaml sc

  abbrev advance_if : Scope → Option ℕ → Exec Db Unit
  advance_if sc none = pure tt
  advance_if sc (some i) = maybe_advance_workflow parse_yaml sc

  unfoldable pub refuse_gate : Resolution → Scope → Option ℕ → Exec Db Unit
  refuse_gate res sc step_id = do
    n ← gets (still_paused sc.run_id)
    fail_gated res step_id
    if n == 0
        then update_run sc.run_id (λ x. record x { status = DailyRunStatus.running })
        else pure tt
    emit (event sc run_resumed step_id (reason (resolution_name res)))
    advance_if sc step_id

  unfoldable pub settle_gate : Resolution → Scope → Option ℕ → Exec Db Unit
  settle_gate approve sc step_id = do
    resume_run sc.run_id
    emit (event sc run_resumed step_id (reason "approve"))
    requeue_step sc step_id
  settle_gate reject sc step_id = refuse_gate reject sc step_id
  settle_gate takeover sc step_id = refuse_gate takeover sc step_id

  abbrev pub resume_pause : Resolution → ApprovalRequest → Option RunPause → Exec Db Unit
  resume_pause res ar none = pure tt
  resume_pause res ar (some p) = do
    now ← gets (λ db. db.now)
    update_pauses (λ q. q.id == p.id) (λ q. record q { resumed_at = some now })
    settle_gate res (approval_scope ar p) p.step_id

  abbrev pub resume_approval : Resolution → Option ApprovalRequest → Exec Db Unit
  resume_approval res none = pure tt
  resume_approval res (some ar) = do
    p ← gets (λ db. find (open_pause_of ar.id) db.pauses)
    resume_pause res ar p

  unfoldable pub resume_gate : ℕ → Resolution → Exec Db Unit
  resume_gate approval_id res = do
    ar ← gets (λ db. find (λ a. a.id == approval_id) db.approvals)
    resume_approval res ar
