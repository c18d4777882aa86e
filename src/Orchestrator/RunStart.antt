-- ===== src/Orchestrator/RunStart.antt =====
-- apps/orchestrator/src/orchestrator.ts: `handleRunDue`. What `syncLifecycleFromRepo` stores is a function of the
-- lifecycle versions that are stored; its failures are caught, and leave what it stored.
pub mod Keeping
pub mod Single
pub mod Paused
pub mod Starts
mod Tests
use mergecrew.Base.{
  ℕ, String, Option, none, some, List, [], ◌∷◌, Bool, true, false, not, ◌&&◌, if◌then◌else◌, ◌==◌,
  any, find,
}
use mergecrew.Exec.{Exec, ok, pure, gets, ◌>>=◌, ◌>>◌}
use mergecrew.Graph.{GraphDefinition}
use mergecrew.Orchestrator.Store.{
  Db, DailyRun, DailyRunStatus, Project, Organization, Lifecycle, WorkflowDef, run_started,
  run_cancelled, aborted, started, tenant_project, tenant_run, find_organization, update_run, emit,
  create_run,
}
use mergecrew.Orchestrator.Dispatch.{Scope}
use mergecrew.Orchestrator.Flow.{start_workflow}

pub record RunDue : Type 0 where
  pub organization_id : ℕ
  pub project_id : ℕ
  pub run_id : Option ℕ
  pub manual : Bool

-- A project belongs to an organization that is stored.
abbrev pub org_paused : Option Organization → Bool
org_paused none = false
org_paused (some o) = o.runs_paused

-- The level at which runs are paused.
abbrev pause_scope : Option Organization → Project → Option String
pause_scope o p =
    if org_paused o then some "org" else if p.runs_paused then some "project" else none

-- A run that the API created beforehand, which is the tenant's, is cancelled.
unfoldable pub abort_paused : Option ℕ → String → Exec Db Unit
abort_paused none scope = pure tt
abort_paused (some i) scope = do
  now ← gets (λ db. db.now)
  update_run i (λ r. record r { status = DailyRunStatus.cancelled; finished_at = some now })
  emit (record {
    type = run_cancelled;
    daily_run_id = i;
    agent_step_id = none;
    payload = aborted "paused" scope;
  })

unfoldable pub store_lifecycle : ((ℕ → Option Lifecycle) → ℕ → Option Lifecycle) → Exec Db Unit
store_lifecycle sync db = (ok tt, record db { lifecycle = sync db.lifecycle })

abbrev is_pending : DailyRunStatus → Bool
is_pending DailyRunStatus.pending = true
is_pending _ = false

-- The run to go on with, if the API created it; whether it has gone on already.
pub data Claim : Type 0 where
  claimed : ℕ → Claim
  advanced unclaimed : Claim

unfoldable pub claim_row : ℕ → Option DailyRun → Exec Db Claim
claim_row i none = pure unclaimed
claim_row i (some r) =
    if is_pending r.status
    then (do
      now ← gets (λ db. db.now)
      update_run i (λ x. record x { status = DailyRunStatus.running; started_at = some now })
      pure (claimed i))
    else pure advanced

unfoldable pub claim : ℕ → Option ℕ → Exec Db Claim
claim org none = pure unclaimed
claim org (some i) = do row ← gets (λ db. find (tenant_run org i) db.runs); claim_row i row

-- A run that is under way or about to be.
abbrev pub is_active : DailyRunStatus → Bool
is_active DailyRunStatus.pending = true
is_active DailyRunStatus.running = true
is_active DailyRunStatus.paused_rate_limit = true
is_active DailyRunStatus.paused_gate = true
is_active _ = false

abbrev pub active_in : ℕ → DailyRun → Bool
active_in project r = r.project_id == project && is_active r.status

-- `j` is the id that the database gives.
abbrev own_row : RunDue → ℕ → ℕ → DailyRun
own_row due now j = record {
  id = j;
  organization_id = due.organization_id;
  project_id = due.project_id;
  status = DailyRunStatus.running;
  started_at = some now;
  finished_at = none;
}

-- The one guard of a run that the API did not create.
unfoldable pub create_own : RunDue → Exec Db Claim
create_own due = do
  inflight ← gets (λ db. any (active_in due.project_id) db.runs)
  now ← gets (λ db. db.now)
  if inflight then pure advanced else (do i ← create_run (own_row due now); pure (claimed i))

-- The run that this job starts, if any.
unfoldable pub obtain_run : RunDue → Claim → Exec Db Claim
obtain_run due unclaimed = create_own due
obtain_run due advanced = pure advanced
obtain_run due (claimed i) = pure (claimed i)

module _ (parse_yaml : String → Option GraphDefinition) where
  abbrev start_first : Scope → List WorkflowDef → Exec Db Unit
  start_first sc [] = pure tt
  start_first sc (w ∷ ws) = start_workflow parse_yaml sc w.id

  -- The scope's workflow run is set when the workflow starts.
  unfoldable pub begin_run : RunDue → Lifecycle → Claim → Exec Db Unit
  begin_run due lc advanced = pure tt
  begin_run due lc unclaimed = pure tt
  begin_run due lc (claimed i) = do
    update_run i (λ r. record r { id = i })
    emit (record {
      type = run_started;
      daily_run_id = i;
      agent_step_id = none;
      payload = started due.manual lc.version;
    })
    start_first
        (record {
          organization_id = due.organization_id;
          project_id = due.project_id;
          run_id = i;
          workflow_run_id = 0;
        })
        lc.parsed.workflows

  unfoldable pub run_with : RunDue → Option Lifecycle → Exec Db Unit
  run_with due none = pure tt
  run_with due (some lc) = do
    c ← claim due.organization_id due.run_id
    run ← obtain_run due c
    begin_run due lc run

  unfoldable pub start_unless_paused :
      ((ℕ → Option Lifecycle) → ℕ → Option Lifecycle) → RunDue → Option String → Exec Db Unit
  start_unless_paused sync due (some scope) = abort_paused due.run_id scope
  start_unless_paused sync due none = do
    store_lifecycle sync
    lc ← gets (λ db. db.lifecycle due.project_id)
    run_with due lc

  unfoldable pub start_project :
      ((ℕ → Option Lifecycle) → ℕ → Option Lifecycle) → RunDue → Option Project → Exec Db Unit
  start_project sync due none = pure tt
  start_project sync due (some p) = do
    org ← gets (find_organization p.organization_id)
    start_unless_paused sync due (pause_scope org p)

  unfoldable pub handle_run_due :
      ((ℕ → Option Lifecycle) → ℕ → Option Lifecycle) → RunDue → Exec Db Unit
  handle_run_due sync due = do
    project ← gets (λ db. find (tenant_project due.organization_id due.project_id) db.projects)
    start_project sync due project
