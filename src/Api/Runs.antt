-- ===== src/Api/Runs.antt =====
-- apps/api/src/modules/run/run.service.ts: `runNow`, `get` and `cancel`. The reason of a pause is left out of the messages,
-- and the second look for a lifecycle, which finds what the first found.
pub mod Accepts
pub mod Starts
pub mod Cancels
use mergecrew.Base.{
  ℕ, String, Option, none, some, List, Bool, true, false, not, ◌==◌, str_eq, any, find, is_some,
  get_or_else,
}
use mergecrew.Exec.{Exec, pure, raise, gets, not_found, invalid, ◌>>=◌, ◌>>◌}
use mergecrew.Orchestrator.Store.{
  tenant_run, Db, DailyRun, DailyRunStatus, Project, RunnerKind, no_runner, run_cancelled, nothing,
  find_organization, create_run, emit,
}
use mergecrew.Orchestrator.RunStart.{RunDue, org_paused}
use mergecrew.Api.{
  TenantContext, ApiDb, run_due, workspace_cleanup, in_shared, add_request, publish_cancel,
  refuse_if, update_tenant_run, find_by_slug,
}

abbrev pub is_supported : RunnerKind → Bool
is_supported no_runner = false
is_supported _ = true

abbrev pub has_dev_target : List String → Bool
has_dev_target kinds = any (λ k. str_eq k "dev") kinds

-- The row that the API creates before the orchestrator sees the run.
abbrev pub pending_row : ℕ → ℕ → ℕ → DailyRun
pending_row org project i = record {
  id = i;
  organization_id = org;
  project_id = project;
  status = DailyRunStatus.pending;
  started_at = none;
  finished_at = none;
}

abbrev pub due_of : ℕ → ℕ → ℕ → RunDue
due_of org project i = record {
  organization_id = org;
  project_id = project;
  run_id = some i;
  manual = true;
}

unfoldable pub check_ready : TenantContext → Project → Exec ApiDb Unit
check_ready t p = do
  org ← gets (λ a. find_organization t.organization_id a.shared)
  refuse_if (org_paused org) (invalid "runs paused org-wide")
  refuse_if p.runs_paused (invalid "runs paused for this project")
  kind ← gets (λ a. get_or_else (a.shared.profiles t.organization_id) no_runner)
  refuse_if (not (is_supported kind)) (invalid "configure a runner profile")
  repo ← gets (λ a. a.connected_repo p.id)
  refuse_if (not repo) (invalid "connect a GitHub repo")
  targets ← gets (λ a. a.deploy_targets p.id)
  refuse_if (not (has_dev_target targets)) (invalid "add a dev deploy target")
  lifecycle ← gets (λ a. a.shared.lifecycle p.id)
  refuse_if (not (is_some lifecycle)) (invalid "project has no lifecycle")

unfoldable pub create_pending : TenantContext → Project → Exec ApiDb ℕ
create_pending t p = do
  i ← in_shared (create_run (pending_row t.organization_id p.id))
  add_request (run_due (due_of t.organization_id p.id i))
  pure i

unfoldable pub run_found : TenantContext → Option Project → Exec ApiDb ℕ
run_found t none = raise not_found
run_found t (some p) = do check_ready t p; create_pending t p

unfoldable pub run_now : TenantContext → String → Exec ApiDb ℕ
run_now t slug = do p ← gets (find_by_slug t.organization_id slug); run_found t p

abbrev pub or_not_found : Option DailyRun → Exec ApiDb DailyRun
or_not_found none = raise not_found
or_not_found (some r) = pure r

unfoldable pub get_run : TenantContext → ℕ → Exec ApiDb DailyRun
get_run t i = do r ← gets (λ a. find (tenant_run t.organization_id i) a.shared.runs); or_not_found r

unfoldable pub cancel : TenantContext → ℕ → Exec ApiDb Unit
cancel t i = do
  now ← gets (λ a. a.shared.now)
  in_shared (
      update_tenant_run t.organization_id i
        (λ r. record r { status = DailyRunStatus.cancelled; finished_at = some now }))
  run ← get_run t i
  in_shared (
      emit (record {
        type = run_cancelled;
        daily_run_id = i;
        agent_step_id = none;
        payload = nothing;
      }))
  publish_cancel t.organization_id i
  add_request (workspace_cleanup i)
