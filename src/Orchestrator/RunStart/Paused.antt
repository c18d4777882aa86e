-- ===== src/Orchestrator/RunStart/Paused.antt =====
-- The operator's kill switch.
use mergecrew.Base.{
  find, ℕ, String, Option, none, some, true, ◌||◌, ◌≡◌, ◌≢◌, refl, ap, arith, Bool-cases, any, inl,
  inr,
}
use mergecrew.Exec.{pure, gets, ◌>>=◌}
use mergecrew.Graph.{GraphDefinition}
use mergecrew.Orchestrator.Store.{
  Db, Organization, Project, Lifecycle, update_run, emit, run_is, find_run, tenant_project,
  find_organization,
}
use mergecrew.Orchestrator.Replies.Isolation.{find-change}
use mergecrew.Orchestrator.RunStart.{
  RunDue, org_paused, pause_scope, abort_paused, start_unless_paused, start_project, handle_run_due,
}

-- What a start that is refused leaves alone: no work is created, and no run but the one given is written.
pub record IsRefused (given : Option ℕ) (db db' : Db) : Type 0 where
  pub steps : db'.steps ≡ db.steps
  pub workflow_runs : db'.workflow_runs ≡ db.workflow_runs
  pub jobs : db'.jobs ≡ db.jobs
  pub lifecycle : db'.lifecycle ≡ db.lifecycle
  pub others : (j : ℕ) → given ≢ some j → find_run j db' ≡ find_run j db

abort_paused-IsRefused :
    (o : Option ℕ) (scope : String) (db : Db) → IsRefused o db (abort_paused o scope db).1
unfolding abort_paused pure gets ◌>>=◌ update_run emit
abort_paused-IsRefused none scope db = record {
  steps = refl;
  workflow_runs = refl;
  jobs = refl;
  lifecycle = refl;
  others = λ j ne. refl;
}
abort_paused-IsRefused (some i) scope db = elim (Bool-cases (any (run_is i) db.runs)) [
  | inl q ↦ rw q (record {
    steps = refl;
    workflow_runs = refl;
    jobs = refl;
    lifecycle = refl;
    others = λ j ne. find-change i j _ (λ e. ne (ap some e)) (λ x. refl) db.runs;
  })
  | inr q ↦ rw q (record {
    steps = refl;
    workflow_runs = refl;
    jobs = refl;
    lifecycle = refl;
    others = λ j ne. refl;
  })
]

scope-some :
    (o : Option Organization) (x : Project)
    → (org_paused o || x.runs_paused) ≡ true
    → (s : String) × (pause_scope o x ≡ some s)
scope-some o x h = elim (Bool-cases (org_paused o)) [
  | inl q ↦ ("org", rw q refl)
  | inr q ↦ ("project", ground (arith, rw q at h))
]

-- Where runs are paused for the project or for its organization, the start of a run creates no step, no workflow run and
-- no job, does not synchronize the lifecycle, and writes no run but the one that the job names.
pub handle_run_due-paused :
    (parse_yaml : String → Option GraphDefinition)
    (sync : (ℕ → Option Lifecycle) → ℕ → Option Lifecycle) (due : RunDue) (x : Project) (db : Db)
    → find (tenant_project due.organization_id due.project_id) db.projects ≡ some x
    → (org_paused (find_organization x.organization_id db) || x.runs_paused) ≡ true
    → IsRefused due.run_id db (handle_run_due parse_yaml sync due db).1
unfolding handle_run_due start_project start_unless_paused gets ◌>>=◌
handle_run_due-paused parse_yaml sync due x db e h =
    let (s, q) = scope-some (find_organization x.organization_id db) x h in
    rw (e, q) (abort_paused-IsRefused due.run_id s db)
