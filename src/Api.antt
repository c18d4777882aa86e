-- ===== src/Api.antt =====
-- apps/api/src: the services of runs and approvals, on the orchestrator's database. A transaction of a tenant sees and
-- writes the rows of its organization only, by the row-level security of the database.
pub mod Roles
pub mod Runs
pub mod Keeping
pub mod Approvals
pub mod System
mod Tests
use mergecrew.Base.{
  ℕ, String, Option, none, some, List, [], ◌∷◌, ◌++◌, Bool, if◌then◌else◌, ◌==◌, ◌&&◌, any, find,
}
use mergecrew.Exec.{Exec, Failure, ok, raised, not_found, pure, raise}
use mergecrew.Orchestrator.Store.{
  Db, DailyRun, Project, Resolution, change, tenant_project, tenant_run,
}
use mergecrew.Orchestrator.RunStart.{RunDue}

-- packages/domain/src/roles.ts
pub data OrgRole : Type 0 where
  owner admin operator viewer : OrgRole

-- The user of a request, with the organization and the role in it.
pub record TenantContext : Type 0 where
  pub organization_id : ℕ
  pub user_id : ℕ
  pub role : OrgRole

-- What the services put into the queues.
pub data Request : Type 0 where
  run_due : RunDue → Request
  gate_resume : ℕ → Resolution → Request
  workspace_cleanup : ℕ → Request

pub data UserEvent : Type 0 where
  human_approved human_rejected : ℕ → ℕ → Resolution → UserEvent  -- workflow run, user

-- `project_of` is the slug's project in an organization; `cancels` are the organizations and runs that were published on
-- the channel of cancellations.
pub record ApiDb : Type 0 where
  pub shared : Db
  pub project_of : ℕ → String → Option ℕ
  pub connected_repo : ℕ → Bool
  pub deploy_targets : ℕ → List String
  pub requests : List Request
  pub cancels : List (ℕ × ℕ)
  pub user_events : List UserEvent

-- A handler of the orchestrator's database, or a write of its tables.
unfoldable pub in_shared : {A : Type 0} → Exec Db A → Exec ApiDb A
in_shared act a = let (outcome, db) = act a.shared in (outcome, record a { shared = db })

unfoldable pub add_request : Request → Exec ApiDb Unit
add_request q a = (ok tt, record a { requests = a.requests ++ q ∷ [] })

unfoldable pub publish_cancel : ℕ → ℕ → Exec ApiDb Unit
publish_cancel org run a = (ok tt, record a { cancels = a.cancels ++ (org, run) ∷ [] })

unfoldable pub emit_by_user : UserEvent → Exec ApiDb Unit
emit_by_user e a = (ok tt, record a { user_events = a.user_events ++ e ∷ [] })

-- `if (test) throw failure`
unfoldable pub refuse_if : Bool → Failure → Exec ApiDb Unit
refuse_if test failure = if test then raise failure else pure tt

unfoldable pub update_tenant_run : ℕ → ℕ → (DailyRun → DailyRun) → Exec Db Unit
update_tenant_run org i f db =
    if any (tenant_run org i) db.runs
    then (ok tt, record db { runs = change (tenant_run org i) f db.runs })
    else (raised not_found, db)

abbrev pub find_in : ℕ → Option ℕ → Db → Option Project
find_in org none db = none
find_in org (some i) db = find (tenant_project org i) db.projects

-- `findFirst({ where: { slug, organizationId } })`
abbrev pub find_by_slug : ℕ → String → ApiDb → Option Project
find_by_slug org slug a = find_in org (a.project_of org slug) a.shared
