-- ===== src/Api/System.antt =====
-- The API beside the orchestrator: requests of users and messages of the orchestrator in any order, each handled to its
-- end before the next.
pub mod Ids
use mergecrew.Base.{ℕ, String, Option}
use mergecrew.Exec.{Exec, pure, ◌>>=◌}
use mergecrew.Exec.Preserves.{Preserves}
use mergecrew.Graph.{GraphDefinition}
use mergecrew.Orchestrator.Store.{Resolution}
use mergecrew.Orchestrator.System.{Message, handle}
use mergecrew.Api.{TenantContext, ApiDb, in_shared}
use mergecrew.Api.Roles.{as_operator}
use mergecrew.Api.Runs.{run_now, cancel}
use mergecrew.Api.Approvals.{resolve}

pub data Action : Type 0 where
  post_run : TenantContext → String → Action
  post_cancel : TenantContext → ℕ → Action
  post_resolve : TenantContext → ℕ → Resolution → Action
  orchestrate : Message → Action

-- A handler's answer is forgotten.
unfoldable pub forget : {A : Type 0} → Exec ApiDb A → Exec ApiDb Unit
forget act = act >>= λ x. pure tt

module _ (parse_yaml : String → Option GraphDefinition) where
  unfoldable pub act : Action → Exec ApiDb Unit
  act (post_run t slug) = forget (as_operator t (run_now t slug))
  act (post_cancel t i) = as_operator t (cancel t i)
  act (post_resolve t i res) = as_operator t (resolve t i res)
  act (orchestrate m) = in_shared (handle parse_yaml m)

  -- The states after any actions.
  pub data Reachable (start : ApiDb) : ApiDb → Type 0 where
    at_start : Reachable start start
    after_action :
        {before : ApiDb} (x : Action) → Reachable start before → Reachable start (act x before).1

  pub Reachable_induction {ℓ} :
      {P : ApiDb → Type ℓ} {start a : ApiDb}
      → ((x : Action) → Preserves P (act x))
      → P start
      → Reachable start a
      → P a
  Reachable_induction keeps p at_start = p
  Reachable_induction keeps p (after_action {before} x r) =
      (keeps x).after before (Reachable_induction keeps p r)
