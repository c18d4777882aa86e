-- ===== src/Api/Tests.antt =====
-- Requests of users on the orchestrator's small database.
use mergecrew.Base.{
  String, ℕ, Option, none, some, [], ◌∷◌, true, false, ◌≡◌, refl, arith, str_eq, if◌then◌else◌,
  count_of,
}
use mergecrew.Exec.{ok, raised, forbidden, pure, raise, gets, ◌>>=◌}
use mergecrew.Orchestrator.Store.{
  Project, DailyRunStatus, MergecrewConfig, approve, reject, create_run,
}
use mergecrew.Config.Sync.{Fetched, file, sync_lifecycle}
use mergecrew.Orchestrator.RunStart.{handle_run_due, active_in}
use mergecrew.Orchestrator.RunStart.Starts.{IsUnderWay, begun}
use mergecrew.Orchestrator.Tests.{no_yaml, base_with, a_run, crew}
use mergecrew.Graph.{roster}
use mergecrew.Api.{TenantContext, operator, viewer, ApiDb, in_shared, add_request, refuse_if}
use mergecrew.Api.Roles.{can_activate, as_operator}
use mergecrew.Api.Runs.{
  check_ready, create_pending, run_found, run_now, cancel, pending_row, due_of,
}
use mergecrew.Api.Runs.Accepts.{IsReady, IsDecided, run_now-IsDecided}
use mergecrew.Orchestrator.System.Ids.{HasIds}
use mergecrew.Api.System.Ids.{Reachable-IsUnderWay}
use mergecrew.Api.Runs.Cancels.{IsCancelled, cancel-IsCancelled}
use mergecrew.Api.Approvals.Quiet.{IsDecidedOnce}
use mergecrew.Api.Approvals.Once.{Reachable-IsDecidedOnce}
use mergecrew.Api.System.{act, post_resolve, at_start, after_action}

abbrev user : TenantContext
user = record { organization_id = 1; user_id = 5; role = operator }

abbrev site : ApiDb
site = record {
  shared = base_with [] DailyRunStatus.done;
  project_of = λ org slug. if str_eq slug "shop" then some 1 else none;
  connected_repo = λ p. true;
  deploy_targets = λ p. "dev" ∷ [];
  requests = [];
  cancels = [];
  user_events = [];
}

abbrev shop : Project
shop = record {
  id = 1;
  organization_id = 1;
  graph_profile = roster;
  graph_yaml = none;
  runs_paused = false;
}

run_now-IsDecided_example : IsDecided user shop (run_now user "shop") site
run_now-IsDecided_example = run_now-IsDecided user "shop" shop site refl

-- A parser that accepts one text.
abbrev parse_one : String → Option MergecrewConfig
parse_one yaml = if str_eq yaml "version: 1" then some crew else none

abbrev fetch_one : ℕ → Fetched
fetch_one p = file "version: 1"

ready : IsReady user shop site
ready = record {
  organization_runs = refl;
  project_runs = refl;
  runner = refl;
  repo = refl;
  target = refl;
  lifecycle = refl;
}

site-HasIds : HasIds site.shared
site-HasIds = record {
  steps = record { below = tt; unique = λ i. ground arith };
  runs = record { below = omega arith; unique = λ i. ground arith };
  workflow_runs = record { below = omega arith; unique = λ i. ground arith };
  pauses = record { below = omega arith; unique = λ i. ground arith };
}

Reachable-IsUnderWay_example :
    IsUnderWay 100
      (begun 100 1000 (pending_row 1 1 100))
      (handle_run_due no_yaml
        (λ l. (sync_lifecycle parse_one crew fetch_one 1 l).1)
        (due_of 1 1 100)
        (run_now user "shop" site).1.shared).1
Reachable-IsUnderWay_example =
    Reachable-IsUnderWay no_yaml parse_one crew fetch_one site site user "shop" shop site-HasIds
      at_start refl ready

-- A run that is done is cancelled all the same.
cancel-IsCancelled_example :
    ((cancel user 1 site).0 ≡ ok tt)
    × IsCancelled user 1 (a_run 1 DailyRunStatus.done) site (cancel user 1 site).1
cancel-IsCancelled_example = cancel-IsCancelled user 1 (a_run 1 DailyRunStatus.done) site refl refl

abbrev decided_twice : ApiDb
decided_twice =
    (act no_yaml (post_resolve user 31 reject)
      (act no_yaml (post_resolve user 31 approve) site).1).1

Reachable-IsDecidedOnce_example : IsDecidedOnce 1 31 decided_twice
Reachable-IsDecidedOnce_example =
    Reachable-IsDecidedOnce no_yaml 1 31 site decided_twice
      (record {
        owned = (λ e. refl, tt);
        once = omega arith;
        settled = λ lt. absurd (omega (arith, lt));
      })
      (after_action (post_resolve user 31 reject)
        (after_action (post_resolve user 31 approve) at_start))

-- The second of two runs that a user starts is active beside the first.
another_active :
    count_of (active_in 1) (run_now user "shop" (run_now user "shop" (site)).1).1.shared.runs ≡ 3
unfolding run_now run_found check_ready create_pending refuse_if in_shared add_request create_run
    pure raise gets ◌>>=◌
another_active = refl

viewer_refused :
    (as_operator (record user { role = viewer }) (cancel user 1) site).0
    ≡ raised (forbidden "requires role")
unfolding as_operator can_activate refuse_if raise pure ◌>>=◌
viewer_refused = refl
