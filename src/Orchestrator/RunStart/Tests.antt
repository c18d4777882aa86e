-- ===== src/Orchestrator/RunStart/Tests.antt =====
-- The start of a run on a small database.
use mergecrew.Base.{ℕ, Option, none, some, [], ◌∷◌, true, ◌≡◌, refl, arith, ◌≤◌, count_of}
use mergecrew.Exec.{ok, pure, gets, ◌>>=◌}
use mergecrew.Orchestrator.Store.{Db, DailyRunStatus, Lifecycle, Project, update_run, run_is}
use mergecrew.Graph.{roster}
use mergecrew.Orchestrator.Tests.{no_yaml, a_run, base_with}
use mergecrew.Orchestrator.RunStart.{
  RunDue, claim, claim_row, claimed, advanced, create_own, handle_run_due,
}
use mergecrew.Orchestrator.RunStart.Single.{IsSingle, handle_run_due-IsSingle}

-- One run has been created and waits.
abbrev waiting_run : Db
waiting_run = record (base_with [] DailyRunStatus.pending) {
  runs = a_run 1 DailyRunStatus.pending ∷ a_run 2 DailyRunStatus.done ∷ [];
}

abbrev keep_versions : (ℕ → Option Lifecycle) → ℕ → Option Lifecycle
keep_versions versions = versions

abbrev due : Option ℕ → RunDue
due i = record { organization_id = 1; project_id = 1; run_id = i; manual = true }

-- The created run goes on; without its id it stands in the way of another, and one that has gone on is left alone.
claims :
    ((claim 1 (some 1) waiting_run).0 ≡ ok (claimed 1))
    × ((claim 1 (some 2) waiting_run).0 ≡ ok advanced)
    × ((create_own (due none) waiting_run).0 ≡ ok advanced)
unfolding claim claim_row create_own update_run gets pure ◌>>=◌
claims = (refl, refl, refl)

waiting_run-IsSingle : IsSingle 1 waiting_run
waiting_run-IsSingle = record {
  fresh = record { below = omega arith; unique = once };
  single = omega arith;
}
  where
    once :
        (i : ℕ)
        → count_of (run_is i) (a_run 1 DailyRunStatus.pending ∷ a_run 2 DailyRunStatus.done ∷ [])
          ≤ 1
    once i = ground arith

handle_run_due-IsSingle_example :
    IsSingle 1 (handle_run_due no_yaml keep_versions (due (some 1)) waiting_run).1
handle_run_due-IsSingle_example =
    handle_run_due-IsSingle no_yaml keep_versions (due (some 1)) 1 waiting_run waiting_run-IsSingle

abbrev paused_project : Project
paused_project = record {
  id = 1;
  organization_id = 1;
  graph_profile = roster;
  graph_yaml = none;
  runs_paused = true;
}

abbrev paused : Db
paused = record waiting_run { projects = paused_project ∷ [] }
