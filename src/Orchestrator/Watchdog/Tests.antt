-- ===== src/Orchestrator/Watchdog/Tests.antt =====
-- The watchdog on a small database.
use mergecrew.Base.{ℕ, some, [], ◌∷◌, ◌≡◌, refl, map}
use mergecrew.Exec.{pure, gets, for_each, ◌>>=◌}
use mergecrew.Orchestrator.Store.{
  Db, DailyRunStatus, RunPause, PauseKind, find_run, update_run, emit,
}
use mergecrew.Orchestrator.Tests.{a_run, a_pause, base_with}
use mergecrew.Orchestrator.Watchdog.{WatchdogConfig, write_failed, fail_stuck, stuck_run_watchdog}
use mergecrew.Orchestrator.Watchdog.Spares.{stuck_run_watchdog-spares}

abbrev config : WatchdogConfig
config = record { stuck_run_running_ms = 500; stuck_run_paused_overdue_ms = 100 }

abbrev limited : ℕ → ℕ → RunPause
limited run wake = record (a_pause run) {
  daily_run_id = run;
  kind = PauseKind.rate_limit;
  wake_at = some wake;
}

-- The first run is old, the second is new; the third's pause is overdue, the fourth's is not.
abbrev stuck : Db
stuck = record (base_with [] DailyRunStatus.running) {
  runs =
      a_run 1 DailyRunStatus.running
      ∷ record (a_run 2 DailyRunStatus.running) { started_at = some 900 }
      ∷ a_run 3 DailyRunStatus.paused_rate_limit
      ∷ a_run 4 DailyRunStatus.paused_rate_limit
      ∷ [];
  pauses = limited 3 800 ∷ limited 4 950 ∷ [];
}

swept :
    map (λ r. r.status) (stuck_run_watchdog config stuck).1.runs
    ≡ DailyRunStatus.failed ∷ DailyRunStatus.running ∷ DailyRunStatus.failed
      ∷ DailyRunStatus.paused_rate_limit ∷ []
unfolding stuck_run_watchdog fail_stuck write_failed for_each update_run emit gets pure ◌>>=◌
swept = refl

stuck_run_watchdog-spares_example :
    find_run 4 (stuck_run_watchdog config stuck).1 ≡ find_run 4 stuck
stuck_run_watchdog-spares_example = stuck_run_watchdog-spares config 4 stuck refl refl
