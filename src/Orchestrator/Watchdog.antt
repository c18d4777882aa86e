-- ===== src/Orchestrator/Watchdog.antt =====
-- apps/worker-cron/src/stuck-run-watchdog.ts: `stuckRunWatchdog` and `failStuck`, on the same database.
pub mod Keeping
pub mod Spares
mod Tests
use mergecrew.Base.{
  ℕ, ◌+◌, String, Option, none, some, List, [], ◌∷◌, Bool, true, false, not, ◌&&◌, if◌then◌else◌,
  ◌==◌, ltb, keep, is_some,
}
use mergecrew.Exec.{Exec, ok, gets, for_each, ◌>>=◌, ◌>>◌}
use mergecrew.Orchestrator.Store.{
  Db, DailyRun, DailyRunStatus, RunPause, PauseKind, run_failed, aborted, find_run, update_run,
  emit,
}

pub record WatchdogConfig : Type 0 where
  pub stuck_run_running_ms : ℕ
  pub stuck_run_paused_overdue_ms : ℕ

abbrev is_running : DailyRunStatus → Bool
is_running DailyRunStatus.running = true
is_running _ = false

abbrev is_rate_limited : DailyRunStatus → Bool
is_rate_limited DailyRunStatus.paused_rate_limit = true
is_rate_limited _ = false

abbrev is_rate_limit : PauseKind → Bool
is_rate_limit PauseKind.rate_limit = true
is_rate_limit _ = false

-- `lt: new Date(now - ms)`, which no `null` meets.
abbrev pub before_cutoff : ℕ → ℕ → Option ℕ → Bool
before_cutoff now ms none = false
before_cutoff now ms (some t) = ltb (t + ms) now

abbrev pub runs_too_long : WatchdogConfig → ℕ → DailyRun → Bool
runs_too_long cfg now r =
    is_running r.status && before_cutoff now cfg.stuck_run_running_ms r.started_at

abbrev pub is_overdue : WatchdogConfig → ℕ → RunPause → Bool
is_overdue cfg now p =
    is_rate_limit p.kind
    && not (is_some p.resumed_at)
    && before_cutoff now cfg.stuck_run_paused_overdue_ms p.wake_at

-- The run of a pause, as the query joins it, if it still waits for the rate limit.
abbrev still_limited : Option DailyRun → Bool
still_limited none = false
still_limited (some r) = is_rate_limited r.status

abbrev pub waits_overdue : WatchdogConfig → Db → RunPause → Bool
waits_overdue cfg db p = is_overdue cfg db.now p && still_limited (find_run p.daily_run_id db)

unfoldable pub write_failed : ℕ → String → Exec Db Unit
write_failed i detail = do
  now ← gets (λ db. db.now)
  update_run i (λ r. record r { status = DailyRunStatus.failed; finished_at = some now })
  emit (record {
    type = run_failed;
    daily_run_id = i;
    agent_step_id = none;
    payload = aborted "stuck_watchdog" detail;
  })

-- The `catch` takes an exception, after what was written.
unfoldable pub fail_stuck : ℕ → String → Exec Db Unit
fail_stuck i detail db = (ok tt, (write_failed i detail db).1)

unfoldable pub stuck_run_watchdog : WatchdogConfig → Exec Db Unit
stuck_run_watchdog cfg = do
  runs ← gets (λ db. keep (runs_too_long cfg db.now) db.runs)
  for_each runs (λ r. fail_stuck r.id "running_too_long")
  pauses ← gets (λ db. keep (waits_overdue cfg db) db.pauses)
  for_each pauses (λ p. fail_stuck p.daily_run_id "paused_rate_limit_overdue")
