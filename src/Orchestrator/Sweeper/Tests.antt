-- ===== src/Orchestrator/Sweeper/Tests.antt =====
-- The sweeper on a small database.
use mergecrew.Base.{here, there, ℕ, some, [], ◌∷◌, ◌≡◌, refl, arith, length, take}
use mergecrew.Exec.{pure, gets, ◌>>=◌, for_each}
use mergecrew.Orchestrator.Store.{
  Db, AgentStep, StepStatus, DailyRunStatus, update_step, add_job, emit,
}
use mergecrew.Orchestrator.Tests.{a_step, base_with}
use mergecrew.Orchestrator.Sweeper.{
  SweeperConfig, StaleStep, stale_threshold_for, join_rows, stale_steps, recover_step, give_up_step,
  redispatch_step, update_running_step, tick,
}
use mergecrew.Orchestrator.Sweeper.Giving.{IsSwept, IsAtRest, tick-gives_up}
use mergecrew.Orchestrator.Sweeper.Bounded.{Adds, IsDue, tick-Adds}

abbrev config : SweeperConfig
config = record { stale_after_ms = 100; max_attempts = 3 }

abbrev silent : ℕ → ℕ → AgentStep
silent i n = record (a_step i "Coder" StepStatus.running) { attempt = n; heartbeat_at = some 850 }

-- One step on its first attempt, one on its second, one on its last.
abbrev stale : Db
stale = base_with (silent 7 1 ∷ silent 8 2 ∷ silent 9 3 ∷ []) DailyRunStatus.running

-- The second waits for twice as long, and the third is given up.
swept : length (tick config stale).1.jobs ≡ 1
unfolding tick stale_steps join_rows for_each recover_step give_up_step redispatch_step
    update_running_step update_step add_job emit stale_threshold_for gets pure ◌>>=◌ take
swept = refl

abbrev last_try : StaleStep
last_try = record { step = silent 9 3; run_id = 1; project_id = 1 }

tick-gives_up_example :
    IsSwept config stale (tick config stale).1 × IsAtRest 9 (tick config stale).1
unfolding stale_steps join_rows take
tick-gives_up_example =
    tick-gives_up config stale last_try (there (there (here refl))) (omega arith)

tick-Adds_example : Adds (IsDue config stale) 50 stale (tick config stale).1
tick-Adds_example = tick-Adds config stale
