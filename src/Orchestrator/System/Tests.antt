-- ===== src/Orchestrator/System/Tests.antt =====
-- A few messages on a small database.
use mergecrew.Base.{none, [], ◌∷◌, ◌≡◌, refl, arith}
use mergecrew.Exec.{pure, gets, ◌>>=◌}
use mergecrew.Orchestrator.Store.{
  Db, DailyRunStatus, StepStatus, update_step, update_run, update_pauses, emit, add_job,
}
use mergecrew.Orchestrator.Dispatch.{enqueue_runner_step, enqueue_by, inflight}
use mergecrew.Orchestrator.Dispatch.Cap.{IsWithinCap}
use mergecrew.Orchestrator.Replies.{
  completed, approve, resume_gate, settle_gate, resume_run, requeue_step,
}
use mergecrew.Orchestrator.Tests.{no_yaml, scope, a_step, base_with}
use mergecrew.Orchestrator.System.{
  Message, step_reply, sweep, clock, gate_resolved, handle, at_start, after_message,
}
use mergecrew.Orchestrator.System.Ids.{HasIds}
use mergecrew.Orchestrator.System.Cap.{Reachable-IsWithinCap}

abbrev start : Db
start =
    base_with (a_step 7 "Coder" StepStatus.running ∷ a_step 8 "Coder" StepStatus.running ∷ [])
      DailyRunStatus.running

abbrev swept : Message
swept = sweep (record { stale_after_ms = 100; max_attempts = 3 })

abbrev replied : Message
replied = step_reply scope 7 (completed none none)

abbrev last : Db
last = (handle no_yaml replied (handle no_yaml swept (handle no_yaml (clock 5000) start).1).1).1

Reachable-IsWithinCap_example : IsWithinCap 1 2 last
Reachable-IsWithinCap_example =
    Reachable-IsWithinCap no_yaml 1 2 start last
      (record { capped = refl; positive = omega arith; within = omega arith })
      (after_message replied tt (after_message swept tt (after_message (clock 5000) tt at_start)))

start-HasIds : HasIds start
start-HasIds = record {
  steps = record { below = omega arith; unique = λ i. ground arith };
  runs = record { below = omega arith; unique = λ i. ground arith };
  workflow_runs = record { below = omega arith; unique = λ i. ground arith };
  pauses = record { below = omega arith; unique = λ i. ground arith };
}

abbrev approved : Message
approved = gate_resolved 31 approve

-- A paused step beside as many as the cap allows.
abbrev full : Db
full =
    base_with
      (a_step 7 "Coder" StepStatus.paused_gate
        ∷ a_step 8 "Coder" StepStatus.running
        ∷ a_step 9 "Coder" StepStatus.running
        ∷ [])
      DailyRunStatus.paused_gate

approved_over_cap : (inflight 1 full ≡ 2) × (inflight 1 (resume_gate no_yaml 31 approve full).1 ≡ 3)
unfolding resume_gate settle_gate resume_run requeue_step update_step update_run update_pauses emit
    add_job enqueue_runner_step enqueue_by gets pure ◌>>=◌
approved_over_cap = (refl, refl)
