-- ===== src/Orchestrator/System.antt =====
-- apps/orchestrator/src/main.ts: the handlers of the orchestrator's queues and its sweeper, in any order, one after the
-- other. The service handles several messages at once, and the reads and writes of two handlers may mix there; that is
-- not modelled. The queues of manual dispatch, of webhooks and of digests have no message here.
pub mod Keeping
pub mod Cap
pub mod Ids
pub mod Unique
pub mod Approvals
mod Tests
use mergecrew.Base.{ℕ, String, Option}
use mergecrew.Exec.{Exec, ok}
use mergecrew.Exec.Preserves.{Preserves}
use mergecrew.Graph.{GraphDefinition}
use mergecrew.Orchestrator.Store.{Db, Lifecycle, WaitJob}
use mergecrew.Orchestrator.Dispatch.{Scope, handle_org_cap_wait}
use mergecrew.Orchestrator.Replies.{
  StepOutcome, on_step_reply, resume_rate_limit, Resolution, resume_gate,
}
use mergecrew.Orchestrator.RunStart.{RunDue, handle_run_due}
use mergecrew.Orchestrator.Watchdog.{WatchdogConfig, stuck_run_watchdog}
use mergecrew.Orchestrator.Sweeper.{SweeperConfig, tick}

-- A message of a queue, a tick of the sweeper's timer, a run of the watchdog by worker-cron, or time that passes.
pub data Message : Type 0 where
  run_due : ((ℕ → Option Lifecycle) → ℕ → Option Lifecycle) → RunDue → Message
  org_cap_over : WaitJob → Message
  step_reply : Scope → ℕ → StepOutcome → Message
  rate_limit_over : Scope → ℕ → Message
  gate_resolved : ℕ → Resolution → Message
  sweep : SweeperConfig → Message
  watchdog : WatchdogConfig → Message
  clock : ℕ → Message

unfoldable pub set_clock : ℕ → Exec Db Unit
set_clock t db = (ok tt, record db { now = t })

module _ (parse_yaml : String → Option GraphDefinition) where
  unfoldable pub handle : Message → Exec Db Unit
  handle (run_due sync due) = handle_run_due parse_yaml sync due
  handle (org_cap_over w) = handle_org_cap_wait w
  handle (step_reply sc i outcome) = on_step_reply parse_yaml sc i outcome
  handle (rate_limit_over sc i) = resume_rate_limit sc i
  handle (gate_resolved approval_id res) = resume_gate parse_yaml approval_id res
  handle (sweep cfg) = tick cfg
  handle (watchdog cfg) = stuck_run_watchdog cfg
  handle (clock t) = set_clock t

  -- The states after any messages of a kind, in any order.
  pub data Reachable (IsOf : Message → Type 0) (start : Db) : Db → Type 0 where
    at_start : Reachable IsOf start start
    after_message :
        {before : Db} (m : Message)
        → IsOf m
        → Reachable IsOf start before
        → Reachable IsOf start (handle m before).1

  -- What each message of a kind keeps, all of them keep.
  pub Reachable_induction {ℓ} :
      {P : Db → Type ℓ} {IsOf : Message → Type 0} {start db : Db}
      → ((m : Message) → IsOf m → Preserves P (handle m))
      → P start
      → Reachable IsOf start db
      → P db
  Reachable_induction keeps p at_start = p
  Reachable_induction keeps p (after_message {before} m is r) =
      (keeps m is).after before (Reachable_induction keeps p r)
