-- ===== src/Orchestrator/System/Keeping.antt =====
-- Invariants of all messages, from the writes that they make.
use mergecrew.Base.{ℕ, String, Option, none, some, refl}
use mergecrew.Exec.Preserves.{Preserves, Preserves-bind, Preserves-pure, Preserves-gets}
use mergecrew.Graph.{GraphDefinition}
use mergecrew.Orchestrator.Store.{Db, AgentStep, RunPause, ApprovalRequest}
use mergecrew.Orchestrator.Dispatch.{Scope, handle_org_cap_wait}
use mergecrew.Orchestrator.Dispatch.Keeping.{enqueue_runner_step-Preserves}
use mergecrew.Orchestrator.Replies.{
  Resolution, resume_rate_limit, wake_step, resume_gate, resume_pause, resume_approval,
}
use mergecrew.Orchestrator.Replies.Keeping.{on_step_reply-Preserves}
use mergecrew.Orchestrator.Replies.Resuming.{ResumeRules, resume_pause-Preserves}
use mergecrew.Orchestrator.RunStart.Keeping.{DueRules, due_parts, handle_run_due-Preserves}
use mergecrew.Orchestrator.Watchdog.Keeping.{stuck_run_watchdog-Preserves}
use mergecrew.Orchestrator.Sweeper.Keeping.{SweepRules, tick-Preserves}
use mergecrew.Orchestrator.System.{
  Message, run_due, org_cap_over, step_reply, rate_limit_over, gate_resolved, sweep, watchdog,
  clock, set_clock, handle,
}

-- What any message writes.
pub record HandleRules {ℓ} (P : Db → Type ℓ) : Type ℓ where
  pub resumes : (r : ℕ) → ResumeRules P r
  pub due : DueRules P
  pub sweeps : SweepRules P
  pub sets_clock : (t : ℕ) → Preserves P (set_clock t)

module _ {ℓ} {P : Db → Type ℓ} (k : HandleRules P) where
  open k use {resumes, due, sweeps, sets_clock}
  open k.sweeps use {enqueue}

  wake_step-Preserves : (sc : Scope) (s : Option AgentStep) → Preserves P (wake_step sc s)
  wake_step-Preserves sc none = Preserves-pure tt
  wake_step-Preserves sc (some s) = enqueue_runner_step-Preserves enqueue _

  resume_rate_limit-Preserves : (sc : Scope) (i : ℕ) → Preserves P (resume_rate_limit sc i)
  unfolding resume_rate_limit
  resume_rate_limit-Preserves sc i = Preserves-bind _ _ (Preserves-gets _) λ now.
      Preserves-bind _ _ ((resumes sc.run_id).closes _ _ (λ q. refl)) λ _.
        Preserves-bind _ _ (due.writes sc.run_id _ (λ x e. e)) λ _.
          Preserves-bind _ _ (enqueue.emits _)
            λ _. Preserves-bind _ _ (Preserves-gets _) λ s. wake_step-Preserves sc s

  module _ (parse_yaml : String → Option GraphDefinition) where
    resume_found-Preserves :
        (res : Resolution) (ar : ApprovalRequest) (o : Option RunPause)
        → Preserves P (resume_pause parse_yaml res ar o)
    resume_found-Preserves res ar none = Preserves-pure tt
    resume_found-Preserves res ar (some p) =
        resume_pause-Preserves parse_yaml res ar p (resumes p.daily_run_id)

    resume_approval-Preserves :
        (res : Resolution) (o : Option ApprovalRequest)
        → Preserves P (resume_approval parse_yaml res o)
    resume_approval-Preserves res none = Preserves-pure tt
    resume_approval-Preserves res (some ar) =
        Preserves-bind _ _ (Preserves-gets _) λ p. resume_found-Preserves res ar p

    pub handle-Preserves : (m : Message) → Preserves P (handle parse_yaml m)
    unfolding handle handle_org_cap_wait resume_gate
    handle-Preserves (run_due sync job) =
        handle_run_due-Preserves (due_parts due) parse_yaml job sync
    handle-Preserves (org_cap_over w) =
        Preserves-bind _ _ (Preserves-gets _) λ lc. (due.starts w.run_id).dispatches _ refl _ _ _
    handle-Preserves (step_reply sc i outcome) =
        on_step_reply-Preserves (resumes sc.run_id).replies sc refl parse_yaml i outcome
    handle-Preserves (rate_limit_over sc i) = resume_rate_limit-Preserves sc i
    handle-Preserves (gate_resolved a res) =
        Preserves-bind _ _ (Preserves-gets _) λ ar. resume_approval-Preserves res ar
    handle-Preserves (sweep cfg) = tick-Preserves sweeps cfg
    handle-Preserves (watchdog cfg) = stuck_run_watchdog-Preserves due.writes enqueue.emits cfg
    handle-Preserves (clock t) = sets_clock t
