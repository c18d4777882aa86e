-- ===== src/Orchestrator/System/Approvals.antt =====
-- The orchestrator only reads the approval requests.
use mergecrew.Base.{ℕ, String, Option, List, ◌≡◌, refl, Bool-cases, any, inl, inr}
use mergecrew.Exec.Preserves.{Preserves}
use mergecrew.Graph.{GraphDefinition}
use mergecrew.Orchestrator.Store.{
  Db, AgentStep, DailyRun, WorkflowRun, ApprovalRequest, emit, add_job, update_step, update_run,
  update_workflow_run, update_pauses, create_step, create_run, create_workflow_run, create_pause,
  step_is, run_is, workflow_run_is,
}
use mergecrew.Orchestrator.Dispatch.Keeping.{EnqueueRules, dispatch_agent_step-Preserves}
use mergecrew.Orchestrator.Flow.Keeping.{StartRules}
use mergecrew.Orchestrator.RunStart.{store_lifecycle}
use mergecrew.Orchestrator.Sweeper.{update_running_step}
use mergecrew.Orchestrator.System.{Message, set_clock, handle}
use mergecrew.Orchestrator.System.Keeping.{HandleRules, handle-Preserves}

abbrev HasApprovals : List ApprovalRequest → Db → Type 0
HasApprovals xs db = db.approvals ≡ xs

module _ (xs : List ApprovalRequest) where
  step-HasApprovals :
      (i : ℕ) (f : AgentStep → AgentStep) → Preserves (HasApprovals xs) (update_step i f)
  unfolding update_step
  step-HasApprovals i f = record {
    after =
        λ db v. elim (Bool-cases (any (step_is i) db.steps)) [ inl q ↦ rw q v | inr q ↦ rw q v ];
  }

  run-HasApprovals :
      (i : ℕ) (f : DailyRun → DailyRun) → Preserves (HasApprovals xs) (update_run i f)
  unfolding update_run
  run-HasApprovals i f = record {
    after = λ db v. elim (Bool-cases (any (run_is i) db.runs)) [ inl q ↦ rw q v | inr q ↦ rw q v ];
  }

  workflow_run-HasApprovals :
      (i : ℕ) (f : WorkflowRun → WorkflowRun)
      → Preserves (HasApprovals xs) (update_workflow_run i f)
  unfolding update_workflow_run
  workflow_run-HasApprovals i f = record {
    after = λ db v. elim (Bool-cases (any (workflow_run_is i) db.workflow_runs)) [
      | inl q ↦ rw q v
      | inr q ↦ rw q v
    ];
  }

  enqueue-HasApprovals : EnqueueRules (HasApprovals xs)
  unfolding emit add_job
  enqueue-HasApprovals = record {
    emits = λ e. record { after = λ db v. v };
    queues = λ j. record { after = λ db v. v };
    settles = λ i f h. step-HasApprovals i f;
  }

  starts-HasApprovals : (r : ℕ) → StartRules (HasApprovals xs) r
  unfolding create_step create_workflow_run
  starts-HasApprovals r = record {
    enqueue = enqueue-HasApprovals;
    dispatches = λ sc e a cfg key.
        dispatch_agent_step-Preserves enqueue-HasApprovals sc key
          (λ b d. record { after = λ db v. v }) a cfg;
    starts_workflow = λ row h. record { after = λ db v. v };
    ends_workflow = λ i f h. workflow_run-HasApprovals i f;
  }

  rules-HasApprovals : HandleRules (HasApprovals xs)
  unfolding create_pause update_pauses create_run store_lifecycle update_running_step set_clock
  rules-HasApprovals = record {
    resumes = λ r. record {
      replies = record {
        starts = starts-HasApprovals r;
        ends_run = λ f h. run-HasApprovals r f;
        pauses = λ row h. record { after = λ db v. v };
      };
      requeues = λ i. step-HasApprovals i _;
      closes = λ p f h. record { after = λ db v. v };
    };
    due = record {
      starts = starts-HasApprovals;
      writes = λ i f h. run-HasApprovals i f;
      creates = λ row h. record { after = λ db v. v };
      stores = λ sync. record { after = λ db v. v };
    };
    sweeps = record {
      enqueue = enqueue-HasApprovals;
      beats = λ i now. step-HasApprovals i _;
      gives_up = λ i f h. record { after = λ db v. v };
    };
    sets_clock = λ t. record { after = λ db v. v };
  }

pub handle-approvals :
    (parse_yaml : String → Option GraphDefinition) (m : Message) (db : Db)
    → (handle parse_yaml m db).1.approvals ≡ db.approvals
handle-approvals parse_yaml m db =
    (handle-Preserves (rules-HasApprovals db.approvals) parse_yaml m).after db refl
