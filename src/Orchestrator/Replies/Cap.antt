-- ===== src/Orchestrator/Replies/Cap.antt =====
-- Replies keep an organization within its cap.
use mergecrew.Base.{ℕ, String, Option, ◌≡◌, refl, Bool-cases, any, inl, inr}
use mergecrew.Exec.Preserves.{Preserves}
use mergecrew.Graph.{GraphDefinition}
use mergecrew.Orchestrator.Store.{
  Db, DailyRun, WorkflowRun, RunPause, update_run, update_workflow_run, create_workflow_run,
  create_pause, run_is, workflow_run_is,
}
use mergecrew.Orchestrator.Dispatch.{Scope}
use mergecrew.Orchestrator.Dispatch.Cap.{
  IsWithinCap, enqueue-IsWithinCap, dispatch_agent_step-IsWithinCap,
}
use mergecrew.Orchestrator.Flow.Keeping.{ReplyRules}
use mergecrew.Orchestrator.Replies.{StepOutcome, on_step_reply}
use mergecrew.Orchestrator.Replies.Keeping.{on_step_reply-Preserves}

module _ (org cap : ℕ) where
  -- Writes of other tables.
  other_table :
      (db db' : Db)
      → db'.steps ≡ db.steps
      → db'.organizations ≡ db.organizations
      → IsWithinCap org cap db
      → IsWithinCap org cap db'
  other_table db db' p q v = record {
    capped = rw q v.capped;
    positive = v.positive;
    within = rw p v.within;
  }

  pub update_run-IsWithinCap :
      (i : ℕ) (f : DailyRun → DailyRun) → Preserves (IsWithinCap org cap) (update_run i f)
  unfolding update_run
  update_run-IsWithinCap i f = record {
    after = λ db v. elim (Bool-cases (any (run_is i) db.runs)) [
      | inl q ↦ rw q (other_table db _ refl refl v)
      | inr q ↦ rw q v
    ];
  }

  update_workflow_run-IsWithinCap :
      (i : ℕ) (f : WorkflowRun → WorkflowRun)
      → Preserves (IsWithinCap org cap) (update_workflow_run i f)
  unfolding update_workflow_run
  update_workflow_run-IsWithinCap i f = record {
    after = λ db v. elim (Bool-cases (any (workflow_run_is i) db.workflow_runs)) [
      | inl q ↦ rw q (other_table db _ refl refl v)
      | inr q ↦ rw q v
    ];
  }

  create_workflow_run-IsWithinCap :
      (row : ℕ → WorkflowRun) → Preserves (IsWithinCap org cap) (create_workflow_run row)
  unfolding create_workflow_run
  create_workflow_run-IsWithinCap row = record { after = λ db v. other_table db _ refl refl v }

  create_pause-IsWithinCap :
      (row : ℕ → RunPause) → Preserves (IsWithinCap org cap) (create_pause row)
  unfolding create_pause
  create_pause-IsWithinCap row = record { after = λ db v. other_table db _ refl refl v }

  pub reply-IsWithinCap : (r : ℕ) → ReplyRules (IsWithinCap org cap) r
  reply-IsWithinCap r = record {
    starts = record {
      enqueue = enqueue-IsWithinCap org cap;
      dispatches = λ sc e a cfg key. dispatch_agent_step-IsWithinCap org cap sc a cfg key;
      starts_workflow = λ row h. create_workflow_run-IsWithinCap row;
      ends_workflow = λ i f h. update_workflow_run-IsWithinCap i f;
    };
    ends_run = λ f h. update_run-IsWithinCap r f;
    pauses = λ row h. create_pause-IsWithinCap row;
  }

-- Whatever a runner replies, and whatever follows from it (successor nodes, fan-out, the next
-- workflows), an organization that has a cap and is within it stays within it.
pub on_step_reply-IsWithinCap :
    (parse_yaml : String → Option GraphDefinition) (org cap : ℕ) (sc : Scope) (i : ℕ)
    (o : StepOutcome) (db : Db)
    → IsWithinCap org cap db
    → IsWithinCap org cap (on_step_reply parse_yaml sc i o db).1
on_step_reply-IsWithinCap parse_yaml org cap sc i o db v =
    (on_step_reply-Preserves (reply-IsWithinCap org cap sc.run_id) sc refl parse_yaml i o).after db
      v
