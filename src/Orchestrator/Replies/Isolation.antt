-- ===== src/Orchestrator/Replies/Isolation.antt =====
-- A reply or a resume of one run leaves the other runs alone.
use mergecrew.Base.{
  ℕ, String, Option, none, some, List, [], ◌∷◌, ◌≡◌, ◌≢◌, refl, arith, Bool-cases, any, inl, inr,
  find, ◌==◌, Option-cases,
}
use mergecrew.Exec.{pure, ◌>>=◌}
use mergecrew.Exec.Preserves.{Preserves}
use mergecrew.Graph.{GraphDefinition}
use mergecrew.Orchestrator.Store.{
  Db, DailyRun, WorkflowRun, RunPause, AgentStep, ApprovalRequest, update_run, update_workflow_run,
  create_workflow_run, create_pause, update_step, update_pauses, create_step, emit, add_job, run_is,
  step_is, workflow_run_is, change, find_run,
}
use mergecrew.Orchestrator.Dispatch.{Scope}
use mergecrew.Orchestrator.Dispatch.Keeping.{EnqueueRules, dispatch_agent_step-Preserves}
use mergecrew.Orchestrator.Replies.{
  StepOutcome, on_step_reply, Resolution, resume_gate, open_pause_of, resume_pause,
}
use mergecrew.Orchestrator.Replies.Keeping.{on_step_reply-Preserves}
use mergecrew.Orchestrator.Replies.Resuming.{ResumeRules, resume_pause-Preserves}

pub find-change :
    (i j : ℕ) (f : DailyRun → DailyRun)
    → i ≢ j
    → ((x : DailyRun) → (f x).id ≡ x.id)
    → (xs : List DailyRun) → find (run_is j) (change (run_is i) f xs) ≡ find (run_is j) xs
find-change i j f ne h [] = refl
find-change i j f ne h (x ∷ xs) = ground (arith, h x, find-change i j f ne h xs)

-- The run `j` is stored as `x`.
abbrev pub HasRun : ℕ → Option DailyRun → Db → Type 0
HasRun j x db = find_run j db ≡ x

module _ (j : ℕ) (x : Option DailyRun) where
  pub update_step-HasRun :
      (i : ℕ) (f : AgentStep → AgentStep) → Preserves (HasRun j x) (update_step i f)
  unfolding update_step
  update_step-HasRun i f = record {
    after =
        λ db v. elim (Bool-cases (any (step_is i) db.steps)) [ inl q ↦ rw q v | inr q ↦ rw q v ];
  }

  update_run-HasRun :
      (i : ℕ) (f : DailyRun → DailyRun)
      → i ≢ j
      → ((y : DailyRun) → (f y).id ≡ y.id)
      → Preserves (HasRun j x) (update_run i f)
  unfolding update_run
  update_run-HasRun i f ne h = record {
    after = λ db v. elim (Bool-cases (any (run_is i) db.runs)) [
      | inl q ↦ rw (q, find-change i j f ne h db.runs) v
      | inr q ↦ rw q v
    ];
  }

  update_workflow_run-HasRun :
      (i : ℕ) (f : WorkflowRun → WorkflowRun) → Preserves (HasRun j x) (update_workflow_run i f)
  unfolding update_workflow_run
  update_workflow_run-HasRun i f = record {
    after = λ db v. elim (Bool-cases (any (workflow_run_is i) db.workflow_runs)) [
      | inl q ↦ rw q v
      | inr q ↦ rw q v
    ];
  }

  pub enqueue-HasRun : EnqueueRules (HasRun j x)
  unfolding emit add_job
  enqueue-HasRun = record {
    emits = λ e. record { after = λ db v. v };
    queues = λ e. record { after = λ db v. v };
    settles = λ i f h. update_step-HasRun i f;
  }

  resume-HasRun : (r : ℕ) → r ≢ j → ResumeRules (HasRun j x) r
  unfolding create_step create_workflow_run create_pause update_pauses
  resume-HasRun r ne = record {
    replies = record {
      starts = record {
        enqueue = enqueue-HasRun;
        dispatches = λ sc e a cfg key.
            dispatch_agent_step-Preserves enqueue-HasRun sc key
              (λ b d. record { after = λ db v. v }) a cfg;
        starts_workflow = λ row h. record { after = λ db v. v };
        ends_workflow = λ i f h. update_workflow_run-HasRun i f;
      };
      ends_run = λ f h. update_run-HasRun r f ne h;
      pauses = λ row h. record { after = λ db v. v };
    };
    requeues = λ i. update_step-HasRun i _;
    closes = λ p f h. record { after = λ db v. v };
  }

-- Every other run is stored after a reply as it was before.
pub on_step_reply-isolated :
    (parse_yaml : String → Option GraphDefinition) (sc : Scope) (i : ℕ) (o : StepOutcome) (j : ℕ)
    (db : Db)
    → sc.run_id ≢ j
    → find_run j (on_step_reply parse_yaml sc i o db).1 ≡ find_run j db
on_step_reply-isolated parse_yaml sc i o j db ne =
    (on_step_reply-Preserves (resume-HasRun j (find_run j db) sc.run_id ne).replies sc refl
        parse_yaml i o).after
      db refl

resume_pause-isolated :
    (parse_yaml : String → Option GraphDefinition) (res : Resolution) (ar : ApprovalRequest)
    (o : Option RunPause) (j : ℕ) (db : Db)
    → ((p : RunPause) → o ≡ some p → p.daily_run_id ≢ j)
    → find_run j (resume_pause parse_yaml res ar o db).1 ≡ find_run j db
unfolding pure
resume_pause-isolated parse_yaml res ar none j db other = refl
resume_pause-isolated parse_yaml res ar (some p) j db other =
    (resume_pause-Preserves parse_yaml res ar p
        (resume-HasRun j (find_run j db) p.daily_run_id (other p refl))).after
      db refl

-- A resolved gate touches no run but the one whose open pause waits for that approval: sibling runs
-- that are paused on other gates stay as they are.
pub resume_gate-isolated :
    (parse_yaml : String → Option GraphDefinition) (a : ℕ) (res : Resolution) (j : ℕ) (db : Db)
    → ((ar : ApprovalRequest) (p : RunPause)
        → find (λ x. x.id == a) db.approvals ≡ some ar
        → find (open_pause_of ar.id) db.pauses ≡ some p
        → p.daily_run_id ≢ j)
    → find_run j (resume_gate parse_yaml a res db).1 ≡ find_run j db
unfolding resume_gate ◌>>=◌
resume_gate-isolated parse_yaml a res j db other =
    elim (Option-cases (find (λ x. x.id == a) db.approvals)) [
      | inl q ↦ rw q refl
      | inr (ar, q) ↦ rw q (
          resume_pause-isolated parse_yaml res ar (find (open_pause_of ar.id) db.pauses) j db
            (λ p. other ar p q))
    ]
