-- ===== src/Orchestrator/System/Unique.antt =====
-- No message gives an id twice.
use mergecrew.Base.{ℕ, String, Option, refl, ◌&&◌, arith}
use mergecrew.Graph.{GraphDefinition}
use mergecrew.Orchestrator.Store.{Db, emit, add_job, step_is}
use mergecrew.Orchestrator.Store.Ids.{fresh-change}
use mergecrew.Orchestrator.Dispatch.Keeping.{EnqueueRules, dispatch_agent_step-Preserves}
use mergecrew.Orchestrator.Flow.Keeping.{StartRules}
use mergecrew.Orchestrator.Replies.Resuming.{ResumeRules}
use mergecrew.Orchestrator.RunStart.{store_lifecycle}
use mergecrew.Orchestrator.RunStart.Keeping.{DueRules}
use mergecrew.Orchestrator.Sweeper.{update_running_step, is_running}
use mergecrew.Orchestrator.Sweeper.Keeping.{SweepRules}
use mergecrew.Orchestrator.System.{Message, set_clock, Reachable, Reachable_induction}
use mergecrew.Orchestrator.System.Keeping.{HandleRules, handle-Preserves}
use mergecrew.Orchestrator.System.Ids.{
  HasIds, same, step-HasIds, run-HasIds, workflow_run-HasIds, create_step-HasIds, create_run-HasIds,
  create_workflow_run-HasIds, create_pause-HasIds, update_pauses-HasIds,
}

enqueue-HasIds : EnqueueRules HasIds
unfolding emit add_job
enqueue-HasIds = record {
  emits = λ e. record { after = λ db v. same db _ refl refl refl refl refl v };
  queues = λ j. record { after = λ db v. same db _ refl refl refl refl refl v };
  settles = λ i f h. step-HasIds i f (λ s. (h s).0);
}

starts-HasIds : (r : ℕ) → StartRules HasIds r
starts-HasIds r = record {
  enqueue = enqueue-HasIds;
  dispatches = λ sc e a cfg key.
      dispatch_agent_step-Preserves enqueue-HasIds sc key (λ b d. create_step-HasIds _ (λ i. refl))
        a cfg;
  starts_workflow = λ row h. create_workflow_run-HasIds row h;
  ends_workflow = λ i f h. workflow_run-HasIds i f h;
}

resume-HasIds : (r : ℕ) → ResumeRules HasIds r
resume-HasIds r = record {
  replies = record {
    starts = starts-HasIds r;
    ends_run = λ f h. run-HasIds r f (λ x e. ground (arith, h x));
    pauses = λ row h. create_pause-HasIds row h;
  };
  requeues = λ i. step-HasIds i _ (λ s. refl);
  closes = λ p f h. update_pauses-HasIds p f h;
}

due-HasIds : DueRules HasIds
unfolding store_lifecycle
due-HasIds = record {
  starts = starts-HasIds;
  writes = λ i f h. run-HasIds i f h;
  creates = λ row h. create_run-HasIds row h;
  stores = λ sync. record { after = λ db v. same db _ refl refl refl refl refl v };
}

sweep-HasIds : SweepRules HasIds
unfolding update_running_step
sweep-HasIds = record {
  enqueue = enqueue-HasIds;
  beats = λ i now. step-HasIds i _ (λ s. refl);
  gives_up = λ i f h. record {
    after = λ db v. record {
      steps =
          fresh-change (λ s. s.id) db.next_id (λ s. step_is i s && is_running s.status) f db.steps
            (λ s t. (h s).0) v.steps;
      runs = v.runs;
      workflow_runs = v.workflow_runs;
      pauses = v.pauses;
    };
  };
}

pub rules-HasIds : HandleRules HasIds
unfolding set_clock
rules-HasIds = record {
  resumes = resume-HasIds;
  due = due-HasIds;
  sweeps = sweep-HasIds;
  sets_clock = λ t. record { after = λ db v. same db _ refl refl refl refl refl v };
}

-- Any message.
abbrev pub IsAny : Message → Type 0
IsAny m = Unit

-- In a state where the steps, the runs, the workflow runs and the pauses have each an id of their own in their
-- table and below the next id, the same holds after any messages, in any order, each handled to its end before
-- the next: run starts, deferred dispatches, replies, ends of rate limits, resolved gates, sweeps and runs of
-- the watchdog.
pub Reachable-HasIds :
    (parse_yaml : String → Option GraphDefinition) (start db : Db)
    → HasIds start
    → Reachable parse_yaml IsAny start db
    → HasIds db
Reachable-HasIds parse_yaml start db v r =
    Reachable_induction parse_yaml (λ m is. handle-Preserves rules-HasIds parse_yaml m) v r
