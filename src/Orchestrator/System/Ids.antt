-- ===== src/Orchestrator/System/Ids.antt =====
-- Ids of rows under every message, the resolution of gates included.
use mergecrew.Base.{ℕ, ◌+◌, ◌≡◌, arith, Bool, Bool-cases, any, inl, inr}
use mergecrew.Exec.Preserves.{Preserves}
use mergecrew.Orchestrator.Store.{
  Db, AgentStep, DailyRun, WorkflowRun, RunPause, update_step, update_run, update_workflow_run,
  update_pauses, create_step, create_run, create_workflow_run, create_pause, step_is, run_is,
  workflow_run_is,
}
use mergecrew.Orchestrator.Store.Ids.{IsFresh, fresh-later, fresh-change, fresh-append}

-- In each table no id stands twice, and the next id stands nowhere.
pub record HasIds (db : Db) : Type 0 where
  pub steps : IsFresh (λ s. s.id) db.next_id db.steps
  pub runs : IsFresh (λ r. r.id) db.next_id db.runs
  pub workflow_runs : IsFresh (λ w. w.id) db.next_id db.workflow_runs
  pub pauses : IsFresh (λ p. p.id) db.next_id db.pauses

pub same :
    (db db' : Db)
    → db'.steps ≡ db.steps
    → db'.runs ≡ db.runs
    → db'.workflow_runs ≡ db.workflow_runs
    → db'.pauses ≡ db.pauses
    → db'.next_id ≡ db.next_id
    → HasIds db
    → HasIds db'
same db db' a b c d e v = record {
  steps = rw (a, e) v.steps;
  runs = rw (b, e) v.runs;
  workflow_runs = rw (c, e) v.workflow_runs;
  pauses = rw (d, e) v.pauses;
}

pub step-HasIds :
    (i : ℕ) (f : AgentStep → AgentStep)
    → ((s : AgentStep) → (f s).id ≡ s.id)
    → Preserves HasIds (update_step i f)
unfolding update_step
step-HasIds i f h = record {
  after = λ db v. elim (Bool-cases (any (step_is i) db.steps)) [
    | inl q ↦ rw q (record {
      steps = fresh-change (λ s. s.id) db.next_id (step_is i) f db.steps (λ x t. h x) v.steps;
      runs = v.runs;
      workflow_runs = v.workflow_runs;
      pauses = v.pauses;
    })
    | inr q ↦ rw q v
  ];
}

pub run-HasIds :
    (i : ℕ) (f : DailyRun → DailyRun)
    → ((x : DailyRun) → x.id ≡ i → (f x).id ≡ i)
    → Preserves HasIds (update_run i f)
unfolding update_run
run-HasIds i f h = record {
  after = λ db v. elim (Bool-cases (any (run_is i) db.runs)) [
    | inl q ↦ rw q (record {
      runs =
          fresh-change (λ r. r.id) db.next_id (run_is i) f db.runs (λ x t. ground (arith, h x))
            v.runs;
      steps = v.steps;
      workflow_runs = v.workflow_runs;
      pauses = v.pauses;
    })
    | inr q ↦ rw q v
  ];
}

pub workflow_run-HasIds :
    (i : ℕ) (f : WorkflowRun → WorkflowRun)
    → ((w : WorkflowRun) → (f w).id ≡ w.id)
    → Preserves HasIds (update_workflow_run i f)
unfolding update_workflow_run
workflow_run-HasIds i f h = record {
  after = λ db v. elim (Bool-cases (any (workflow_run_is i) db.workflow_runs)) [
    | inl q ↦ rw q (record {
      workflow_runs =
          fresh-change (λ w. w.id) db.next_id (workflow_run_is i) f db.workflow_runs (λ x t. h x)
            v.workflow_runs;
      steps = v.steps;
      runs = v.runs;
      pauses = v.pauses;
    })
    | inr q ↦ rw q v
  ];
}

-- A created row takes the next id, and the other tables are below the one after it.
module _ (db : Db) (v : HasIds db) where
  later_steps : IsFresh (λ s. s.id) (db.next_id + 1) db.steps
  later_steps = fresh-later (λ s. s.id) db.next_id (db.next_id + 1) db.steps (omega arith) v.steps

  later_runs : IsFresh (λ r. r.id) (db.next_id + 1) db.runs
  later_runs = fresh-later (λ r. r.id) db.next_id (db.next_id + 1) db.runs (omega arith) v.runs

  later_workflow_runs : IsFresh (λ w. w.id) (db.next_id + 1) db.workflow_runs
  later_workflow_runs =
      fresh-later (λ w. w.id) db.next_id (db.next_id + 1) db.workflow_runs (omega arith)
        v.workflow_runs

  later_pauses : IsFresh (λ p. p.id) (db.next_id + 1) db.pauses
  later_pauses =
      fresh-later (λ p. p.id) db.next_id (db.next_id + 1) db.pauses (omega arith) v.pauses

pub create_step-HasIds :
    (row : ℕ → AgentStep) → ((i : ℕ) → (row i).id ≡ i) → Preserves HasIds (create_step row)
unfolding create_step
create_step-HasIds row h = record {
  after = λ db v. record {
    steps = fresh-append (λ s. s.id) db.next_id (row db.next_id) db.steps v.steps (h db.next_id);
    runs = later_runs db v;
    workflow_runs = later_workflow_runs db v;
    pauses = later_pauses db v;
  };
}

pub create_run-HasIds :
    (row : ℕ → DailyRun) → ((i : ℕ) → (row i).id ≡ i) → Preserves HasIds (create_run row)
unfolding create_run
create_run-HasIds row h = record {
  after = λ db v. record {
    runs = fresh-append (λ r. r.id) db.next_id (row db.next_id) db.runs v.runs (h db.next_id);
    steps = later_steps db v;
    workflow_runs = later_workflow_runs db v;
    pauses = later_pauses db v;
  };
}

pub create_workflow_run-HasIds :
    (row : ℕ → WorkflowRun)
    → ((i : ℕ) → (row i).id ≡ i)
    → Preserves HasIds (create_workflow_run row)
unfolding create_workflow_run
create_workflow_run-HasIds row h = record {
  after = λ db v. record {
    workflow_runs =
        fresh-append (λ w. w.id) db.next_id (row db.next_id) db.workflow_runs v.workflow_runs
          (h db.next_id);
    steps = later_steps db v;
    runs = later_runs db v;
    pauses = later_pauses db v;
  };
}

pub create_pause-HasIds :
    (row : ℕ → RunPause) → ((i : ℕ) → (row i).id ≡ i) → Preserves HasIds (create_pause row)
unfolding create_pause
create_pause-HasIds row h = record {
  after = λ db v. record {
    pauses = fresh-append (λ p. p.id) db.next_id (row db.next_id) db.pauses v.pauses (h db.next_id);
    steps = later_steps db v;
    runs = later_runs db v;
    workflow_runs = later_workflow_runs db v;
  };
}

pub update_pauses-HasIds :
    (p : RunPause → Bool) (f : RunPause → RunPause)
    → ((q : RunPause) → (f q).id ≡ q.id)
    → Preserves HasIds (update_pauses p f)
unfolding update_pauses
update_pauses-HasIds p f h = record {
  after = λ db v. record {
    pauses = fresh-change (λ q. q.id) db.next_id p f db.pauses (λ x t. h x) v.pauses;
    steps = v.steps;
    runs = v.runs;
    workflow_runs = v.workflow_runs;
  };
}
