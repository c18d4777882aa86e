-- ===== src/Orchestrator/RunStart/Starts.antt =====
-- A run that the API created is started.
use mergecrew.Base.{
  ◌==◌, ==_iff, ℕ, String, Bool, Option, some, List, [], ◌∷◌, ◌++◌, true, false, ◌≡◌, refl, ap,
  arith, Bool-cases, any, find, inl, inr, Any, here, there, any_complete, Any-map, find-Any,
}
use mergecrew.Exec.{pure, gets, ◌>>=◌}
use mergecrew.Exec.Preserves.{Preserves, Preserves-pure}
use mergecrew.Graph.{GraphDefinition}
use mergecrew.Orchestrator.Store.Rows.{find-narrower}
use mergecrew.Orchestrator.Store.{
  Db, DailyRun, DailyRunStatus, Event, run_started, AgentStep, WorkflowRun, WorkflowDef, Project,
  Lifecycle, update_step, update_run, update_workflow_run, create_workflow_run, create_step, emit,
  add_job, step_is, run_is, workflow_run_is, change, find_run, tenant_project, find_organization,
}
use mergecrew.Orchestrator.Dispatch.{Scope}
use mergecrew.Orchestrator.Dispatch.Keeping.{EnqueueRules, dispatch_agent_step-Preserves}
use mergecrew.Orchestrator.Flow.Keeping.{StartRules, start_workflow-Preserves}
use mergecrew.Orchestrator.RunStart.{
  RunDue, org_paused, store_lifecycle, claimed, claim_row, claim, obtain_run, start_first,
  begin_run, run_with, start_unless_paused, start_project, handle_run_due,
}

abbrev pub IsStartOf : ℕ → Event → Type 0
IsStartOf i e = (e.type ≡ run_started) × (e.daily_run_id ≡ i)

-- The run is stored as `x`, and its start was announced.
pub record IsUnderWay (i : ℕ) (x : DailyRun) (db : Db) : Type 0 where
  pub stored : find_run i db ≡ some x
  pub announced : Any (IsStartOf i) db.events

Any-before : {P : Event → Type 0} (xs : List Event) (y : Event) → Any P xs → Any P (xs ++ (y ∷ []))
Any-before xs y (here p) = here p
Any-before (x ∷ xs) y (there a) = there (Any-before xs y a)

Any-last : {P : Event → Type 0} (xs : List Event) (y : Event) → P y → Any P (xs ++ (y ∷ []))
Any-last [] y p = here p
Any-last (x ∷ xs) y p = there (Any-last xs y p)

module _ (i : ℕ) (x : DailyRun) where
  other_table :
      (db db' : Db)
      → db'.runs ≡ db.runs
      → db'.events ≡ db.events
      → IsUnderWay i x db
      → IsUnderWay i x db'
  other_table db db' r e v = record { stored = rw r v.stored; announced = rw e v.announced }

  step-IsUnderWay :
      (j : ℕ) (f : AgentStep → AgentStep) → Preserves (IsUnderWay i x) (update_step j f)
  unfolding update_step
  step-IsUnderWay j f = record {
    after = λ db v. elim (Bool-cases (any (step_is j) db.steps)) [
      | inl q ↦ rw q (other_table db _ refl refl v)
      | inr q ↦ rw q v
    ];
  }

  workflow-IsUnderWay :
      (j : ℕ) (f : WorkflowRun → WorkflowRun) → Preserves (IsUnderWay i x) (update_workflow_run j f)
  unfolding update_workflow_run
  workflow-IsUnderWay j f = record {
    after = λ db v. elim (Bool-cases (any (workflow_run_is j) db.workflow_runs)) [
      | inl q ↦ rw q (other_table db _ refl refl v)
      | inr q ↦ rw q v
    ];
  }

  enqueue-IsUnderWay : EnqueueRules (IsUnderWay i x)
  unfolding emit add_job
  enqueue-IsUnderWay = record {
    emits = λ e. record {
      after = λ db v. record { stored = v.stored; announced = Any-before db.events e v.announced };
    };
    queues = λ j. record { after = λ db v. other_table db _ refl refl v };
    settles = λ j f h. step-IsUnderWay j f;
  }

  starts-IsUnderWay : (r : ℕ) → StartRules (IsUnderWay i x) r
  unfolding create_step create_workflow_run
  starts-IsUnderWay r = record {
    enqueue = enqueue-IsUnderWay;
    dispatches = λ sc e a cfg key.
        dispatch_agent_step-Preserves enqueue-IsUnderWay sc key
          (λ b d. record { after = λ db v. other_table db _ refl refl v }) a cfg;
    starts_workflow = λ row h. record { after = λ db v. other_table db _ refl refl v };
    ends_workflow = λ j f h. workflow-IsUnderWay j f;
  }

  start_first-IsUnderWay :
      (parse_yaml : String → Option GraphDefinition) (sc : Scope) (ws : List WorkflowDef)
      → Preserves (IsUnderWay i x) (start_first parse_yaml sc ws)
  start_first-IsUnderWay parse_yaml sc [] = Preserves-pure tt
  start_first-IsUnderWay parse_yaml sc (w ∷ ws) =
      start_workflow-Preserves (starts-IsUnderWay sc.run_id) parse_yaml sc refl w.id

-- A row that is found is there to be written, and is found again as it was written.
find-any : {A : Type 0} (p : A → Bool) (xs : List A) (r : A) → find p xs ≡ some r → any p xs ≡ true
find-any p xs r e = any_complete p xs (Any-map (λ y h. h.1) (find-Any p xs e))

find-change_same :
    {A : Type 0} (p : A → Bool) (f : A → A) (xs : List A) (r : A)
    → ((y : A) → p y ≡ true → p (f y) ≡ true)
    → find p xs ≡ some r
    → find p (change p f xs) ≡ some (f r)
find-change_same p f [] r h e = cc
find-change_same p f (y ∷ xs) r h e = elim (Bool-cases (p y)) [
  | inl q ↦
      let same : y ≡ r = ground (arith, rw q at e) in rw (q, h y q) (ap (λ z. some (f z)) same)
  | inr q ↦ rw (q, q) (find-change_same p f xs r h (rw q at e))
]

-- The row as the start leaves it.
abbrev pub begun : ℕ → ℕ → DailyRun → DailyRun
begun i now r = record r { id = i; status = DailyRunStatus.running; started_at = some now }

module _ (parse_yaml : String → Option GraphDefinition) (due : RunDue) (lc : Lifecycle)
    (i : ℕ) where
  begin_run-IsUnderWay :
      (db : Db) (r : DailyRun)
      → find_run i db ≡ some r
      → IsUnderWay i (record r { id = i }) (begin_run parse_yaml due lc (claimed i) db).1
  unfolding begin_run update_run emit ◌>>=◌
  begin_run-IsUnderWay db r e =
      let f = λ (y : DailyRun). record y { id = i } in
      let kept : (y : DailyRun) → run_is i y ≡ true → run_is i (f y) ≡ true = λ y h. ground arith in
      rw (find-any (run_is i) db.runs r e) (
        (start_first-IsUnderWay i (f r) parse_yaml _ lc.parsed.workflows).after _ (record {
          stored = find-change_same (run_is i) f db.runs r kept e;
          announced = Any-last db.events _ (refl, refl);
        }))

  run_with-IsUnderWay :
      (db : Db) (r : DailyRun)
      → due.run_id ≡ some i
      → find_run i db ≡ some r
      → r.organization_id ≡ due.organization_id
      → r.status ≡ DailyRunStatus.pending
      → IsUnderWay i (begun i db.now r) (run_with parse_yaml due (some lc) db).1
  unfolding run_with claim claim_row obtain_run begin_run update_run pure gets ◌>>=◌
  run_with-IsUnderWay db r d e o w =
      let its =
        find-narrower (run_is i) (λ x. x.organization_id == due.organization_id) db.runs r e
          ((==_iff _ _).1 o) in
      let f =
        λ (y : DailyRun). record y { status = DailyRunStatus.running; started_at = some db.now } in
      rw (d, its, w, find-any (run_is i) db.runs r e)
        (begin_run-IsUnderWay _ (f r) (find-change_same (run_is i) f db.runs r (λ y h. h) e))

-- The start of a pending run that the job names brings it under way, where neither the project nor its organization is
-- paused and the project has a lifecycle after the synchronization: it is running, since now, and its start is
-- announced, whatever becomes of its first workflow.
pub handle_run_due-IsUnderWay :
    (parse_yaml : String → Option GraphDefinition)
    (sync : (ℕ → Option Lifecycle) → ℕ → Option Lifecycle) (due : RunDue) (x : Project)
    (lc : Lifecycle) (i : ℕ) (r : DailyRun) (db : Db)
    → find (tenant_project due.organization_id due.project_id) db.projects ≡ some x
    → org_paused (find_organization x.organization_id db) ≡ false
    → x.runs_paused ≡ false
    → sync db.lifecycle due.project_id ≡ some lc
    → due.run_id ≡ some i
    → find_run i db ≡ some r
    → r.organization_id ≡ due.organization_id
    → r.status ≡ DailyRunStatus.pending
    → IsUnderWay i (begun i db.now r) (handle_run_due parse_yaml sync due db).1
unfolding handle_run_due start_project start_unless_paused store_lifecycle gets ◌>>=◌
handle_run_due-IsUnderWay parse_yaml sync due x lc i r db e o p l d f g w =
    rw (e, o, p, l) (run_with-IsUnderWay parse_yaml due lc i _ r d f g w)
