-- ===== src/Orchestrator/RunStart/Single.antt =====
-- One run at a time: the start of a run keeps every project at one active run at most.
use mergecrew.Base.{
  find, ℕ, String, Option, none, some, List, [], ◌∷◌, ◌++◌, Bool, true, false, ◌&&◌, ◌==◌, ◌≡◌,
  and-eq-true, ==_iff, ◌≤◌, refl, sym, subst, arith, Bool-cases, any, inl, inr, count_of,
  count_of-append, count-none,
}
use mergecrew.Exec.{Exec, Result, ok, raised, proceed, pure, gets, ◌>>=◌}
use mergecrew.Exec.Preserves.{Preserves, Preserves-bind, Preserves-pure, Preserves-gets}
use mergecrew.Graph.{GraphDefinition}
use mergecrew.Orchestrator.Store.Rows.{find-wider}
use mergecrew.Orchestrator.Store.{
  Db, DailyRun, DailyRunStatus, WorkflowRun, AgentStep, Lifecycle, update_run, update_workflow_run,
  create_run, create_workflow_run, update_step, create_step, emit, add_job, run_is, step_is,
  workflow_run_is, change, find_run, tenant_run,
}
use mergecrew.Orchestrator.Store.Ids.{IsFresh, fresh-later, fresh-change, fresh-append}
use mergecrew.Orchestrator.Store.Rows.{count_of-change-le, count_of-change-found}
use mergecrew.Orchestrator.Dispatch.Keeping.{EnqueueRules, dispatch_agent_step-Preserves}
use mergecrew.Orchestrator.Flow.Keeping.{StartRules}
use mergecrew.Orchestrator.RunStart.Keeping.{PartRules, handle_run_due-Preserves}
use mergecrew.Orchestrator.RunStart.{
  RunDue, abort_paused, store_lifecycle, is_pending, claimed, unclaimed, claim_row, claim,
  is_active, active_in, create_own, own_row, handle_run_due,
}

-- Ids of runs are given once, and the project has one active run at most.
pub record IsSingle (project : ℕ) (db : Db) : Type 0 where
  pub fresh : IsFresh (λ r. r.id) db.next_id db.runs
  pub single : count_of (active_in project) db.runs ≤ 1

-- What ends by giving a value leaves the state as it was before that.
proceed-pure :
    {A B : Type 0} (r : Result A) (f : A → B) (db : Db) → (proceed r (λ y. pure (f y)) db).1 ≡ db
unfolding pure
proceed-pure (ok y) f db = refl
proceed-pure (raised e) f db = refl

then-pure :
    {A B : Type 0} (act : Exec Db A) (f : A → B) (db : Db)
    → ((act >>= λ y. pure (f y)) db).1 ≡ (act db).1
unfolding ◌>>=◌
then-pure act f db = proceed-pure (act db).0 f (act db).1

pending_is_active :
    (b : Bool) (s : DailyRunStatus)
    → is_pending s ≡ true
    → (b && is_active s) ≡ false
    → (b && true) ≡ false
pending_is_active b DailyRunStatus.pending q h = h
pending_is_active b DailyRunStatus.running q h = cc
pending_is_active b DailyRunStatus.paused_rate_limit q h = cc
pending_is_active b DailyRunStatus.paused_gate q h = cc
pending_is_active b DailyRunStatus.done q h = cc
pending_is_active b DailyRunStatus.failed q h = cc
pending_is_active b DailyRunStatus.cancelled q h = cc

module _ (p : ℕ) where
  pending-active :
      (r : DailyRun)
      → is_pending r.status ≡ true
      → active_in p r ≡ false
      → (r.project_id == p && true) ≡ false
  pending-active r q h = pending_is_active (r.project_id == p) r.status q h

  -- Writes of other tables.
  other_table :
      (db db' : Db) → db'.runs ≡ db.runs → db.next_id ≤ db'.next_id → IsSingle p db → IsSingle p db'
  other_table db db' e n v = record {
    fresh = rw e (fresh-later (λ r. r.id) db.next_id db'.next_id db.runs n v.fresh);
    single = rw e v.single;
  }

  step-IsSingle : (i : ℕ) (f : AgentStep → AgentStep) → Preserves (IsSingle p) (update_step i f)
  unfolding update_step
  step-IsSingle i f = record {
    after = λ db v. elim (Bool-cases (any (step_is i) db.steps)) [
      | inl q ↦ rw q (other_table db _ refl (omega arith) v)
      | inr q ↦ rw q v
    ];
  }

  workflow-IsSingle :
      (i : ℕ) (f : WorkflowRun → WorkflowRun) → Preserves (IsSingle p) (update_workflow_run i f)
  unfolding update_workflow_run
  workflow-IsSingle i f = record {
    after = λ db v. elim (Bool-cases (any (workflow_run_is i) db.workflow_runs)) [
      | inl q ↦ rw q (other_table db _ refl (omega arith) v)
      | inr q ↦ rw q v
    ];
  }

  enqueue-IsSingle : EnqueueRules (IsSingle p)
  unfolding emit add_job
  enqueue-IsSingle = record {
    emits = λ e. record { after = λ db v. other_table db _ refl (omega arith) v };
    queues = λ j. record { after = λ db v. other_table db _ refl (omega arith) v };
    settles = λ i f h. step-IsSingle i f;
  }

  starts-IsSingle : (r : ℕ) → StartRules (IsSingle p) r
  unfolding create_step create_workflow_run
  starts-IsSingle r = record {
    enqueue = enqueue-IsSingle;
    dispatches = λ sc e a cfg key.
        dispatch_agent_step-Preserves enqueue-IsSingle sc key
          (λ b d. record { after = λ db v. other_table db _ refl (omega arith) v }) a cfg;
    starts_workflow = λ row h. record { after = λ db v. other_table db _ refl (omega arith) v };
    ends_workflow = λ i f h. workflow-IsSingle i f;
  }

  -- A write of a run by its id that leaves no more active runs.
  written :
      (db : Db) (i : ℕ) (f : DailyRun → DailyRun)
      → ((x : DailyRun) → x.id ≡ i → (f x).id ≡ i)
      → count_of (active_in p) (change (run_is i) f db.runs) ≤ count_of (active_in p) db.runs
      → IsSingle p db
      → IsSingle p (update_run i f db).1
  unfolding update_run
  written db i f h fewer v = elim (Bool-cases (any (run_is i) db.runs)) [
    | inl q ↦ rw q (record {
      fresh =
          fresh-change (λ r. r.id) db.next_id (run_is i) f db.runs (λ x t. ground (arith, h x))
            v.fresh;
      single = omega (arith, fewer, v.single);
    })
    | inr q ↦ rw q v
  ]

  harmless-IsSingle :
      (i : ℕ) (f : DailyRun → DailyRun)
      → ((x : DailyRun) → x.id ≡ i → (f x).id ≡ i)
      → ((x : DailyRun) → active_in p x ≡ false → active_in p (f x) ≡ false)
      → Preserves (IsSingle p) (update_run i f)
  harmless-IsSingle i f h k = record {
    after = λ db v. written db i f h (count_of-change-le (active_in p) (run_is i) f db.runs k) v;
  }

  abort_paused-IsSingle :
      (o : Option ℕ) (scope : String) → Preserves (IsSingle p) (abort_paused o scope)
  unfolding abort_paused
  abort_paused-IsSingle none scope = Preserves-pure tt
  abort_paused-IsSingle (some i) scope = Preserves-bind _ _ (Preserves-gets _) λ now.
      Preserves-bind _ _ (harmless-IsSingle i _ (λ x e. e) (λ x e. ground arith))
        λ _. enqueue-IsSingle.emits _

  -- A pending run goes on to run: as many are active as before.
  flipped :
      (db : Db) (i now : ℕ) (r : DailyRun)
      → find_run i db ≡ some r
      → is_pending r.status ≡ true
      → IsSingle p db
      → IsSingle p
          (update_run i
            (λ x. record x { status = DailyRunStatus.running; started_at = some now })
            db).1
  flipped db i now r e q v =
      let f =
        λ (x : DailyRun). record x { status = DailyRunStatus.running; started_at = some now } in
      written db i f (λ x t. t)
        (count_of-change-found (active_in p) (run_is i) f db.runs r e (v.fresh.unique i)
          (pending-active r q))
        v

  claim_row-IsSingle :
      (db : Db) (i : ℕ) (o : Option DailyRun)
      → ((r : DailyRun) → o ≡ some r → find_run i db ≡ some r)
      → IsSingle p db
      → IsSingle p (claim_row i o db).1
  unfolding claim_row pure gets ◌>>=◌
  claim_row-IsSingle db i none e v = v
  claim_row-IsSingle db i (some r) e v = elim (Bool-cases (is_pending r.status)) [
    | inr q ↦ rw q v
    | inl q ↦
        let act =
          update_run i
            (λ x. record x { status = DailyRunStatus.running; started_at = some db.now }) in
        rw q (
          subst (IsSingle p) (sym (then-pure act (λ (y : Unit). claimed i) db))
            (flipped db i db.now r (e r refl) q v))
  ]

  claim-IsSingle : (org : ℕ) (o : Option ℕ) → Preserves (IsSingle p) (claim org o)
  unfolding claim gets ◌>>=◌
  claim-IsSingle org none = Preserves-pure unclaimed
  claim-IsSingle org (some i) = record {
    after = λ db v.
        claim_row-IsSingle db i (find (tenant_run org i) db.runs)
          (λ r e.
            find-wider (run_is i) (λ x. x.organization_id == org) db.runs r (v.fresh.unique i) e)
          v;
  }

  created :
      (db : Db) (row : ℕ → DailyRun)
      → (row db.next_id).id ≡ db.next_id
      → count_of (active_in p) (db.runs ++ (row db.next_id ∷ [])) ≤ 1
      → IsSingle p db
      → IsSingle p (create_run row db).1
  unfolding create_run
  created db row h few v = record {
    fresh = fresh-append (λ r. r.id) db.next_id (row db.next_id) db.runs v.fresh h;
    single = few;
  }

  append-active :
      (xs : List DailyRun) (new : DailyRun)
      → count_of (active_in p) xs ≡ 0
      → count_of (active_in p) (xs ++ (new ∷ [])) ≤ 1
  append-active xs new e = ground (arith, count_of-append (active_in p) xs (new ∷ []))

  -- The run is created where no run of its project is active, so in no project a second one is.
  own-active :
      (q : ℕ) (xs : List DailyRun) (new : DailyRun)
      → new.project_id ≡ q
      → any (active_in q) xs ≡ false
      → count_of (active_in p) xs ≤ 1
      → count_of (active_in p) (xs ++ (new ∷ [])) ≤ 1
  own-active q xs new e idle le = elim (Bool-cases (active_in p new)) [
    | inr f ↦ ground (arith, count_of-append (active_in p) xs (new ∷ []))
    | inl t ↦
        let both = and-eq-true (new.project_id == p) (is_active new.status) t in
        let same : q ≡ p = omega (arith, e, (==_iff new.project_id p).0 both.0) in
        append-active xs new
          (count-none (active_in p) xs (subst (λ k. any (active_in k) xs ≡ false) same idle))
  ]

  create_own-IsSingle : (due : RunDue) → Preserves (IsSingle p) (create_own due)
  unfolding create_own gets pure ◌>>=◌
  create_own-IsSingle due = record {
    after = λ db v. elim (Bool-cases (any (active_in due.project_id) db.runs)) [
      | inl busy ↦ rw busy v
      | inr idle ↦
          let few = own-active due.project_id db.runs _ refl idle v.single in
          rw idle (
            subst (IsSingle p) (sym (then-pure (create_run (own_row due db.now)) claimed db))
              (created db (own_row due db.now) refl few v))
    ];
  }

  store_lifecycle-IsSingle :
      (sync : (ℕ → Option Lifecycle) → ℕ → Option Lifecycle)
      → Preserves (IsSingle p) (store_lifecycle sync)
  unfolding store_lifecycle
  store_lifecycle-IsSingle sync = record { after = λ db v. other_table db _ refl (omega arith) v }

  parts-IsSingle : PartRules (IsSingle p)
  parts-IsSingle = record {
    starts = starts-IsSingle;
    aborts = abort_paused-IsSingle;
    stores = store_lifecycle-IsSingle;
    claims = claim-IsSingle;
    obtains = create_own-IsSingle;
    touches = λ i. harmless-IsSingle i _ (λ x e. refl) (λ x e. e);
  }

-- The start of a run, by whatever job, keeps a project at one active run at most, whatever the synchronization stores:
-- pending, running or paused. The ids of the runs stay unique and below the next id.
pub handle_run_due-IsSingle :
    (parse_yaml : String → Option GraphDefinition)
    (sync : (ℕ → Option Lifecycle) → ℕ → Option Lifecycle) (due : RunDue) (project : ℕ) (db : Db)
    → IsSingle project db
    → IsSingle project (handle_run_due parse_yaml sync due db).1
handle_run_due-IsSingle parse_yaml sync due project db v =
    (handle_run_due-Preserves (parts-IsSingle project) parse_yaml due sync).after db v
