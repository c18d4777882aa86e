-- ===== src/Orchestrator/RunStart/Keeping.antt =====
-- Invariants of the start of a run, from the writes that it makes.
use mergecrew.Base.{ℕ, String, Option, none, some, List, [], ◌∷◌, ◌≡◌, refl}
use mergecrew.Exec.Preserves.{
  Preserves, Preserves-bind, Preserves-if, Preserves-pure, Preserves-gets,
}
use mergecrew.Graph.{GraphDefinition}
use mergecrew.Orchestrator.Store.{
  Db, DailyRun, WorkflowDef, Project, Lifecycle, update_run, create_run,
}
use mergecrew.Orchestrator.Dispatch.{Scope}
use mergecrew.Orchestrator.Flow.Keeping.{StartRules, start_workflow-Preserves}
use mergecrew.Orchestrator.RunStart.{
  RunDue, abort_paused, store_lifecycle, Claim, claimed, advanced, unclaimed, claim_row, claim,
  create_own, obtain_run, start_first, begin_run, run_with, start_unless_paused, start_project,
  handle_run_due,
}

-- The parts of the handler.
pub record PartRules {ℓ} (P : Db → Type ℓ) : Type ℓ where
  pub starts : (r : ℕ) → StartRules P r
  pub aborts : (o : Option ℕ) (scope : String) → Preserves P (abort_paused o scope)
  pub stores :
      (sync : (ℕ → Option Lifecycle) → ℕ → Option Lifecycle) → Preserves P (store_lifecycle sync)
  pub claims : (org : ℕ) (o : Option ℕ) → Preserves P (claim org o)
  pub obtains : (due : RunDue) → Preserves P (create_own due)
  pub touches : (i : ℕ) → Preserves P (update_run i (λ r. record r { id = i }))

module _ {ℓ} {P : Db → Type ℓ} (k : PartRules P) where
  open k use {starts, aborts, stores, claims, obtains, touches}

  obtain_run-Preserves : (due : RunDue) (c : Claim) → Preserves P (obtain_run due c)
  unfolding obtain_run
  obtain_run-Preserves due unclaimed = obtains due
  obtain_run-Preserves due advanced = Preserves-pure _
  obtain_run-Preserves due (claimed i) = Preserves-pure _

  module _ (parse_yaml : String → Option GraphDefinition) (due : RunDue) where
    start_first-Preserves :
        (sc : Scope) (ws : List WorkflowDef) → Preserves P (start_first parse_yaml sc ws)
    start_first-Preserves sc [] = Preserves-pure tt
    start_first-Preserves sc (w ∷ ws) =
        start_workflow-Preserves (starts sc.run_id) parse_yaml sc refl w.id

    begin_run-Preserves : (lc : Lifecycle) (c : Claim) → Preserves P (begin_run parse_yaml due lc c)
    unfolding begin_run
    begin_run-Preserves lc advanced = Preserves-pure tt
    begin_run-Preserves lc unclaimed = Preserves-pure tt
    begin_run-Preserves lc (claimed i) =
        Preserves-bind _ _ (touches i)
          λ _. Preserves-bind _ _ ((starts i).enqueue.emits _) λ _. start_first-Preserves _ _

    run_with-Preserves : (lc : Option Lifecycle) → Preserves P (run_with parse_yaml due lc)
    unfolding run_with
    run_with-Preserves none = Preserves-pure tt
    run_with-Preserves (some lc) =
        Preserves-bind _ _ (claims due.organization_id due.run_id)
          λ c. Preserves-bind _ _ (obtain_run-Preserves due c) λ run. begin_run-Preserves lc run

    module _ (sync : (ℕ → Option Lifecycle) → ℕ → Option Lifecycle) where
      start_unless_paused-Preserves :
          (scope : Option String) → Preserves P (start_unless_paused parse_yaml sync due scope)
      unfolding start_unless_paused
      start_unless_paused-Preserves (some scope) = aborts due.run_id scope
      start_unless_paused-Preserves none =
          Preserves-bind _ _ (stores sync)
            λ _. Preserves-bind _ _ (Preserves-gets _) λ lc. run_with-Preserves lc

      start_project-Preserves :
          (o : Option Project) → Preserves P (start_project parse_yaml sync due o)
      unfolding start_project
      start_project-Preserves none = Preserves-pure tt
      start_project-Preserves (some x) =
          Preserves-bind _ _ (Preserves-gets _) λ org. start_unless_paused-Preserves _

      pub handle_run_due-Preserves : Preserves P (handle_run_due parse_yaml sync due)
      unfolding handle_run_due
      handle_run_due-Preserves =
          Preserves-bind _ _ (Preserves-gets _) λ o. start_project-Preserves o

-- What holds under any write of a run that leaves its id, and under the creation of one.
pub record DueRules {ℓ} (P : Db → Type ℓ) : Type ℓ where
  pub starts : (r : ℕ) → StartRules P r
  pub stores :
      (sync : (ℕ → Option Lifecycle) → ℕ → Option Lifecycle) → Preserves P (store_lifecycle sync)
  pub writes :
      (i : ℕ) (f : DailyRun → DailyRun)
      → ((x : DailyRun) → x.id ≡ i → (f x).id ≡ i)
      → Preserves P (update_run i f)
  pub creates : (row : ℕ → DailyRun) → ((i : ℕ) → (row i).id ≡ i) → Preserves P (create_run row)

module _ {ℓ} {P : Db → Type ℓ} (k : DueRules P) where
  open k use {starts, stores, writes, creates}

  abort_paused-Preserves : (o : Option ℕ) (scope : String) → Preserves P (abort_paused o scope)
  unfolding abort_paused
  abort_paused-Preserves none scope = Preserves-pure tt
  abort_paused-Preserves (some i) scope =
      Preserves-bind _ _ (Preserves-gets _)
        λ now. Preserves-bind _ _ (writes i _ (λ x e. e)) λ _. (starts i).enqueue.emits _

  claim_row-Preserves : (i : ℕ) (o : Option DailyRun) → Preserves P (claim_row i o)
  unfolding claim_row
  claim_row-Preserves i none = Preserves-pure unclaimed
  claim_row-Preserves i (some r) =
      Preserves-if _ _ _
        (Preserves-bind _ _ (Preserves-gets _)
          λ now. Preserves-bind _ _ (writes i _ (λ x e. e)) λ _. Preserves-pure _)
        (Preserves-pure advanced)

  claim-Preserves : (org : ℕ) (o : Option ℕ) → Preserves P (claim org o)
  unfolding claim
  claim-Preserves org none = Preserves-pure unclaimed
  claim-Preserves org (some i) =
      Preserves-bind _ _ (Preserves-gets _) λ row. claim_row-Preserves i row

  create_own-Preserves : (due : RunDue) → Preserves P (create_own due)
  unfolding create_own
  create_own-Preserves due = Preserves-bind _ _ (Preserves-gets _) λ busy.
      Preserves-bind _ _ (Preserves-gets _) λ now.
        Preserves-if _ _ _ (Preserves-pure _)
          (Preserves-bind _ _ (creates _ (λ j. refl)) λ i. Preserves-pure _)

  pub due_parts : PartRules P
  due_parts = record {
    starts = starts;
    aborts = abort_paused-Preserves;
    stores = stores;
    claims = claim-Preserves;
    obtains = create_own-Preserves;
    touches = λ i. writes i _ (λ x e. refl);
  }
