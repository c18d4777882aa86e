-- ===== src/Orchestrator/Sweeper/Giving.antt =====
-- The steps that a scan gives up, and what becomes of their workflows.
use mergecrew.Base.{
  ℕ, ◌≤◌, none, some, List, [], ◌∷◌, Bool, true, false, ◌&&◌, ◌≡◌, ◌⊎◌, refl, sym, ap, subst, ◌∙◌,
  arith, Bool-cases, inl, inr, All, All-map, Any, Any-map, here, there, any, leb, ==_iff, le→leb,
  leb→le, and-eq-true, any_complete,
}
use mergecrew.Orchestrator.Store.Tables.{Rows, Rows-same, Rows-change, Rows-Any}
use mergecrew.Exec.Loops.{IsStep, for_each-keeps, for_each-reaches}
use mergecrew.Exec.{ok, pure, gets, ◌>>=◌}
use mergecrew.Orchestrator.Store.{
  Db, AgentStep, StepStatus, step_is, change, update_step, add_job, emit,
}
use mergecrew.Orchestrator.Sweeper.Candidates.{IsCandidate, stale_steps-candidates}
use mergecrew.Orchestrator.Sweeper.{
  SweeperConfig, StaleStep, is_running, update_running_step, give_up_step, redispatch_step,
  in_backoff, recover_step, stale_steps, tick,
}

-- A step that ran failed, with its attempts used up; any other step has the status that it had.
abbrev pub IsKept : SweeperConfig → List StaleStep → AgentStep → AgentStep → Type 0
IsKept cfg stale x y =
    (y.id ≡ x.id)
    × ((y.status ≡ x.status)
        ⊎ ((x.status ≡ StepStatus.running)
            × (y.status ≡ StepStatus.failed)
            × Any (λ s. (s.step.id ≡ x.id) × (cfg.max_attempts ≤ s.step.attempt)) stale))

running_iff : (s : StepStatus) → is_running s ≡ true → s ≡ StepStatus.running
running_iff StepStatus.running h = refl
running_iff StepStatus.pending h = cc
running_iff StepStatus.done h = cc
running_iff StepStatus.failed h = cc
running_iff StepStatus.rate_limited h = cc
running_iff StepStatus.paused_gate h = cc
running_iff StepStatus.cancelled h = cc

-- What a scan leaves, up to some stale step.
pub record IsSwept (cfg : SweeperConfig) (start db : Db) : Type 0 where
  pub steps : Rows (IsKept cfg (stale_steps cfg start)) start.steps db.steps
  pub runs : db.runs ≡ start.runs
  pub workflow_runs : db.workflow_runs ≡ start.workflow_runs

-- A step that is given up.
abbrev given_up : ℕ → AgentStep → AgentStep
given_up now s = record s {
  status = StepStatus.failed;
  finished_at = some now;
  heartbeat_at = none;
  failure_reason = some "runner_dead";
}

-- No step with that id runs.
abbrev pub IsAtRest : ℕ → Db → Type 0
IsAtRest i db = All (λ s. s.id ≡ i → is_running s.status ≡ false) db.steps

change-All :
    {A : Type 0} (P : A → Type 0) (p : A → Bool) (f : A → A)
    → ((x : A) → P x → P (f x))
    → (xs : List A) → All P xs
    → All P (change p f xs)
change-All P p f h [] v = tt
change-All P p f h (x ∷ xs) (v, vs) = elim (Bool-cases (p x)) [
  | inl e ↦ rw e (h x v, change-All P p f h xs vs)
  | inr e ↦ rw e (v, change-All P p f h xs vs)
]

-- The write of a step that is given up leaves none of that id running.
failed_all :
    (i : ℕ) (f : AgentStep → AgentStep)
    → ((y : AgentStep) → (f y).status ≡ StepStatus.failed)
    → (xs : List AgentStep)
    → All
        (λ s. s.id ≡ i → is_running s.status ≡ false)
        (change (λ x. step_is i x && is_running x.status) f xs)
failed_all i f h [] = tt
failed_all i f h (x ∷ xs) = elim (Bool-cases (step_is i x && is_running x.status)) [
  | inl e ↦ rw e ((λ k. ap is_running (h x)), failed_all i f h xs)
  | inr e ↦ rw e ((λ k. ground (arith, e, (==_iff x.id i).1 k)), failed_all i f h xs)
]

All-own : {A : Type 0} (xs : List A) → All (λ x. Any (λ y. y ≡ x) xs) xs
All-own [] = tt
All-own (x ∷ xs) = (here refl, All-map (λ y a. there a) xs (All-own xs))

All-every : {A : Type 0} (P : A → Type 0) → ((x : A) → P x) → (xs : List A) → All P xs
All-every P h [] = tt
All-every P h (x ∷ xs) = (h x, All-every P h xs)

module _ (cfg : SweeperConfig) (start : Db) where
  failed-IsKept :
      (s : StaleStep) (f : AgentStep → AgentStep)
      → ((y : AgentStep) → ((f y).id ≡ y.id) × ((f y).status ≡ StepStatus.failed))
      → Any (λ t. t ≡ s) (stale_steps cfg start)
      → cfg.max_attempts ≤ s.step.attempt
      → (x y : AgentStep) → (step_is s.step.id y && is_running y.status) ≡ true
      → IsKept cfg (stale_steps cfg start) x y
      → IsKept cfg (stale_steps cfg start) x (f y)
  failed-IsKept s f h a b x y q (same, inr (ran, failed, due)) =
      ((h y).0 ∙ same, inr (ran, (h y).1, due))
  failed-IsKept s f h a b x y q (same, inl e) =
      let (own, runs) = and-eq-true (step_is s.step.id y) (is_running y.status) q in
      let its : s.step.id ≡ x.id = sym ((==_iff y.id s.step.id).0 own) ∙ same in
      (
        (h y).0 ∙ same,
        inr (
          sym e ∙ running_iff y.status runs,
          (h y).1,
          Any-map
              (λ t g. (
                ap (λ u. u.step.id) g ∙ its,
                subst (λ u. cfg.max_attempts ≤ u.step.attempt) (sym g) b,
              ))
              a,
        ),
      )

  recover_step-IsSwept :
      (s : StaleStep)
      → Any (λ t. t ≡ s) (stale_steps cfg start)
      → Any (λ x. x ≡ s.step) start.steps
      → (db : Db) → IsSwept cfg start db
      → ((recover_step cfg s db).0 ≡ ok tt) × IsSwept cfg start (recover_step cfg s db).1
  unfolding recover_step give_up_step redispatch_step update_running_step update_step add_job emit
      gets pure ◌>>=◌
  recover_step-IsSwept s a stored db v = elim (Bool-cases (leb cfg.max_attempts s.step.attempt)) [
    | inl y ↦ rw y (
      refl,
      record {
        steps =
            Rows-change _ _ _
              (failed-IsKept s (given_up db.now) (λ z. (refl, refl)) a (leb→le _ _ y)) v.steps;
        runs = v.runs;
        workflow_runs = v.workflow_runs;
      },
    )
    | inr n ↦ elim (Bool-cases (in_backoff cfg db.now s.step)) [
      | inl z ↦ rw (n, z) (refl, v)
      | inr z ↦
          let found : any (step_is s.step.id) db.steps ≡ true = any_complete _ _ (
            Rows-Any _ (λ x y k e. (==_iff y.id s.step.id).1 (k.0 ∙ ap (λ u. u.id) e)) v.steps
              stored) in
          rw (n, z, found)
            (
              refl,
              record {
                steps = Rows-change _ _ _ (λ x y q k. k) v.steps;
                runs = v.runs;
                workflow_runs = v.workflow_runs;
              },
            )
    ]
  ]

  recover_step-IsAtRest :
      (i : ℕ) (s : StaleStep) (db : Db) → IsAtRest i db → IsAtRest i (recover_step cfg s db).1
  unfolding recover_step give_up_step redispatch_step update_running_step update_step add_job emit
      gets pure ◌>>=◌
  recover_step-IsAtRest i s db v = elim (Bool-cases (leb cfg.max_attempts s.step.attempt)) [
    | inl y ↦ rw y (
        change-All _ (λ x. step_is s.step.id x && is_running x.status) (given_up db.now)
          (λ x h k. refl) db.steps v)
    | inr n ↦ elim (Bool-cases (in_backoff cfg db.now s.step)) [
      | inl z ↦ rw (n, z) v
      | inr z ↦ elim (Bool-cases (any (step_is s.step.id) db.steps)) [
        | inl q ↦ rw (n, z, q) (change-All _ _ _ (λ x h. h) db.steps v)
        | inr q ↦ rw (n, z, q) v
      ]
    ]
  ]

  give_up-IsAtRest :
      (s : StaleStep) (db : Db)
      → cfg.max_attempts ≤ s.step.attempt
      → IsAtRest s.step.id (recover_step cfg s db).1
  unfolding recover_step give_up_step update_running_step emit gets ◌>>=◌
  give_up-IsAtRest s db b =
      let capped : leb cfg.max_attempts s.step.attempt ≡ true = le→leb _ _ b in
      rw capped (failed_all s.step.id (given_up db.now) (λ y. refl) db.steps)

  each-IsStep :
      (xs : List StaleStep)
      → All (λ s. Any (λ t. t ≡ s) (stale_steps cfg start)) xs
      → All (λ s. IsCandidate cfg start s.step) xs
      → All (IsStep (recover_step cfg) (IsSwept cfg start)) xs
  each-IsStep [] h k = tt
  each-IsStep (s ∷ xs) (a, h) (b, k) = (λ m v. recover_step-IsSwept s a b.0 m v, each-IsStep xs h k)

-- A stale step of the scan that has used up its attempts does not run any more after it. A scan ends no other step than such,
-- as a failure, and it leaves every run and every workflow run as it was: the workflow of a step that is given up does not
-- advance.
pub tick-gives_up :
    (cfg : SweeperConfig) (db : Db) (s : StaleStep)
    → Any (λ t. t ≡ s) (stale_steps cfg db)
    → cfg.max_attempts ≤ s.step.attempt
    → IsSwept cfg db (tick cfg db).1 × IsAtRest s.step.id (tick cfg db).1
unfolding tick
tick-gives_up cfg db s a b =
    let rows = stale_steps cfg db in
    let each = each-IsStep cfg db rows (All-own rows) (stale_steps-candidates cfg db).0 in
    let rests =
      All-every
        (λ t.
          (m : Db)
          → IsSwept cfg db m
          → IsAtRest s.step.id m
          → IsAtRest s.step.id (recover_step cfg t m).1)
        (λ t m v w. recover_step-IsAtRest cfg db s.step.id t m w) rows in
    let begun : IsSwept cfg db db = record {
      steps = Rows-same _ (λ x. (refl, inl refl)) db.steps;
      runs = refl;
      workflow_runs = refl;
    } in
    (
      for_each-keeps (recover_step cfg) (IsSwept cfg db) rows each db begun,
      for_each-reaches (recover_step cfg) (IsSwept cfg db) (IsAtRest s.step.id) s rows a each rests
          (λ m v. give_up-IsAtRest cfg db s m b) db begun,
    )
