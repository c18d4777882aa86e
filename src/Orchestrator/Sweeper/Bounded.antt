-- ===== src/Orchestrator/Sweeper/Bounded.antt =====
-- What one scan may queue.
use mergecrew.Base.{
  ℕ, suc, ◌+◌, ◌≤◌, ◌<◌, List, [], ◌∷◌, ◌++◌, true, false, ◌≡◌, refl, sym, ap, ◌∙◌, subst, arith,
  Bool-cases, inl, inr, length, length-append, All, All-map, Any, any, leb,
}
use mathlib.Core.List.{append-nil, append_assoc}
use mergecrew.Exec.{Exec, Result, ok, raised, proceed, pure, gets, for_each, ◌>>=◌}
use mergecrew.Orchestrator.Store.{
  Db, Job, runner_step, builtin, step_is, update_step, add_job, emit,
}
use mergecrew.Orchestrator.Sweeper.Candidates.{IsCandidate, stale_steps-candidates}
use mergecrew.Orchestrator.Sweeper.{
  SweeperConfig, StaleStep, is_stale, stale_steps, update_running_step, give_up_step, step_job,
  redispatch_step, in_backoff, recover_step, tick,
}

-- The second state has `n` jobs more than the first at most, and each is as `Q` says. The clock stands still.
pub record Adds (Q : Job → Type 0) (n : ℕ) (db db' : Db) : Type 0 where
  pub news : List Job
  pub queue : db'.jobs ≡ db.jobs ++ news
  pub due : All Q news
  pub few : length news ≤ n
  pub clock : db'.now ≡ db.now

All-++ : {A : Type 0} (Q : A → Type 0) (xs ys : List A) → All Q xs → All Q ys → All Q (xs ++ ys)
All-++ Q [] ys h k = k
All-++ Q (x ∷ xs) ys (p, h) k = (p, All-++ Q xs ys h k)

module _ (Q : Job → Type 0) where
  unchanged : (n : ℕ) (db db' : Db) → db'.jobs ≡ db.jobs → db'.now ≡ db.now → Adds Q n db db'
  unchanged n db db' e t = record {
    news = [];
    queue = e ∙ sym (append-nil db.jobs);
    due = tt;
    few = omega arith;
    clock = t;
  }

  one_more :
      (db db' : Db) (j : Job)
      → db'.jobs ≡ db.jobs ++ (j ∷ [])
      → db'.now ≡ db.now
      → Q j
      → Adds Q 1 db db'
  one_more db db' j e t q = record {
    news = j ∷ [];
    queue = e;
    due = (q, tt);
    few = omega arith;
    clock = t;
  }

  composed : (n m : ℕ) (a b c : Db) → Adds Q n a b → Adds Q m b c → Adds Q (n + m) a c
  composed n m a b c u v = record {
    news = u.news ++ v.news;
    queue = v.queue ∙ ap (λ js. js ++ v.news) u.queue ∙ append_assoc a.jobs u.news v.news;
    due = All-++ Q u.news v.news u.due v.due;
    few = omega (arith, u.few, v.few, length-append u.news v.news);
    clock = v.clock ∙ u.clock;
  }

  wider : (n m : ℕ) (a b : Db) → n ≤ m → Adds Q n a b → Adds Q m a b
  wider n m a b le u = record {
    news = u.news;
    queue = u.queue;
    due = u.due;
    few = omega (arith, u.few);
    clock = u.clock;
  }

  module _ {X : Type 0} (f : X → Exec Db Unit) (t : ℕ) where
    proceed-Adds :
        (n : ℕ) (r : Result Unit) (a b : Db) (rest : Exec Db Unit)
        → Adds Q 1 a b
        → Adds Q n b (rest b).1
        → Adds Q (1 + n) a (proceed r (λ x. rest) b).1
    proceed-Adds n (ok x) a b rest u v = composed 1 n a b (rest b).1 u v
    proceed-Adds n (raised e) a b rest u v = wider 1 (1 + n) a b (omega arith) u

    for_each-Adds :
        (xs : List X)
        → All (λ x. (db : Db) → db.now ≡ t → Adds Q 1 db (f x db).1) xs
        → (db : Db) → db.now ≡ t
        → Adds Q (length xs) db (for_each xs f db).1
    unfolding for_each ◌>>=◌ pure
    for_each-Adds [] h db e = unchanged 0 db db refl refl
    for_each-Adds (x ∷ xs) (p, h) db e =
        let first = p db e in
        wider (1 + length xs) (suc (length xs)) db _ (omega arith) (
          proceed-Adds (length xs) (f x db).0 db (f x db).1 (for_each xs f) first
            (for_each-Adds xs h (f x db).1 (first.clock ∙ e)))

-- The job dispatches a step of the state again that has been silent for its threshold, with attempts left.
pub record IsDue (cfg : SweeperConfig) (db : Db) (job : Job) : Type 0 where
  pub candidate : StaleStep
  pub its_job : job ≡ runner_step builtin (step_job candidate)
  pub stored : Any (λ s. s ≡ candidate.step) db.steps
  pub stale : is_stale cfg db.now candidate.step ≡ true
  pub left : candidate.step.attempt < cfg.max_attempts
  pub silent : in_backoff cfg db.now candidate.step ≡ false

module _ (cfg : SweeperConfig) (start : Db) where
  redispatch-Adds :
      (s : StaleStep) (db : Db)
      → IsDue cfg start (runner_step builtin (step_job s))
      → Adds (IsDue cfg start) 1 db (redispatch_step s db).1
  unfolding redispatch_step update_step add_job emit gets ◌>>=◌
  redispatch-Adds s db q = elim (Bool-cases (any (step_is s.step.id) db.steps)) [
    | inl y ↦ rw y (one_more (IsDue cfg start) db _ _ refl refl q)
    | inr n ↦ rw n (unchanged (IsDue cfg start) 1 db _ refl refl)
  ]

  recover-Adds :
      (s : StaleStep)
      → IsCandidate cfg start s.step
      → (db : Db) → db.now ≡ start.now
      → Adds (IsDue cfg start) 1 db (recover_step cfg s db).1
  unfolding recover_step give_up_step update_running_step emit gets pure ◌>>=◌
  recover-Adds s (found, old) db e = elim (Bool-cases (leb cfg.max_attempts s.step.attempt)) [
    | inl y ↦ rw y (unchanged (IsDue cfg start) 1 db _ refl refl)
    | inr n ↦ elim (Bool-cases (in_backoff cfg db.now s.step)) [
      | inl z ↦ rw (n, z) (unchanged (IsDue cfg start) 1 db _ refl refl)
      | inr z ↦
          rw (n, z)
            (redispatch-Adds s db (record {
              candidate = s;
              its_job = refl;
              stored = found;
              stale = old;
              left = ground arith;
              silent = subst (λ t. in_backoff cfg t s.step ≡ false) e z;
            }))
    ]
  ]

-- A scan of the sweeper queues fifty jobs at most, and each of them dispatches a stored step again that runs, has been
-- silent for the threshold of its attempt, and has attempts left; no job is taken away.
pub tick-Adds : (cfg : SweeperConfig) (db : Db) → Adds (IsDue cfg db) 50 db (tick cfg db).1
unfolding tick
tick-Adds cfg db =
    let (due, few) = stale_steps-candidates cfg db in
    let each = All-map (λ s c. recover-Adds cfg db s c) (stale_steps cfg db) due in
    let added =
      for_each-Adds (IsDue cfg db) (recover_step cfg) db.now (stale_steps cfg db) each db refl in
    wider (IsDue cfg db) _ 50 db _ few added
