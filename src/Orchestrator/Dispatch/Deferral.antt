-- ===== src/Orchestrator/Dispatch/Deferral.antt =====
-- Dispatches that the organization's cap defers, and organizations without a runner.
use mergecrew.Base.{
  ap, ◌∙◌, ◌≢◌, ◌↔◌, length, length-append, get_or_else, [], ℕ, ◌<◌, ◌≤◌, String, Option, none,
  some, List, [], ◌∷◌, ◌++◌, true, false, ◌≡◌, refl, ◌∙◌, arith, Bool-cases, inl, inr, is_some,
  count_of, count_of-append, any, lt→ltb, le→leb, Any, any_complete, Any-map, ==_iff,
}
use mergecrew.Exec.{ok, ◌>>=◌}
use mergecrew.Exec.Preserves.{Preserves}
use mergecrew.Orchestrator.Store.{
  Job, RunnerKind, no_runner, instance_builtin, agent, fargate_byo, github_actions, Db, AgentStep,
  StepStatus, StepJob, AgentDefinition, MergecrewConfig, org_cap_wait, WaitJob, agent_step_failed,
  reason, change, step_is, update_step, emit, add_job, create_step, find_run, find_organization,
}
use mergecrew.Orchestrator.Dispatch.{
  fail_step_no_runner, Scope, resolve_agent_by_ref, dispatch_agent_step, dispatch_resolved,
  dispatch_capped, defer, run_blocks, cap_of, inflight, wait_job, handle_org_cap_wait, scope_of,
  config_of, new_step, enqueue_runner_step, enqueue_by,
}
use mergecrew.Orchestrator.Dispatch.Keeping.{Settles, EnqueueRules, dispatch_agent_step-Preserves}

-- An organization at its cap takes no new step: the only write is a job for later. When that job is handled,
-- in whatever state, it is a dispatch of the same agent in the same scope under the project's configuration of
-- then, but without the graph node.
pub dispatch-deferred :
    (sc : Scope) (r : String) (cfg : MergecrewConfig) (key : Option String) (d : AgentDefinition)
    (db later : Db)
    → resolve_agent_by_ref cfg.agents r ≡ some d
    → run_blocks (find_run sc.run_id db) ≡ false
    → 0 < cap_of (find_organization sc.organization_id db)
    → cap_of (find_organization sc.organization_id db) ≤ inflight sc.organization_id db
    → (w : WaitJob) × (dispatch_agent_step sc r cfg key db
        ≡ (ok tt, record db { jobs = db.jobs ++ org_cap_wait w db.org_cap_deferral_ms ∷ [] }))
      × (handle_org_cap_wait w later
          ≡ dispatch_agent_step sc r (config_of (later.lifecycle sc.project_id)) none later)
unfolding dispatch_agent_step dispatch_resolved dispatch_capped defer ◌>>=◌ add_job
    handle_org_cap_wait
dispatch-deferred sc r cfg key d db later known free capped full = (
  wait_job sc r,
  rw
      (
        known,
        dispatch_resolved,
        free,
        lt→ltb 0 _ capped,
        le→leb (cap_of (find_organization sc.organization_id db)) _ full,
      )
      refl,
  refl,
)

-- The steps that belong to a graph node.
abbrev pub keyed : Db → ℕ
keyed db = count_of (λ s. is_some s.graph_node_key) db.steps

abbrev HasKeyed : ℕ → Db → Type 0
HasKeyed n db = keyed db ≡ n

keyed-change :
    (i : ℕ) (f : AgentStep → AgentStep)
    → ((s : AgentStep) → Settles s (f s))
    → (xs : List AgentStep)
    → count_of (λ s. is_some s.graph_node_key) (change (step_is i) f xs)
      ≡ count_of (λ s. is_some s.graph_node_key) xs
keyed-change i f h [] = refl
keyed-change i f h (x ∷ xs) = ground (arith, h x, keyed-change i f h xs)

update_step-HasKeyed :
    (n i : ℕ) (f : AgentStep → AgentStep)
    → ((s : AgentStep) → Settles s (f s))
    → Preserves (HasKeyed n) (update_step i f)
unfolding update_step
update_step-HasKeyed n i f h = record {
  after = λ db v. elim (Bool-cases (any (step_is i) db.steps)) [
    | inl q ↦ rw q (keyed-change i f h db.steps ∙ v)
    | inr q ↦ rw q v
  ];
}

enqueue-HasKeyed : (n : ℕ) → EnqueueRules (HasKeyed n)
unfolding emit add_job
enqueue-HasKeyed n = record {
  emits = λ e. record { after = λ db v. v };
  queues = λ e. record { after = λ db v. v };
  settles = update_step-HasKeyed n;
}

create-HasKeyed :
    (n : ℕ) (sc : Scope) (r : String) (d : AgentDefinition)
    → Preserves (HasKeyed n) (create_step (new_step sc r d none))
unfolding create_step
create-HasKeyed n sc r d = record {
  after = λ db v. ground (
    arith,
    count_of-append (λ (s : AgentStep). is_some s.graph_node_key) db.steps
        (new_step sc r d none db.next_id ∷ []),
  );
}

-- A deferred dispatch never gives a step a graph node: of the steps that stand after its retry, as many
-- belong to a node as before, also where the dispatch that was deferred was one of a node.
pub handle_org_cap_wait-unkeyed :
    (w : WaitJob) (db : Db) → keyed (handle_org_cap_wait w db).1 ≡ keyed db
unfolding handle_org_cap_wait ◌>>=◌
handle_org_cap_wait-unkeyed w db =
    (dispatch_agent_step-Preserves (enqueue-HasKeyed (keyed db)) (scope_of w) none
        (create-HasKeyed (keyed db) (scope_of w)) w.agent_ref _).after
      db refl

-- The state after a step found no runner.
abbrev pub failed_closed : StepJob → Db → Db
failed_closed j db = record db {
  steps =
      change (step_is j.step_id)
        (λ s. record s {
          status = StepStatus.failed;
          failure_reason = some "runner_not_configured";
          finished_at = some db.now;
        })
        db.steps;
  events =
      db.events
      ++ record {
        type = agent_step_failed;
        daily_run_id = j.run_id;
        agent_step_id = some j.step_id;
        payload = reason "runner_not_configured";
      }
        ∷ [];
}

no_runner-fails :
    (j : StepJob) (db : Db)
    → Any (λ s. s.id ≡ j.step_id) db.steps
    → enqueue_by no_runner j db ≡ (ok tt, failed_closed j db)
unfolding enqueue_by fail_step_no_runner update_step emit ◌>>=◌
no_runner-fails j db a =
    let known : any (step_is j.step_id) db.steps ≡ true =
      any_complete _ _ (Any-map (λ s (q : s.id ≡ j.step_id). (==_iff s.id j.step_id).1 q) a) in
    rw known refl

grows : (xs : List Job) (x : Job) (ys : List Job) → (xs ++ x ∷ ys) ≢ xs
grows xs x ys e =
    let same = ap length e in let more = length-append xs (x ∷ ys) in omega (arith, same, more)

queued_twice : (xs : List Job) (x y : Job) → ((xs ++ x ∷ []) ++ y ∷ []) ≢ xs
queued_twice xs x y e =
    let same = ap length e in
    let inner = length-append xs (x ∷ []) in
    let outer = length-append (xs ++ x ∷ []) (y ∷ []) in omega (arith, same, inner, outer)

enqueue_by-jobs :
    (k : RunnerKind) (j : StepJob) (db : Db)
    → Any (λ s. s.id ≡ j.step_id) db.steps
    → ((enqueue_by k j db).1.jobs ≡ db.jobs) ↔ (k ≡ no_runner)
unfolding enqueue_by add_job ◌>>=◌
enqueue_by-jobs no_runner j db a = (λ e. refl, λ e. ap (λ r. r.1.jobs) (no_runner-fails j db a))
enqueue_by-jobs instance_builtin j db a = (λ e. absurd (grows db.jobs _ [] e), λ e. cc)
enqueue_by-jobs agent j db a = (λ e. absurd (queued_twice db.jobs _ _ e), λ e. cc)
enqueue_by-jobs fargate_byo j db a = (λ e. absurd (queued_twice db.jobs _ _ e), λ e. cc)
enqueue_by-jobs github_actions j db a = (λ e. absurd (queued_twice db.jobs _ _ e), λ e. cc)

-- The runner that the organization has chosen, if any.
abbrev pub chosen : StepJob → Db → RunnerKind
chosen j db = get_or_else (db.profiles j.organization_id) no_runner

-- A stored step is enqueued with a job exactly when its organization has chosen a runner. Without one it fails
-- closed: the step fails with the reason, an event says so, and nothing else is written.
pub enqueue_runner_step_iff :
    (j : StepJob) (db : Db)
    → Any (λ s. s.id ≡ j.step_id) db.steps
    → (((enqueue_runner_step j db).1.jobs ≡ db.jobs) ↔ (chosen j db ≡ no_runner))
      × (chosen j db ≡ no_runner → enqueue_runner_step j db ≡ (ok tt, failed_closed j db))
unfolding enqueue_runner_step ◌>>=◌
enqueue_runner_step_iff j db a = (
  enqueue_by-jobs (chosen j db) j db a,
  λ e. ap (λ k. enqueue_by k j db) e ∙ no_runner-fails j db a,
)
