-- ===== src/Orchestrator/Dispatch/Keeping.antt =====
-- Invariants of the dispatch of a step, from the writes that it makes.
use mergecrew.Base.{ℕ, String, Option, none, some, false, ◌≡◌, refl}
use mergecrew.Exec.Preserves.{
  Preserves, Preserves-bind, Preserves-if, Preserves-pure, Preserves-gets,
}
use mergecrew.Orchestrator.Store.{
  Db, AgentStep, StepJob, RunnerKind, no_runner, instance_builtin, Job, Event, AgentDefinition,
  MergecrewConfig, is_inflight, update_step, emit, add_job, create_step,
}
use mergecrew.Orchestrator.Dispatch.{
  Scope, fail_step_no_runner, enqueue_by, enqueue_runner_step, new_step, create_and_enqueue, defer,
  dispatch_capped, dispatch_resolved, dispatch_agent_step,
}

-- `t` is `s` after a write that ends or pauses it.
abbrev pub Settles : AgentStep → AgentStep → Type 0
Settles s t =
    (t.id ≡ s.id)
    × (t.organization_id ≡ s.organization_id)
    × (t.workflow_run_id ≡ s.workflow_run_id)
    × (t.graph_node_key ≡ s.graph_node_key)
    × (is_inflight t.status ≡ false)

-- What a dispatch writes: an event, a job, a step that it fails.
pub record EnqueueRules {ℓ} (P : Db → Type ℓ) : Type ℓ where
  pub emits : (e : Event) → Preserves P (emit e)
  pub queues : (j : Job) → Preserves P (add_job j)
  pub settles :
      (i : ℕ) (f : AgentStep → AgentStep)
      → ((s : AgentStep) → Settles s (f s))
      → Preserves P (update_step i f)

module _ {ℓ} {P : Db → Type ℓ} (k : EnqueueRules P) where
  open k use {emits, queues, settles}

  fail_step_no_runner-Preserves : (j : StepJob) → Preserves P (fail_step_no_runner j)
  unfolding fail_step_no_runner
  fail_step_no_runner-Preserves j = Preserves-bind _ _ (Preserves-gets _) λ now.
      Preserves-bind _ _ (settles j.step_id _ (λ s. (refl, refl, refl, refl, refl))) λ _. emits _

  enqueue_by-Preserves : (r : RunnerKind) (j : StepJob) → Preserves P (enqueue_by r j)
  unfolding enqueue_by
  enqueue_by-Preserves no_runner j = fail_step_no_runner-Preserves j
  enqueue_by-Preserves instance_builtin j = queues _
  enqueue_by-Preserves _ j = Preserves-bind _ _ (queues _) λ _. queues _

  pub enqueue_runner_step-Preserves : (j : StepJob) → Preserves P (enqueue_runner_step j)
  unfolding enqueue_runner_step
  enqueue_runner_step-Preserves j =
      Preserves-bind _ _ (Preserves-gets _) λ r. enqueue_by-Preserves _ j

  pub defer-Preserves : (sc : Scope) (r : String) → Preserves P (defer sc r)
  unfolding defer
  defer-Preserves sc r = Preserves-bind _ _ (Preserves-gets _) λ d. queues _

-- A dispatch may also create a step of its scope and graph node.
module _ {ℓ} {P : Db → Type ℓ} (k : EnqueueRules P) (sc : Scope) (key : Option String)
    (creates : (r : String) (d : AgentDefinition)
      → Preserves P (create_step (new_step sc r d key))) where
  create_and_enqueue-Preserves :
      (r : String) (d : AgentDefinition) → Preserves P (create_and_enqueue sc r d key)
  unfolding create_and_enqueue
  create_and_enqueue-Preserves r d =
      Preserves-bind _ _ (creates r d) λ i. enqueue_runner_step-Preserves k _

  dispatch_capped-Preserves :
      (r : String) (d : AgentDefinition) → Preserves P (dispatch_capped sc r d key)
  unfolding dispatch_capped
  dispatch_capped-Preserves r d = Preserves-bind _ _ (Preserves-gets _) λ cap.
      Preserves-bind _ _ (Preserves-gets _)
        λ n. Preserves-if _ _ _ (defer-Preserves k sc r) (create_and_enqueue-Preserves r d)

  dispatch_resolved-Preserves :
      (r : String) (d : Option AgentDefinition) → Preserves P (dispatch_resolved sc r d key)
  unfolding dispatch_resolved
  dispatch_resolved-Preserves r none = Preserves-pure tt
  dispatch_resolved-Preserves r (some d) =
      Preserves-bind _ _ (Preserves-gets _)
        λ run. Preserves-if _ _ _ (Preserves-pure tt) (dispatch_capped-Preserves r d)

  pub dispatch_agent_step-Preserves :
      (r : String) (cfg : MergecrewConfig) → Preserves P (dispatch_agent_step sc r cfg key)
  unfolding dispatch_agent_step
  dispatch_agent_step-Preserves r cfg = dispatch_resolved-Preserves r _
