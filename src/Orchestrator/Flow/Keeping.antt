-- ===== src/Orchestrator/Flow/Keeping.antt =====
-- Invariants of the flow of a run, from the writes that they make.
use mergecrew.Base.{
  ℕ, String, Option, none, some, List, [], ◌∷◌, true, false, ◌≡◌, refl, sym, subst,
}
use mergecrew.Exec.{missing_config}
use mergecrew.Exec.Preserves.{
  Preserves, Preserves-bind, Preserves-if, Preserves-pure, Preserves-gets, Preserves-raise,
  Preserves-for_each,
}
use mergecrew.Graph.{GraphDefinition, GraphNode, get_node_agents, lookup_node}
use mergecrew.Orchestrator.Store.{
  Db, AgentStep, DailyRun, WorkflowRun, WorkflowDef, RunPause, Lifecycle, MergecrewConfig,
  update_run, update_workflow_run, create_workflow_run, create_pause,
}
use mergecrew.Orchestrator.Dispatch.{Scope, dispatch_agent_step}
use mergecrew.Orchestrator.Dispatch.Keeping.{EnqueueRules}
use mergecrew.Orchestrator.Flow.{
  FanIn, waiting, stage_fails, advance, settle, fan_in, loop_exhausted, dispatch_node, enter_node,
  advance_to, after_fan_in, leave_node, leave_graph_node, complete_workflow, complete_run,
  enter_first, enter_graph, dispatch_graph_entry, next_from, next_of, dispatch_graph_next,
  run_agents, run_workflow, start_workflow, follow, follow_lifecycle, finish_workflow,
  maybe_advance_workflow,
}

-- What the start of a workflow of the run `r` writes.
pub record StartRules {ℓ} (P : Db → Type ℓ) (r : ℕ) : Type ℓ where
  pub enqueue : EnqueueRules P
  pub dispatches :
      (sc : Scope)
      → sc.run_id ≡ r
      → (a : String) (cfg : MergecrewConfig) (key : Option String)
      → Preserves P (dispatch_agent_step sc a cfg key)
  pub starts_workflow :
      (row : ℕ → WorkflowRun) → ((i : ℕ) → (row i).id ≡ i) → Preserves P (create_workflow_run row)
  pub ends_workflow :
      (i : ℕ) (f : WorkflowRun → WorkflowRun)
      → ((w : WorkflowRun) → (f w).id ≡ w.id)
      → Preserves P (update_workflow_run i f)

-- What the handling of a reply of the run `r` writes.
pub record ReplyRules {ℓ} (P : Db → Type ℓ) (r : ℕ) : Type ℓ where
  pub starts : StartRules P r
  pub ends_run :
      (f : DailyRun → DailyRun) → ((x : DailyRun) → (f x).id ≡ x.id) → Preserves P (update_run r f)
  pub pauses : (row : ℕ → RunPause) → ((i : ℕ) → (row i).id ≡ i) → Preserves P (create_pause row)

module _ {ℓ} {P : Db → Type ℓ} {r : ℕ} (k : StartRules P r) where
  open k use {dispatches, starts_workflow, ends_workflow}
  open k.enqueue use {emits, queues, settles}

  settle-Preserves :
      (sc : Scope) (key : String) (n : GraphNode) (t f : ℕ) → Preserves P (settle sc key n t f)
  unfolding settle
  settle-Preserves sc key n t f = Preserves-if _ _ _ (Preserves-pure waiting) (
      Preserves-if _ _ _ (Preserves-bind _ _ (emits _) λ _. Preserves-pure stage_fails)
        (Preserves-pure advance))

  fan_in-Preserves : (sc : Scope) (key : String) (n : GraphNode) → Preserves P (fan_in sc key n)
  unfolding fan_in
  fan_in-Preserves sc key n =
      Preserves-if _ _ _
        (Preserves-bind _ _ (Preserves-gets _)
          λ t. Preserves-bind _ _ (Preserves-gets _) λ f. settle-Preserves sc key n t f)
        (Preserves-pure advance)

  loop_exhausted-Preserves :
      (sc : Scope) (i : ℕ) (o : Option String) → Preserves P (loop_exhausted sc i o)
  unfolding loop_exhausted
  loop_exhausted-Preserves sc i none = Preserves-pure false
  loop_exhausted-Preserves sc i (some a) = Preserves-bind _ _ (Preserves-gets _) λ n.
      Preserves-bind _ _ (Preserves-gets _) λ cap.
        Preserves-if _ _ _ (Preserves-bind _ _ (emits _) λ _. Preserves-pure true)
          (Preserves-pure false)

  complete_workflow-Preserves : (sc : Scope) (why : String) → Preserves P (complete_workflow sc why)
  unfolding complete_workflow
  complete_workflow-Preserves sc why =
      Preserves-bind _ _ (Preserves-gets _)
        λ now. Preserves-bind _ _ (ends_workflow _ _ (λ w. refl)) λ _. emits _

  module _ (sc : Scope) (e : sc.run_id ≡ r) where
    dispatch_node-Preserves :
        (cfg : MergecrewConfig) (key : String) (n : GraphNode)
        → Preserves P (dispatch_node sc cfg key n)
    unfolding dispatch_node
    dispatch_node-Preserves cfg key n =
        Preserves-for_each (get_node_agents n) _ (λ a. dispatches sc e a cfg (some key))

    enter_node-Preserves :
        (cfg : MergecrewConfig) (s : AgentStep) (key : String) (n : Option GraphNode)
        → Preserves P (enter_node sc cfg s key n)
    unfolding enter_node
    enter_node-Preserves cfg s key none = Preserves-pure false
    enter_node-Preserves cfg s key (some n) =
        Preserves-bind _ _ (loop_exhausted-Preserves sc s.id _) λ b.
          Preserves-if _ _ _ (Preserves-pure false)
            (Preserves-bind _ _ (dispatch_node-Preserves cfg key n) λ _. Preserves-pure true)

    advance_to-Preserves :
        (cfg : MergecrewConfig) (g : GraphDefinition) (s : AgentStep) (key : Option String)
        → Preserves P (advance_to sc cfg g s key)
    unfolding advance_to
    advance_to-Preserves cfg g s none = Preserves-pure false
    advance_to-Preserves cfg g s (some key) =
        Preserves-if _ _ _ (Preserves-pure false) (enter_node-Preserves cfg s key _)

    after_fan_in-Preserves :
        (cfg : MergecrewConfig) (g : GraphDefinition) (s : AgentStep) (key : String) (f : FanIn)
        → Preserves P (after_fan_in sc cfg g s key f)
    after_fan_in-Preserves cfg g s key waiting = Preserves-pure true
    after_fan_in-Preserves cfg g s key stage_fails = Preserves-pure false
    after_fan_in-Preserves cfg g s key advance = advance_to-Preserves cfg g s _

    leave_node-Preserves :
        (cfg : MergecrewConfig) (g : GraphDefinition) (s : AgentStep) (key : String)
        (n : Option GraphNode)
        → Preserves P (leave_node sc cfg g s key n)
    unfolding leave_node
    leave_node-Preserves cfg g s key none = Preserves-pure false
    leave_node-Preserves cfg g s key (some n) =
        Preserves-bind _ _ (fan_in-Preserves sc key n) λ f. after_fan_in-Preserves cfg g s key f

    leave_graph_node-Preserves :
        (cfg : MergecrewConfig) (g : Option GraphDefinition) (s : AgentStep) (key : String)
        → Preserves P (leave_graph_node sc cfg g s key)
    unfolding leave_graph_node
    leave_graph_node-Preserves cfg none s key = Preserves-pure false
    leave_graph_node-Preserves cfg (some g) s key = leave_node-Preserves cfg g s key _

    enter_graph-Preserves :
        (cfg : MergecrewConfig) (g : GraphDefinition) (key : Option String)
        → Preserves P (enter_graph sc cfg g key)
    unfolding enter_graph
    enter_graph-Preserves cfg g none = complete_workflow-Preserves sc _
    enter_graph-Preserves cfg g (some key) = enter_first-Preserves (lookup_node key g.nodes)
      where
        enter_first-Preserves : (n : Option GraphNode) → Preserves P (enter_first sc cfg key n)
        enter_first-Preserves none = Preserves-raise missing_config
        enter_first-Preserves (some n) = dispatch_node-Preserves cfg key n

    dispatch_graph_entry-Preserves :
        (cfg : MergecrewConfig) (g : GraphDefinition) → Preserves P (dispatch_graph_entry sc cfg g)
    unfolding dispatch_graph_entry
    dispatch_graph_entry-Preserves cfg g = enter_graph-Preserves cfg g _

    module _ (parse_yaml : String → Option GraphDefinition) where
      next_of-Preserves : (s : Option AgentStep) → Preserves P (next_of parse_yaml sc s)
      unfolding next_from
      next_of-Preserves none = Preserves-pure false
      next_of-Preserves (some s) = go s.graph_node_key
        where
          go : (key : Option String) → Preserves P (next_from parse_yaml sc s key)
          go none = Preserves-pure false
          go (some key) = Preserves-if _ _ _ (Preserves-pure false) (
              Preserves-bind _ _ (Preserves-gets _) λ p.
                Preserves-bind _ _ (Preserves-gets _) λ lc. leave_graph_node-Preserves _ _ s key)

      pub dispatch_graph_next-Preserves :
          (i : ℕ) → Preserves P (dispatch_graph_next parse_yaml sc i)
      unfolding dispatch_graph_next
      dispatch_graph_next-Preserves i =
          Preserves-bind _ _ (Preserves-gets _) λ s. next_of-Preserves s

      run_agents-Preserves :
          (cfg : MergecrewConfig) (wf : WorkflowDef) (g : Option GraphDefinition)
          → Preserves P (run_agents parse_yaml sc cfg wf g)
      run_agents-Preserves cfg wf none =
          Preserves-for_each wf.agents _ (λ a. dispatches sc e a cfg none)
      run_agents-Preserves cfg wf (some g) = dispatch_graph_entry-Preserves cfg g

      run_workflow-Preserves :
          (cfg : MergecrewConfig) (wf : Option WorkflowDef)
          → Preserves P (run_workflow parse_yaml sc cfg wf)
      unfolding run_workflow
      run_workflow-Preserves cfg none = complete_workflow-Preserves sc _
      run_workflow-Preserves cfg (some wf) =
          Preserves-bind _ _ (Preserves-gets _) λ p. run_agents-Preserves cfg wf _

  module _ (parse_yaml : String → Option GraphDefinition) (sc : Scope) (e : sc.run_id ≡ r) where
    pub start_workflow-Preserves : (i : String) → Preserves P (start_workflow parse_yaml sc i)
    unfolding start_workflow
    start_workflow-Preserves i = Preserves-bind _ _ (starts_workflow _ (λ j. refl)) λ j.
        Preserves-bind _ _ (emits _) λ _.
          Preserves-bind _ _ (Preserves-gets _)
            λ lc. run_workflow-Preserves (record sc { workflow_run_id = j }) e parse_yaml _ _

module _ {ℓ} {P : Db → Type ℓ} {r : ℕ} (k : ReplyRules P r) (sc : Scope) (e : sc.run_id ≡ r) where
  open k use {starts, ends_run}
  open starts use {enqueue, ends_workflow}
  open enqueue use {emits, queues}

  pub ends_scope_run :
      (f : DailyRun → DailyRun)
      → ((x : DailyRun) → (f x).id ≡ x.id)
      → Preserves P (update_run sc.run_id f)
  ends_scope_run f h = subst (λ i. Preserves P (update_run i f)) (sym e) (ends_run f h)

  complete_run-Preserves : Preserves P (complete_run sc)
  unfolding complete_run
  complete_run-Preserves = Preserves-bind _ _ (Preserves-gets _) λ now.
      Preserves-bind _ _ (ends_scope_run _ (λ x. refl))
        λ _. Preserves-bind _ _ (emits _) λ _. queues _

  module _ (parse_yaml : String → Option GraphDefinition) where
    follow-Preserves : (is : List String) → Preserves P (follow parse_yaml sc is)
    follow-Preserves [] = complete_run-Preserves
    follow-Preserves (i ∷ is) =
        Preserves-for_each (i ∷ is) _ (start_workflow-Preserves starts parse_yaml sc e)

    follow_lifecycle-Preserves :
        (i : String) (lc : Option Lifecycle) → Preserves P (follow_lifecycle parse_yaml sc i lc)
    follow_lifecycle-Preserves i none = Preserves-raise missing_config
    follow_lifecycle-Preserves i (some lc) = follow-Preserves _

    finish_workflow-Preserves :
        (w : Option WorkflowRun) → Preserves P (finish_workflow parse_yaml sc w)
    unfolding finish_workflow
    finish_workflow-Preserves none = Preserves-pure tt
    finish_workflow-Preserves (some w) = Preserves-bind _ _ (Preserves-gets _) λ now.
        Preserves-bind _ _ (ends_workflow _ _ (λ x. refl)) λ _.
          Preserves-bind _ _ (emits _)
            λ _. Preserves-bind _ _ (Preserves-gets _) λ lc. follow_lifecycle-Preserves _ lc

    pub maybe_advance_workflow-Preserves : Preserves P (maybe_advance_workflow parse_yaml sc)
    unfolding maybe_advance_workflow
    maybe_advance_workflow-Preserves = Preserves-bind _ _ (Preserves-gets _) λ n.
        Preserves-bind _ _ (Preserves-gets _)
          λ w. Preserves-if _ _ _ (Preserves-pure tt) (finish_workflow-Preserves w)
