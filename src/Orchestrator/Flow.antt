-- ===== src/Orchestrator/Flow.antt =====
-- apps/orchestrator/src/orchestrator.ts: graph resolution, entry and successor dispatch, the start,
-- advance and end of workflows and runs.
pub mod Keeping
pub mod Stages
pub mod Round
use mergecrew.Base.{
  ℕ, String, Option, none, some, List, [], ◌∷◌, Bool, true, false, not, ◌&&◌, ◌||◌, if◌then◌else◌,
  str_eq, ◌==◌, get_or_else, count_of, keep, leb, ltb, opt_is, length, find,
}
use mergecrew.Exec.{Exec, pure, raise, missing_config, gets, ◌>>=◌, ◌>>◌, for_each}
use mergecrew.Graph.{
  GraphDefinition, GraphNode, fast, careful, roster, custom, FanInPolicy, strict, lenient,
  graph_end, get_node_agents, lookup_node, find_graph_entry_node, find_next_graph_node,
  validate_graph_definition, careful_graph, roster_graph, GraphValidationIssue, GraphProfile,
}
use mergecrew.Orchestrator.Store.{
  Db, DailyRunStatus, AgentStep, StepStatus, StepOutput, WorkflowRun, WorkflowStatus, WorkflowDef,
  Job, workspace_cleanup, run_completed, workflow_started, workflow_completed, stage_failed,
  review_loop_exhausted, nothing, reason, workflow, stage, rounds, AgentDefinition, MergecrewConfig,
  Lifecycle, Project, is_terminal, is_failed, find_step, find_project, find_workflow_run,
  update_run, update_workflow_run, emit, add_job, create_workflow_run,
}
use mergecrew.Orchestrator.Dispatch.{
  Scope, resolve_agent_by_ref, dispatch_agent_step, empty_config, config_of,
}

abbrev no_issues : List GraphValidationIssue → Bool
no_issues [] = true
no_issues (i ∷ is) = false

abbrev agent_keys : List (String × AgentDefinition) → List String
agent_keys [] = []
agent_keys ((k, d) ∷ ds) = k ∷ agent_keys ds

abbrev checked : MergecrewConfig → Option GraphDefinition → Option GraphDefinition
checked cfg none = none
checked cfg (some g) =
    if no_issues (validate_graph_definition g (some (agent_keys cfg.agents))) then some g else none

abbrev verdict_is : String → AgentStep → Bool
verdict_is v s = elim s.output [ none ↦ false | some o ↦ opt_is v o.verdict ]

abbrev mode_is : String → AgentStep → Bool
mode_is m s = elim s.output [ none ↦ false | some o ↦ opt_is m o.mode ]

-- The routing signal, by the kind of agent.
unfoldable pub signal_for : AgentStep → Option String
signal_for s =
    if str_eq s.agent_kind "Reviewer"
    then some (if verdict_is "approve" s then "approve" else "requestChanges")
    else if str_eq s.agent_kind "QA"
    then some (if verdict_is "tests_pass" s then "tests_pass" else "tests_fail")
    else if str_eq s.agent_kind "Planner" || str_eq s.agent_kind "Discovery"
    then (if mode_is "discovery" s then some "discovery" else none)
    else none

pub data FanIn : Type 0 where
  waiting stage_fails advance : FanIn

abbrev pub on_node : ℕ → String → AgentStep → Bool
on_node w key s = s.workflow_run_id == w && opt_is key s.graph_node_key

abbrev pub is_strict : Option FanInPolicy → Bool
is_strict (some lenient) = false
is_strict _ = true

abbrev pub terminal_on : ℕ → String → Db → ℕ
terminal_on w key db = count_of (λ s. is_terminal s.status) (keep (on_node w key) db.steps)

abbrev pub failed_on : ℕ → String → Db → ℕ
failed_on w key db = count_of (λ s. is_failed s.status) (keep (on_node w key) db.steps)

abbrev fail_stage : Scope → String → ℕ → ℕ → Exec Db FanIn
fail_stage sc key failed total = do
  emit (record {
    type = stage_failed;
    daily_run_id = sc.run_id;
    agent_step_id = none;
    payload = stage key failed total;
  })
  pure stage_fails

unfoldable pub settle : Scope → String → GraphNode → ℕ → ℕ → Exec Db FanIn
settle sc key node terminal failed =
    if ltb terminal (length (get_node_agents node))
    then pure waiting
    else if is_strict node.policy && ltb 0 failed
    then fail_stage sc key failed (length (get_node_agents node))
    else pure advance

-- Fan-in: a node of several agents waits for all of them, and a strict one for no failure.
unfoldable pub fan_in : Scope → String → GraphNode → Exec Db FanIn
fan_in sc key node =
    if ltb 1 (length (get_node_agents node))
    then (do
      terminal ← gets (terminal_on sc.workflow_run_id key)
      failed ← gets (failed_on sc.workflow_run_id key)
      settle sc key node terminal failed)
    else pure advance

abbrev first_or_empty : List String → String
first_or_empty [] = ""
first_or_empty (r ∷ rs) = r

abbrev kind_is : String → Option AgentDefinition → Bool
kind_is k none = false
kind_is k (some d) = str_eq d.kind k

-- The kind whose rounds are counted, if the edge closes a review loop.
unfoldable pub loop_kind : MergecrewConfig → AgentStep → GraphNode → Option String
loop_kind cfg s next =
    let def = resolve_agent_by_ref cfg.agents (first_or_empty (get_node_agents next)) in
    if str_eq s.agent_kind "Reviewer" && kind_is "Coder" def
    then some "Coder"
    else if str_eq s.agent_kind "QA" && kind_is "PM" def
    then some "PM"
    else none

abbrev pub round_of : ℕ → String → AgentStep → Bool
round_of w k s = s.workflow_run_id == w && str_eq s.agent_kind k && is_terminal s.status

abbrev pub rounds_in : ℕ → String → Db → ℕ
rounds_in w k db = count_of (round_of w k) db.steps

abbrev give_up : Scope → ℕ → ℕ → ℕ → Exec Db Bool
give_up sc step_id n cap = do
  emit (record {
    type = review_loop_exhausted;
    daily_run_id = sc.run_id;
    agent_step_id = some step_id;
    payload = rounds n cap;
  })
  pure true

-- Whether the loop's rounds are used up; if so, the event says so.
unfoldable pub loop_exhausted : Scope → ℕ → Option String → Exec Db Bool
loop_exhausted sc step_id none = pure false
loop_exhausted sc step_id (some k) = do
  n ← gets (rounds_in sc.workflow_run_id k)
  cap ← gets (λ db. db.review_loop_cap)
  if leb cap n then give_up sc step_id n cap else pure false

unfoldable pub dispatch_node : Scope → MergecrewConfig → String → GraphNode → Exec Db Unit
dispatch_node sc cfg key node =
    for_each (get_node_agents node) (λ r. dispatch_agent_step sc r cfg (some key))

unfoldable pub enter_node :
    Scope → MergecrewConfig → AgentStep → String → Option GraphNode → Exec Db Bool
enter_node sc cfg s key none = pure false
enter_node sc cfg s key (some node) = do
  exhausted ← loop_exhausted sc s.id (loop_kind cfg s node)
  if exhausted then pure false else (do dispatch_node sc cfg key node; pure true)

unfoldable pub advance_to :
    Scope → MergecrewConfig → GraphDefinition → AgentStep → Option String → Exec Db Bool
advance_to sc cfg g s none = pure false
advance_to sc cfg g s (some key) =
    if str_eq key graph_end then pure false else enter_node sc cfg s key (lookup_node key g.nodes)

abbrev pub after_fan_in :
    Scope → MergecrewConfig → GraphDefinition → AgentStep → String → FanIn → Exec Db Bool
after_fan_in sc cfg g s key waiting = pure true
after_fan_in sc cfg g s key stage_fails = pure false
after_fan_in sc cfg g s key advance =
    advance_to sc cfg g s (find_next_graph_node g key (signal_for s))

unfoldable pub leave_node :
    Scope → MergecrewConfig → GraphDefinition → AgentStep → String → Option GraphNode → Exec Db Bool
leave_node sc cfg g s key none = pure false
leave_node sc cfg g s key (some node) = do f ← fan_in sc key node; after_fan_in sc cfg g s key f

unfoldable pub leave_graph_node :
    Scope → MergecrewConfig → Option GraphDefinition → AgentStep → String → Exec Db Bool
leave_graph_node sc cfg none s key = pure false
leave_graph_node sc cfg (some g) s key = leave_node sc cfg g s key (lookup_node key g.nodes)

unfoldable pub complete_workflow : Scope → String → Exec Db Unit
complete_workflow sc why = do
  now ← gets (λ db. db.now)
  update_workflow_run sc.workflow_run_id
      (λ w. record w { status = WorkflowStatus.failed; finished_at = some now })
  emit (record {
    type = workflow_completed;
    daily_run_id = sc.run_id;
    agent_step_id = none;
    payload = reason why;
  })

unfoldable pub complete_run : Scope → Exec Db Unit
complete_run sc = do
  now ← gets (λ db. db.now)
  update_run sc.run_id (λ r. record r { status = DailyRunStatus.done; finished_at = some now })
  emit (record {
    type = run_completed;
    daily_run_id = sc.run_id;
    agent_step_id = none;
    payload = nothing;
  })
  add_job (workspace_cleanup sc.run_id)

-- A missing entry node would be a `TypeError`.
abbrev enter_first : Scope → MergecrewConfig → String → Option GraphNode → Exec Db Unit
enter_first sc cfg key none = raise missing_config
enter_first sc cfg key (some node) = dispatch_node sc cfg key node

unfoldable pub enter_graph :
    Scope → MergecrewConfig → GraphDefinition → Option String → Exec Db Unit
enter_graph sc cfg g none = complete_workflow sc "careful-no-entry"
enter_graph sc cfg g (some key) = enter_first sc cfg key (lookup_node key g.nodes)

unfoldable pub dispatch_graph_entry : Scope → MergecrewConfig → GraphDefinition → Exec Db Unit
dispatch_graph_entry sc cfg g = enter_graph sc cfg g (find_graph_entry_node g)

abbrev find_workflow : String → MergecrewConfig → Option WorkflowDef
find_workflow i cfg = find (λ w. str_eq w.id i) cfg.workflows

abbrev new_workflow_run : Scope → String → ℕ → WorkflowRun
new_workflow_run sc i j = record {
  id = j;
  daily_run_id = sc.run_id;
  workflow_id = i;
  parent = none;
  status = WorkflowStatus.running;
  finished_at = none;
}

-- `wf?.out ?? []`
abbrev out_of : Option WorkflowDef → List String
out_of none = []
out_of (some wf) = wf.out

abbrev pub unfinished : ℕ → AgentStep → Bool
unfinished w s = s.workflow_run_id == w && not (is_terminal s.status)

abbrev pub remaining_in : ℕ → Db → ℕ
remaining_in w db = count_of (unfinished w) db.steps

-- `parse_yaml` is the YAML parser together with the check of the shape.
module _ (parse_yaml : String → Option GraphDefinition) where
  abbrev custom_graph : MergecrewConfig → Option String → Option GraphDefinition
  custom_graph cfg none = none
  custom_graph cfg (some y) = if str_eq y "" then none else checked cfg (parse_yaml y)

  abbrev graph_of : MergecrewConfig → GraphProfile → Option String → Option GraphDefinition
  graph_of cfg fast y = none
  graph_of cfg careful y = some careful_graph
  graph_of cfg roster y = some roster_graph
  graph_of cfg custom y = custom_graph cfg y

  unfoldable pub resolve_project_graph : Option Project → MergecrewConfig → Option GraphDefinition
  resolve_project_graph none cfg = none
  resolve_project_graph (some p) cfg = graph_of cfg p.graph_profile p.graph_yaml

  unfoldable pub next_from : Scope → AgentStep → Option String → Exec Db Bool
  next_from sc s none = pure false
  next_from sc s (some key) = if str_eq key "" then pure false else (do
    project ← gets (find_project sc.project_id)
    lc ← gets (λ db. db.lifecycle sc.project_id)
    leave_graph_node sc (config_of lc) (resolve_project_graph project (config_of lc)) s key)

  abbrev pub next_of : Scope → Option AgentStep → Exec Db Bool
  next_of sc none = pure false
  next_of sc (some s) = next_from sc s s.graph_node_key

  -- Whether a successor is under way.
  unfoldable pub dispatch_graph_next : Scope → ℕ → Exec Db Bool
  dispatch_graph_next sc step_id = do s ← gets (find_step step_id); next_of sc s

  abbrev run_agents : Scope → MergecrewConfig → WorkflowDef → Option GraphDefinition → Exec Db Unit
  run_agents sc cfg wf none = for_each wf.agents (λ r. dispatch_agent_step sc r cfg none)
  run_agents sc cfg wf (some g) = dispatch_graph_entry sc cfg g

  unfoldable pub run_workflow : Scope → MergecrewConfig → Option WorkflowDef → Exec Db Unit
  run_workflow sc cfg none = complete_workflow sc "no-such-workflow"
  run_workflow sc cfg (some wf) = do
    project ← gets (find_project sc.project_id)
    run_agents sc cfg wf (resolve_project_graph project cfg)

  -- The scope's workflow run is replaced by the one that is created.
  unfoldable pub start_workflow : Scope → String → Exec Db Unit
  start_workflow sc i = do
    j ← create_workflow_run (new_workflow_run sc i)
    emit (record {
      type = workflow_started;
      daily_run_id = sc.run_id;
      agent_step_id = none;
      payload = workflow i;
    })
    lc ← gets (λ db. db.lifecycle sc.project_id)
    run_workflow (record sc { workflow_run_id = j }) (config_of lc) (find_workflow i (config_of lc))

  abbrev follow : Scope → List String → Exec Db Unit
  follow sc [] = complete_run sc
  follow sc (i ∷ is) = for_each (i ∷ is) (start_workflow sc)

  -- `cfg.lifecycle.workflows` throws where there is no lifecycle.
  abbrev follow_lifecycle : Scope → String → Option Lifecycle → Exec Db Unit
  follow_lifecycle sc i none = raise missing_config
  follow_lifecycle sc i (some lc) = follow sc (out_of (find_workflow i lc.parsed))

  unfoldable pub finish_workflow : Scope → Option WorkflowRun → Exec Db Unit
  finish_workflow sc none = pure tt
  finish_workflow sc (some w) = do
    now ← gets (λ db. db.now)
    update_workflow_run sc.workflow_run_id
        (λ x. record x { status = WorkflowStatus.done; finished_at = some now })
    emit (record {
      type = workflow_completed;
      daily_run_id = sc.run_id;
      agent_step_id = none;
      payload = workflow w.workflow_id;
    })
    lc ← gets (λ db. db.lifecycle sc.project_id)
    follow_lifecycle sc w.workflow_id lc

  unfoldable pub maybe_advance_workflow : Scope → Exec Db Unit
  maybe_advance_workflow sc = do
    remaining ← gets (remaining_in sc.workflow_run_id)
    wfr ← gets (find_workflow_run sc.workflow_run_id)
    if ltb 0 remaining then pure tt else finish_workflow sc wfr
