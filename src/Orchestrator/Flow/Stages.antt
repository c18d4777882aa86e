-- ===== src/Orchestrator/Flow/Stages.antt =====
-- The decision of the fan-in, its counts over several rounds, and the cap on review loops.
use mergecrew.Base.{
  ℕ, ◌<◌, ◌≤◌, String, some, [], ◌∷◌, ◌++◌, true, false, ◌≡◌, refl, ◌↔◌, arith, lt→ltb, le→leb, Any,
  count-pos, length, leb, Any-map,
}
use mergecrew.Exec.{ok, pure, ◌>>=◌, ◌>>◌}
use mergecrew.Graph.{GraphNode, get_node_agents}
use mergecrew.Orchestrator.Store.{
  Db, AgentStep, MergecrewConfig, emit, is_terminal, review_loop_exhausted, rounds,
}
use mergecrew.Orchestrator.Dispatch.{Scope}
use mergecrew.Orchestrator.Flow.{
  waiting, stage_fails, advance, settle, fan_in, terminal_on, failed_on, is_strict, loop_kind,
  loop_exhausted, enter_node, rounds_in, remaining_in, unfinished, on_node, dispatch_node,
}

pub fan_in-settle :
    (sc : Scope) (key : String) (n : GraphNode) (db : Db)
    → 1 < length (get_node_agents n)
    → fan_in sc key n db
      ≡ settle sc key n
          (terminal_on sc.workflow_run_id key db)
          (failed_on sc.workflow_run_id key db)
          db
unfolding fan_in ◌>>=◌
fan_in-settle sc key n db many = rw (lt→ltb 1 _ many) refl

module _ (sc : Scope) (key : String) (n : GraphNode) (t f : ℕ) (db : Db) where
  pub settle-waiting : ((settle sc key n t f db).0 ≡ ok waiting) ↔ (t < length (get_node_agents n))
  unfolding settle ◌>>=◌ emit
  settle-waiting = ground arith

  pub settle-advance :
      ((settle sc key n t f db).0 ≡ ok advance)
      ↔ ((length (get_node_agents n) ≤ t) × (is_strict n.policy ≡ true → f ≡ 0))
  unfolding settle ◌>>=◌ emit
  settle-advance = ground arith

  pub settle-fails :
      ((settle sc key n t f db).0 ≡ ok stage_fails)
      ↔ ((length (get_node_agents n) ≤ t) × (is_strict n.policy ≡ true) × (0 < f))
  unfolding settle ◌>>=◌ emit
  settle-fails = ground arith

lt→not_leb : (a b : ℕ) → a < b → leb b a ≡ false
lt→not_leb a b h = ground arith

-- A step of the node that is not terminal.
abbrev IsOpenOn : ℕ → String → AgentStep → Type 0
IsOpenOn w key s = (on_node w key s ≡ true) × (is_terminal s.status ≡ false)

-- The steps of an earlier round count: once a round of the node ended without a failure, the fan-in of
-- a later round advances at once, though a step of the node is still open.
pub fan_in-stale :
    (sc : Scope) (key : String) (n : GraphNode) (db : Db)
    → 1 < length (get_node_agents n)
    → length (get_node_agents n) ≤ terminal_on sc.workflow_run_id key db
    → failed_on sc.workflow_run_id key db ≡ 0
    → Any (IsOpenOn sc.workflow_run_id key) db.steps
    → (fan_in sc key n db ≡ (ok advance, db)) × (0 < remaining_in sc.workflow_run_id db)
unfolding fan_in settle ◌>>=◌
fan_in-stale sc key n db many enough clean a =
    (ground arith, count-pos (unfinished sc.workflow_run_id) (Any-map (λ s q. ground arith) a))

-- The state with the event that says that a loop's rounds are used up.
abbrev pub gave_up : Scope → AgentStep → String → Db → Db
gave_up sc s k db = record db {
  events =
      db.events
      ++ record {
        type = review_loop_exhausted;
        daily_run_id = sc.run_id;
        agent_step_id = some s.id;
        payload = rounds (rounds_in sc.workflow_run_id k db) db.review_loop_cap;
      }
        ∷ [];
}

-- A review loop goes on exactly while its rounds are below the cap: then every agent of the next node is
-- dispatched, and at the cap the only write is the event that says so, and the chain ends.
pub enter_node-loop :
    (sc : Scope) (cfg : MergecrewConfig) (s : AgentStep) (key k : String) (n : GraphNode) (db : Db)
    → loop_kind cfg s n ≡ some k
    → (db.review_loop_cap ≤ rounds_in sc.workflow_run_id k db
        → enter_node sc cfg s key (some n) db ≡ (ok false, gave_up sc s k db))
      × (rounds_in sc.workflow_run_id k db < db.review_loop_cap
          → enter_node sc cfg s key (some n) db ≡ (dispatch_node sc cfg key n >> pure true) db)
unfolding enter_node loop_exhausted ◌>>=◌ emit
enter_node-loop sc cfg s key k n db loop = (
  λ over. rw (loop, le→leb db.review_loop_cap _ over) refl,
  λ under. rw (loop, lt→not_leb _ db.review_loop_cap under) refl,
)
