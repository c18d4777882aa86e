-- ===== src/Graph/Valid.antt =====
-- What a definition that validates without an issue guarantees.
use mergecrew.Base.{
  ℕ, suc, String, Option, none, some, List, [], ◌∷◌, ◌++◌, Bool, true, false, not, ◌&&◌, ◌≡◌, ap,
  sym, ◌∙◌, subst, refl, ◌⊎◌, inl, inr, arith, eq_iff, str_eq, Any, here, All, All-Any, any_sound,
  any_complete, Option-cases, Any-map, Any-some, keep-Any,
}
use mergecrew.Graph.{
  GraphDefinition, GraphEdge, GraphNode, GraphValidationIssue, graph_end, get_node_agents, has,
  node_keys, when_push, edge_issues, is_target, possible_entries, ends, ref_issues, agent_issues,
  unique, validate_graph_definition, find_graph_entry_node, find_next_graph_node, entry_issues,
  opt_agent_issues,
}
use mergecrew.Graph.Laws.{find_next-Any}

append-eq-nil : (is js : List GraphValidationIssue) → is ++ js ≡ [] → (is ≡ []) × (js ≡ [])
append-eq-nil [] js h = (refl, h)
append-eq-nil (i ∷ is) js h = cc

when_push-eq-nil : (b : Bool) (i : GraphValidationIssue) → when_push b i ≡ [] → b ≡ false
when_push-eq-nil true i h = cc
when_push-eq-nil false i h = refl

not-eq-false : (b : Bool) → not b ≡ false → b ≡ true
not-eq-false b h = ground arith

not-eq-true : (b : Bool) → not b ≡ true → b ≡ false
not-eq-true b h = ground arith

-- An edge between defined nodes, or from a defined node to the end.
abbrev pub Connects : List String → GraphEdge → Type 0
Connects ks e = (has ks e.from ≡ true) × ((e.to ≡ graph_end) ⊎ (has ks e.to ≡ true))

edge_Connects :
    (ks : List String) (e : GraphEdge)
    → not (has ks e.from) ≡ false
    → (not (str_eq e.to graph_end) && not (has ks e.to)) ≡ false
    → Connects ks e
edge_Connects ks e h k = ground (arith, eq_iff e.to graph_end)

edge_issues-Connects :
    (ks : List String) (i : ℕ) (es : List GraphEdge)
    → edge_issues ks i es ≡ []
    → All (Connects ks) es
unfolding edge_issues
edge_issues-Connects ks i [] h = tt
edge_issues-Connects ks i (e ∷ es) h =
    let (from_ok, rest) = append-eq-nil _ _ h in
    let (to_ok, later) = append-eq-nil _ _ rest in
    (
      edge_Connects ks e (when_push-eq-nil _ _ from_ok) (when_push-eq-nil _ _ to_ok),
      edge_issues-Connects ks (suc i) es later,
    )

entry_issues-eq-nil : (ks : List String) → entry_issues ks ≡ [] → (k : String) × (ks ≡ k ∷ [])
entry_issues-eq-nil [] h = cc
entry_issues-eq-nil (k ∷ []) h = (k, refl)
entry_issues-eq-nil (k ∷ j ∷ ks) h = cc

-- Every agent of every node is available.
abbrev pub Resolves : List String → String × GraphNode → Type 0
Resolves available (k, n) = All (λ r. has available r ≡ true) (get_node_agents n)

ref_issues-All :
    (available : List String) (k : String) (rs : List String)
    → ref_issues available k rs ≡ []
    → All (λ r. has available r ≡ true) rs
ref_issues-All available k [] h = tt
ref_issues-All available k (r ∷ rs) h =
    let (this, later) = append-eq-nil _ _ h in
    (not-eq-false _ (when_push-eq-nil _ _ this), ref_issues-All available k rs later)

agent_issues-All :
    (available : List String) (ns : List (String × GraphNode))
    → agent_issues available ns ≡ []
    → All (Resolves available) ns
unfolding agent_issues
agent_issues-All available [] h = tt
agent_issues-All available ((k, n) ∷ ns) h =
    let (this, later) = append-eq-nil _ _ h in
    (ref_issues-All available k (get_node_agents n) this, agent_issues-All available ns later)

abbrev pub AgentsResolve : Option (List String) → List (String × GraphNode) → Type 0
AgentsResolve none ns = Unit {0}
AgentsResolve (some available) ns = All (Resolves available) ns

opt_agent_issues-All :
    (available : Option (List String)) (ns : List (String × GraphNode))
    → opt_agent_issues available ns ≡ []
    → AgentsResolve available ns
opt_agent_issues-All none ns h = tt
opt_agent_issues-All (some available) ns h = agent_issues-All available ns h

-- The shape of a graph that can be run.
pub record IsRunnable (available : Option (List String)) (def : GraphDefinition) : Type 0 where
  pub connected : All (Connects (node_keys def)) def.edges
  pub entry : String
  pub only_entry : possible_entries def ≡ entry ∷ []
  pub terminates : Any (λ e. e.to ≡ graph_end) def.edges
  pub resolved : AgentsResolve available def.nodes

-- A definition without issues connects defined nodes only, has exactly one node that no edge points
-- to, has an edge to the end, and names available agents only.
pub validate-IsRunnable :
    (def : GraphDefinition) (available : Option (List String))
    → validate_graph_definition def available ≡ []
    → IsRunnable available def
unfolding validate_graph_definition
validate-IsRunnable def available h =
    let (edges_ok, rest) = append-eq-nil _ _ h in
    let (entries_ok, rest') = append-eq-nil _ _ rest in
    let (ends_ok, agents_ok) = append-eq-nil _ _ rest' in
    let (k, unique_k) = entry_issues-eq-nil _ entries_ok in
    let ends_true : ends def.edges ≡ true = not-eq-false _ (when_push-eq-nil _ _ ends_ok) in
    record {
      connected = edge_issues-Connects _ 0 def.edges edges_ok;
      entry = k;
      only_entry = unique_k;
      terminates = Any-map (λ e q. (eq_iff e.to graph_end).0 q) (any_sound _ def.edges ends_true);
      resolved = opt_agent_issues-All available def.nodes agents_ok;
    }

pub has_self : (ks : List String) {k : String} → Any (λ j. j ≡ k) ks → has ks k ≡ true
has_self ks {k} a = any_complete _ ks (Any-map (λ j q. (eq_iff j k).1 q) a)

-- A definition without issues has an entry node: it is defined, and no edge points to it.
pub validate-entry :
    (def : GraphDefinition) (available : Option (List String))
    → validate_graph_definition def available ≡ []
    → (k : String) × (find_graph_entry_node def ≡ some k)
      × (has (node_keys def) k ≡ true)
      × (is_target def.edges k ≡ false)
unfolding find_graph_entry_node possible_entries
validate-entry def available h =
    let good = validate-IsRunnable def available h in
    let kept : Any (λ j. j ≡ good.entry) (possible_entries def) = rw good.only_entry (here refl) in
    let found = keep-Any (λ k. not (is_target def.edges k)) (node_keys def) kept in
    let (j, kept_j) = Any-some found in
    let no_target : not (is_target def.edges good.entry) ≡ true =
      subst (λ k. not (is_target def.edges k) ≡ true) kept_j.0 kept_j.1 in
    (
      good.entry,
      ap unique good.only_entry,
      has_self (node_keys def) (Any-map (λ j q. q.0) found),
      not-eq-true _ no_target,
    )

-- From any node of a definition without issues, under any signal, the next node is undecided, the
-- end, or a defined node.
pub validate-next :
    (def : GraphDefinition) (available : Option (List String)) (k : String) (signal : Option String)
    → validate_graph_definition def available ≡ []
    → (find_next_graph_node def k signal ≡ none)
      ⊎ (find_next_graph_node def k signal ≡ some graph_end)
      ⊎ ((t : String) × (find_next_graph_node def k signal ≡ some t)
          × (has (node_keys def) t ≡ true))
validate-next def available k signal h = elim (Option-cases (find_next_graph_node def k signal)) [
  | inl stuck ↦ inl stuck
  | inr (t, e) ↦
      let (f, ok, leads) =
        All-Any (find_next-Any def k signal e) (validate-IsRunnable def available h).connected in
      elim ok.1 [
        | inl stop ↦ inr (inl (e ∙ ap some (sym leads.1 ∙ stop)))
        | inr defined ↦ inr (inr (t, e, subst (λ x. has (node_keys def) x ≡ true) leads.1 defined))
      ]
]
