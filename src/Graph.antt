-- ===== src/Graph.antt =====
-- packages/domain/src/graph-profile.ts: agent graphs, their validation, the entry node and the
-- choice of the next node. A `Record` of nodes is an association list in insertion order, and an
-- issue is a constructor in place of its path and message.
pub mod Laws
pub mod Valid
mod Tests
use mergecrew.Base.{
  ℕ, suc, String, Option, none, some, List, [], ◌∷◌, ◌++◌, map, Bool, true, false, not, ◌&&◌, ◌||◌,
  if◌then◌else◌, str_eq, get_or_else, is_some, any, find, keep, opt_is,
}

abbrev pub graph_end : String
graph_end = "__end__"

pub data GraphProfile : Type 0 where
  fast careful roster custom : GraphProfile

pub record GraphEdge : Type 0 where
  pub from : String
  pub to : String
  pub when : Option String

pub data FanInPolicy : Type 0 where
  strict lenient : FanInPolicy

pub record GraphNode : Type 0 where
  pub agent_ref : Option String
  pub agents : Option (List String)
  pub policy : Option FanInPolicy

pub record GraphDefinition : Type 0 where
  pub nodes : List (String × GraphNode)
  pub edges : List GraphEdge

-- `node.agentRef ? [node.agentRef] : []`: the empty string is falsy.
abbrev single_ref : Option String → List String
single_ref none = []
single_ref (some r) = if str_eq r "" then [] else r ∷ []

unfoldable pub get_node_agents : GraphNode → List String
get_node_agents n = get_or_else n.agents (single_ref n.agent_ref)

abbrev pub has : List String → String → Bool
has ks k = any (λ j. str_eq j k) ks

abbrev pub node_keys : GraphDefinition → List String
node_keys def = map (λ kn. kn.0) def.nodes

abbrev pub lookup_node : String → List (String × GraphNode) → Option GraphNode
lookup_node k [] = none
lookup_node k ((j, n) ∷ ns) = if str_eq j k then some n else lookup_node k ns

pub data GraphValidationIssue : Type 0 where
  unknown_from : ℕ → String → GraphValidationIssue
  unknown_to : ℕ → String → GraphValidationIssue
  no_entry : GraphValidationIssue
  multiple_entries : List String → GraphValidationIssue
  no_terminator : GraphValidationIssue
  unknown_agent : String → String → GraphValidationIssue

-- `if (test) issues.push(issue)`
abbrev pub when_push : Bool → GraphValidationIssue → List GraphValidationIssue
when_push b i = if b then i ∷ [] else []

-- 1. the loop over the edges, from index `i`
unfoldable pub edge_issues : List String → ℕ → List GraphEdge → List GraphValidationIssue
edge_issues ks i [] = []
edge_issues ks i (e ∷ es) =
    when_push (not (has ks e.from)) (unknown_from i e.from)
    ++ (when_push (not (str_eq e.to graph_end) && not (has ks e.to)) (unknown_to i e.to)
        ++ edge_issues ks (suc i) es)

-- `referencedAsTo.has(k)`: the set holds the targets other than the end.
abbrev pub is_target : List GraphEdge → String → Bool
is_target es k = any (λ e. not (str_eq e.to graph_end) && str_eq e.to k) es

-- 2. the nodes that no edge points to
unfoldable pub possible_entries : GraphDefinition → List String
possible_entries def = keep (λ k. not (is_target def.edges k)) (node_keys def)

abbrev entry_issues : List String → List GraphValidationIssue
entry_issues [] = no_entry ∷ []
entry_issues (k ∷ []) = []
entry_issues (k ∷ j ∷ ks) = multiple_entries (k ∷ j ∷ ks) ∷ []

abbrev pub ends : List GraphEdge → Bool
ends es = any (λ e. str_eq e.to graph_end) es

-- 4. the agents of one node, and of all nodes
abbrev pub ref_issues : List String → String → List String → List GraphValidationIssue
ref_issues available k [] = []
ref_issues available k (r ∷ rs) =
    when_push (not (has available r)) (unknown_agent k r) ++ ref_issues available k rs

unfoldable pub agent_issues : List String → List (String × GraphNode) → List GraphValidationIssue
unfolding get_node_agents
agent_issues available [] = []
agent_issues available ((k, n) ∷ ns) =
    ref_issues available k (get_node_agents n) ++ agent_issues available ns

abbrev opt_agent_issues :
    Option (List String) → List (String × GraphNode) → List GraphValidationIssue
opt_agent_issues none ns = []
opt_agent_issues (some available) ns = agent_issues available ns

unfoldable pub validate_graph_definition :
    GraphDefinition → Option (List String) → List GraphValidationIssue
unfolding edge_issues possible_entries agent_issues
validate_graph_definition def available =
    edge_issues (node_keys def) 0 def.edges
    ++ (entry_issues (possible_entries def)
        ++ (when_push (not (ends def.edges)) no_terminator ++ opt_agent_issues available def.nodes))

-- `candidates.length === 1 ? candidates[0] : undefined`
abbrev pub unique : List String → Option String
unique [] = none
unique (k ∷ []) = some k
unique (k ∷ j ∷ ks) = none

unfoldable pub find_graph_entry_node : GraphDefinition → Option String
unfolding possible_entries
find_graph_entry_node def = unique (possible_entries def)

abbrev pub label_is : String → GraphEdge → Bool
label_is s e = opt_is s e.when

abbrev pub target : Option GraphEdge → Option String
target none = none
target (some e) = some e.to

-- `if (signal) …`: the empty signal is falsy.
abbrev signal_match : Option String → List GraphEdge → Option GraphEdge
signal_match none es = none
signal_match (some s) es = if str_eq s "" then none else find (label_is s) es

abbrev or_first : Option GraphEdge → Option GraphEdge → Option GraphEdge
or_first none o = o
or_first (some e) o = some e

abbrev pub unlabelled : GraphEdge → Bool
unlabelled e = not (is_some e.when)

-- More than one candidate: the signal's edge, else the default edge, else `approve`.
abbrev pub choose : Option String → List GraphEdge → Option GraphEdge
choose signal es =
    or_first (signal_match signal es) (or_first (find unlabelled es) (find (label_is "approve") es))

abbrev pub from_candidates : Option String → List GraphEdge → Option String
from_candidates signal [] = none
from_candidates signal (e ∷ []) = some e.to
from_candidates signal (e ∷ f ∷ es) = target (choose signal (e ∷ f ∷ es))

abbrev pub candidates : GraphDefinition → String → List GraphEdge
candidates def k = keep (λ e. str_eq e.from k) def.edges

unfoldable pub find_next_graph_node : GraphDefinition → String → Option String → Option String
find_next_graph_node def from_key signal = from_candidates signal (candidates def from_key)

abbrev agent_node : String → GraphNode
agent_node r = record { agent_ref = some r; agents = none; policy = none }

abbrev edge : String → String → GraphEdge
edge a b = record { from = a; to = b; when = none }

abbrev edge_when : String → String → String → GraphEdge
edge_when a b w = record { from = a; to = b; when = some w }

unfoldable pub roster_graph : GraphDefinition
roster_graph = record {
  nodes =
      ("discovery", agent_node "discovery")
      ∷ ("pm", agent_node "pm")
      ∷ (
        "implementation",
        record {
          agent_ref = none;
          agents = some ("backend_engineer" ∷ "frontend_engineer" ∷ []);
          policy = some strict;
        },
      )
      ∷ ("qa", agent_node "qa")
      ∷ ("deploy_dev", agent_node "sre")
      ∷ (
        "observation",
        record {
          agent_ref = none;
          agents = some ("observation" ∷ "design_reviewer" ∷ "bug_triage" ∷ "doc_writer" ∷ []);
          policy = some lenient;
        },
      )
      ∷ [];
  edges =
      edge_when "discovery" graph_end "discovery"
      ∷ edge "discovery" "pm"
      ∷ edge "pm" "implementation"
      ∷ edge "implementation" "qa"
      ∷ edge_when "qa" "deploy_dev" "tests_pass"
      ∷ edge_when "qa" "deploy_dev" "tests_skipped"
      ∷ edge_when "qa" "pm" "tests_fail"
      ∷ edge "deploy_dev" "observation"
      ∷ edge "observation" graph_end
      ∷ [];
}

unfoldable pub careful_graph : GraphDefinition
careful_graph = record {
  nodes =
      ("planner", agent_node "planner")
      ∷ ("coder", agent_node "coder")
      ∷ ("reviewer", agent_node "reviewer")
      ∷ [];
  edges =
      edge_when "planner" graph_end "discovery"
      ∷ edge "planner" "coder"
      ∷ edge "coder" "reviewer"
      ∷ edge_when "reviewer" "coder" "requestChanges"
      ∷ edge_when "reviewer" graph_end "approve"
      ∷ [];
}
