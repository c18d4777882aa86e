-- ===== src/Graph/Tests.antt =====
-- The stock graphs on concrete input.
use mergecrew.Base.{String, ◌⊎◌, true, ◌≡◌, refl, none, some, [], ◌∷◌}
use mergecrew.Graph.{
  graph_end, validate_graph_definition, find_graph_entry_node, find_next_graph_node, roster_graph,
  careful_graph, has, node_keys,
}
use mergecrew.Graph.Valid.{IsRunnable, validate-IsRunnable, validate-next}

stock_graphs_valid :
    (validate_graph_definition roster_graph none ≡ [])
    × (validate_graph_definition careful_graph (some ("planner" ∷ "coder" ∷ "reviewer" ∷ [])) ≡ [])
    × (find_graph_entry_node roster_graph ≡ some "discovery")
unfolding validate_graph_definition roster_graph careful_graph find_graph_entry_node
stock_graphs_valid = (refl, refl, refl)

roster_routes :
    (find_next_graph_node roster_graph "qa" (some "tests_fail") ≡ some "pm")
    × (find_next_graph_node roster_graph "discovery" none ≡ some "pm")
    × (find_next_graph_node careful_graph "reviewer" none ≡ some graph_end)
unfolding find_next_graph_node roster_graph careful_graph
roster_routes = (refl, refl, refl)

validate-IsRunnable_example : IsRunnable none roster_graph
unfolding validate_graph_definition roster_graph
validate-IsRunnable_example = validate-IsRunnable roster_graph none refl

validate-next_example :
    (find_next_graph_node roster_graph "qa" (some "tests_fail") ≡ none)
    ⊎ (find_next_graph_node roster_graph "qa" (some "tests_fail") ≡ some graph_end)
    ⊎ ((t : String) × (find_next_graph_node roster_graph "qa" (some "tests_fail") ≡ some t)
        × (has (node_keys roster_graph) t ≡ true))
unfolding validate_graph_definition roster_graph
validate-next_example = validate-next roster_graph none "qa" (some "tests_fail") refl
