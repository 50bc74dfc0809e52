-- ===== src/Graph/Samples.antt =====
-- Small graphs, and what `validate` says of them.
use rust_agent_framework.Common.{
  ℕ, String, Bool, true, false, none, some, List, [], ◌∷◌, Map, ◌≡◌, refl, ok, err,
}
use rust_agent_framework.Graph.{new_node, WorkflowGraph, cycle_found, validate}
use rust_agent_framework.Graph.Edges.{Edge, direct, sink_ids, is_loopback_edge}
use rust_agent_framework.Graph.Registered.{IsValidated, validate-IsValidated}

abbrev link : String → String → String → Bool → Edge ℕ ℕ
link id source sink back = direct (record {
  edge_id = id;
  source_id = source;
  sink_id = sink;
  label = none;
  condition = none;
  is_loopback = back;
})

abbrev on : Map (List (Edge ℕ ℕ)) → WorkflowGraph ℕ ℕ ℕ
on edges = record {
  nodes = ("a", new_node "a" 0) ∷ ("b", new_node "b" 0) ∷ ("c", new_node "c" 0) ∷ [];
  edges = edges;
  ports = [];
  output_node_ids = [];
  start_node_id = "a";
}

-- a → b → c, and back from c to b by a marked edge.
abbrev marked : WorkflowGraph ℕ ℕ ℕ
marked = on (
    ("a", link "1" "a" "b" false ∷ [])
    ∷ ("b", link "2" "b" "c" false ∷ [])
    ∷ ("c", link "3" "c" "b" true ∷ [])
    ∷ [])

-- The same with the way back unmarked.
abbrev unmarked : WorkflowGraph ℕ ℕ ℕ
unmarked = on (
    ("a", link "1" "a" "b" false ∷ [])
    ∷ ("b", link "2" "b" "c" false ∷ [])
    ∷ ("c", link "3" "c" "b" false ∷ [])
    ∷ [])

-- b and c form a cycle, but the only way to them is a marked edge.
abbrev hidden : WorkflowGraph ℕ ℕ ℕ
hidden = on (
    ("a", link "1" "a" "b" true ∷ [])
    ∷ ("b", link "2" "b" "c" false ∷ [])
    ∷ ("c", link "3" "c" "b" false ∷ [])
    ∷ [])

marked_is_fine : validate marked ≡ some (ok tt)
unfolding validate new_node sink_ids is_loopback_edge
marked_is_fine = refl

unmarked_is_found : validate unmarked ≡ some (err (cycle_found "c" "b"))
unfolding validate new_node sink_ids is_loopback_edge
unmarked_is_found = refl

-- The second walk does not follow the marked edge, so it misses this cycle, although the first walk
-- reached it.
hidden_is_missed : validate hidden ≡ some (ok tt)
unfolding validate new_node sink_ids is_loopback_edge
hidden_is_missed = refl

validate-IsValidated_example : IsValidated unmarked (validate unmarked)
validate-IsValidated_example = validate-IsValidated unmarked
