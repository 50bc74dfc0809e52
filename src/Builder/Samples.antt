-- ===== src/Builder/Samples.antt =====
-- Small builders, and what becomes of them.
use rust_agent_framework.Common.{
  ℕ, true, false, none, some, List, [], ◌∷◌, ◌++◌, Map, contains_key, ◌≡◌, ok,
}
use rust_agent_framework.Envelope.{Envelope}
use rust_agent_framework.Graph.{edges_from}
use rust_agent_framework.Graph.Edges.{Edge, EdgeCondition, source_ids, sink_ids}
use rust_agent_framework.Runner.{create_edge_runner, chase, deliver_to}
use rust_agent_framework.Builder.Links.{add_edge, add_fan_in_edge}
use rust_agent_framework.Builder.{
  WorkflowBuilder, new_builder, add_node, set_start, with_output_from, xor_id,
}
use rust_agent_framework.Builder.Gateways.{branch_edges, exclusive_gateway}
use rust_agent_framework.Builder.Gateways.Exclusive.{
  exclusive_gateway-default, exclusive_gateway-collides,
}
use rust_agent_framework.Builder.Build.{index_edges}

abbrev sample : WorkflowBuilder ℕ ℕ ℕ
sample = with_output_from "b" (
    set_start "a" (
      add_edge "a" "b"
        (add_node (λ x. false) "b" 1 (add_node (λ x. false) "a" 0 (new_builder ℕ ℕ ℕ)))))

-- The same with an edge to a node that was never added.
abbrev dangling : WorkflowBuilder ℕ ℕ ℕ
dangling = add_edge "b" "c" sample

abbrev always : EdgeCondition ℕ ℕ
always env = ok true

exclusive_gateway-default_example :
    (e : Edge ℕ ℕ) × ((exclusive_gateway "a" (("b", always) ∷ []) (some "c") sample).edges
      ≡ sample.edges
        ++ branch_edges xor_id "exclusive_gateway" "a" 1 (("b", always) ∷ [])
        ++ e ∷ [])
    × (source_ids e ≡ "a" ∷ [])
    × ((nodes : Map ℕ) (env : Envelope ℕ ℕ)
        → contains_key nodes "c" ≡ true
        → (chase nodes (create_edge_runner e) env).0 ≡ ok (deliver_to env "c" ∷ []))
unfolding add_edge add_node set_start with_output_from
exclusive_gateway-default_example = exclusive_gateway-default "a" "c" (("b", always) ∷ []) sample

exclusive_gateway-collides_example :
    let first = exclusive_gateway "a" (("b", always) ∷ ("c", always) ∷ []) none sample in
    let second = exclusive_gateway "a" (("d", always) ∷ []) none first in
    (lost : Edge ℕ ℕ) × (second.edges ≡ first.edges ++ lost ∷ [])
    × (sink_ids lost ≡ "d" ∷ [])
    × ((index : Map (List (Edge ℕ ℕ)))
        → edges_from (index_edges second.edges index) "a"
          ≡ edges_from (index_edges first.edges index) "a")
exclusive_gateway-collides_example =
    exclusive_gateway-collides "a" "b" "c" "d" always always always sample

abbrev joining : WorkflowBuilder ℕ ℕ ℕ
joining = add_fan_in_edge ("a" ∷ "b" ∷ []) "b" sample
