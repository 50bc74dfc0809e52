-- ===== src/Builder/Gateways/Exclusive.antt =====
-- Exclusive gateways: the default edge, and the ids of the edges of two gateways
-- (crates/workflow/src/builder/workflow_builder.rs and crates/workflow/src/engine/edge_runner.rs).
use rust_agent_framework.Common.{
  ◌%◌, ◌^◌, ◌+◌, String, true, none, some, List, [], ◌∷◌, ◌++◌, Elem, here, there,
  Elem-append_right, Map, contains_key, get-update_entry, ◌≡◌, refl, eq_refl, ok,
}
use rust_agent_framework.Envelope.{Envelope}
use rust_agent_framework.Graph.{edges_from}
use rust_agent_framework.Graph.Edges.{
  Edge, edge_id, sink_ids, source_ids, EdgeCondition, has_edge, insert_edge,
}
use rust_agent_framework.Runner.{create_edge_runner, chase, deliver_to}
use rust_agent_framework.Builder.{WorkflowBuilder, xor_id}
use rust_agent_framework.Builder.Gateways.{conditional_edge, branch_edges, exclusive_gateway}
use rust_agent_framework.Builder.Build.{index_edge, index_edges}
use rust_agent_framework.Builder.Build.Index.{index_edges-lists}

module _ {X Y C V : Type 0} where
  -- The default branch of an exclusive gateway is the last edge that it adds, and that edge takes
  -- every message: whatever the conditions of the branches say, a message goes to the default
  -- target too, provided that it is registered.
  pub exclusive_gateway-default :
      (source target : String) (branches : List (String × EdgeCondition C V))
      (b : WorkflowBuilder X C V)
      → (e : Edge C V) × ((exclusive_gateway source branches (some target) b).edges
          ≡ b.edges
            ++ branch_edges xor_id "exclusive_gateway" source b.edge_count branches
            ++ e ∷ [])
        × (source_ids e ≡ source ∷ [])
        × ((nodes : Map Y) (env : Envelope C V)
            → contains_key nodes target ≡ true
            → (chase nodes (create_edge_runner e) env).0 ≡ ok (deliver_to env target ∷ []))
  unfolding exclusive_gateway chase create_edge_runner source_ids
  exclusive_gateway-default source target branches b = (_, refl, refl, λ nodes env known. rw known)

module _ {C V : Type 0} where
  index_edges-append :
      (es fs : List (Edge C V)) (index : Map (List (Edge C V)))
      → index_edges (es ++ fs) index ≡ index_edges fs (index_edges es index)
  unfolding index_edges
  index_edges-append [] fs index = refl
  index_edges-append (e ∷ es) fs index =
      index_edges-append es fs (index_edge e (source_ids e) index)

  -- An edge whose id its source already has leaves the source's set as it was.
  index_edges-duplicate :
      (es : List (Edge C V)) (e f : Edge C V) (source : String) (index : Map (List (Edge C V)))
      → Elem e es
      → Elem source (source_ids e)
      → source_ids f ≡ source ∷ []
      → edge_id e ≡ edge_id f
      → edges_from (index_edges (es ++ f ∷ []) index) source
        ≡ edges_from (index_edges es index) source
  unfolding index_edges index_edge insert_edge
  index_edges-duplicate es e f source index m n one same =
      let before = index_edges es index in
      let there_is : has_edge (edge_id f) (edges_from before source) ≡ true =
        rw (← same) (index_edges-lists es index e source m n) in
      rw (
        index_edges-append es (f ∷ []) index,
        index_edges,
        one,
        index_edge,
        get-update_entry source source [] (insert_edge f) before,
        eq_refl source,
        insert_edge,
        there_is,
      )

module _ {X C V : Type 0} where
  -- After a gateway with two branches, another gateway of the same node with one branch gives that
  -- branch the id of the second one, and `build` leaves its edge out of the node's set.
  pub exclusive_gateway-collides :
      (source t1 t2 t3 : String) (c1 c2 c3 : EdgeCondition C V) (b : WorkflowBuilder X C V)
      → let first = exclusive_gateway source ((t1, c1) ∷ (t2, c2) ∷ []) none b in
        let second = exclusive_gateway source ((t3, c3) ∷ []) none first in
        (lost : Edge C V) × (second.edges ≡ first.edges ++ lost ∷ [])
        × (sink_ids lost ≡ t3 ∷ [])
        × ((index : Map (List (Edge C V)))
            → edges_from (index_edges second.edges index) source
              ≡ edges_from (index_edges first.edges index) source)
  unfolding exclusive_gateway source_ids sink_ids edge_id
  exclusive_gateway-collides source t1 t2 t3 c1 c2 c3 b =
      let n = b.edge_count in
      let chosen = conditional_edge "exclusive_gateway" source (xor_id ((n + 1) % 2 ^ 64)) t2 c2 in
      let lost = conditional_edge "exclusive_gateway" source (xor_id ((n + 1) % 2 ^ 64)) t3 c3 in
      let earlier =
        b.edges ++ branch_edges xor_id "exclusive_gateway" source n ((t1, c1) ∷ (t2, c2) ∷ []) in
      (
        lost,
        refl,
        refl,
        λ index.
            index_edges-duplicate earlier chosen lost source index
              (Elem-append_right b.edges (there (here refl))) (here refl) refl refl,
      )
