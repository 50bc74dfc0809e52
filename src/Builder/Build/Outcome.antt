-- ===== src/Builder/Build/Outcome.antt =====
-- What `build` returns (crates/workflow/src/builder/workflow_builder.rs).
use rust_agent_framework.Common.{
  String, true, Option, some, List, [], ◌∷◌, All, All-at, Elem, Map, get, contains_key, ◌≡◌, ◌⊎◌,
  refl, sym, subst, ap, ◌∙◌, inl, inr, Result, ok, err, ◌>>◌, err≢ok, guard_iff, >>_iff,
}
use rust_agent_framework.Graph.{
  Node, check_sinks, check_edges, check_index, check_start, WorkflowGraph, cycle_found,
  entry_not_registered, source_not_registered,
}
use rust_agent_framework.Graph.Edges.{Edge, source_ids, sink_ids}
use rust_agent_framework.Graph.Cycles.{IsCycle}
use rust_agent_framework.Graph.Verdict.{IsAcyclic, validate-Searched}
use rust_agent_framework.Builder.{WorkflowBuilder}
use rust_agent_framework.Builder.Build.{index_edges, to_graph, validated, finish, build}
use rust_agent_framework.Builder.Build.Registered.{
  check_sinks_iff, IsJoined, IsRegistered, check_builder_iff,
}
use rust_agent_framework.Builder.Build.Ports.{last_port, get-index_ports}
use rust_agent_framework.Builder.Build.Index.{
  IsIndex, index_edges-IsIndex, AllEntries, index_edges-AllEntries,
}

module _ {X C V : Type 0} where
  check_edges_ok :
      (nodes : Map (Node X)) (all es : List (Edge C V)) (s : String)
      → All (IsJoined nodes) all
      → All (λ e. Elem e all × Elem s (source_ids e)) es
      → check_edges nodes es ≡ ok tt
  unfolding check_edges
  check_edges_ok nodes all [] s joined h = refl
  check_edges_ok nodes all (e ∷ es) s joined h =
      (>>_iff (check_sinks nodes (sink_ids e)) (check_edges nodes es) tt).1 (
        (check_sinks_iff nodes (sink_ids e)).1 (All-at (IsJoined nodes) all joined h.0.0).1,
        check_edges_ok nodes all es s joined h.1,
      )

  check_index_ok :
      (nodes : Map (Node X)) (all : List (Edge C V)) (index : Map (List (Edge C V)))
      → All (IsJoined nodes) all
      → AllEntries (λ s. contains_key nodes s ≡ true) all index
      → check_index nodes index ≡ ok tt
  unfolding check_index
  check_index_ok nodes all [] joined h = refl
  check_index_ok nodes all ((s, es) ∷ index) joined h =
      (guard_iff (contains_key nodes s) (check_edges nodes es >> check_index nodes index)
          (source_not_registered s) tt).1
        (
          h.0.0,
          (>>_iff (check_edges nodes es) (check_index nodes index) tt).1 (
            check_edges_ok nodes all es s joined h.0.1,
            check_index_ok nodes all index joined h.1,
          ),
        )

  checks_ok :
      (b : WorkflowBuilder X C V) (start : String)
      → IsRegistered b start
      → (check_start (to_graph b start)
          >> check_index (to_graph b start).nodes (to_graph b start).edges)
        ≡ ok tt
  unfolding to_graph check_start
  checks_ok b start (set, known, joined, outputs) =
      (>>_iff (check_start (to_graph b start)) (check_index b.nodes (index_edges b.edges [])) tt).1
        (
          (guard_iff (contains_key b.nodes start) (ok tt) (entry_not_registered start) tt).1
              (known, refl),
          check_index_ok b.nodes b.edges (index_edges b.edges []) joined (
              index_edges-AllEntries (λ s. contains_key b.nodes s ≡ true) b.edges b.edges []
                (λ e m. m)
                (λ e s m n.
                  All-at (λ x. contains_key b.nodes x ≡ true) (source_ids e)
                    (All-at (IsJoined b.nodes) b.edges joined m).0 n)
                tt),
        )

  -- The graph of a builder: its nodes, outputs, ports and start, and an index of its edges.
  pub record IsGraph (b : WorkflowBuilder X C V) (start : String) (g : WorkflowGraph X C V)
      : Type 0 where
    pub same_nodes : g.nodes ≡ b.nodes
    pub same_outputs : g.output_node_ids ≡ b.output_node_ids
    pub same_start : g.start_node_id ≡ start
    pub indexed : IsIndex b.edges g.edges
    pub last_ports : (id : String) → get g.ports id ≡ last_port b.ports id

  to_graph-IsGraph :
      (b : WorkflowBuilder X C V) (start : String) → IsGraph b start (to_graph b start)
  unfolding to_graph
  to_graph-IsGraph b start = record {
    same_nodes = refl;
    same_outputs = refl;
    same_start = refl;
    indexed = index_edges-IsIndex b.edges;
    last_ports = λ id. get-index_ports b.ports [] id refl;
  }

  -- What is left once the ids are registered.
  abbrev pub IsBuilt :
      WorkflowBuilder X C V → String → Option (Result (WorkflowGraph X C V)) → Type 0
  IsBuilt b start r =
      let g = to_graph b start in
      IsGraph b start g
      × (((r ≡ some (ok g)) × IsAcyclic g.edges start)
          ⊎ ((source : String) × (sink : String) × (r ≡ some (err (cycle_found source sink)))
              × IsCycle g.edges source sink))

  finish-IsBuilt :
      (b : WorkflowBuilder X C V) (start : String)
      → IsRegistered b start
      → IsBuilt b start (finish b (ok start))
  unfolding to_graph
  finish-IsBuilt b start registered = (
    to_graph-IsGraph b start,
    let g = to_graph b start in
        elim (validate-Searched g) [
          | inl (e, missing, h) ↦ absurd (err≢ok (sym missing ∙ checks_ok b start registered))
          | inr (checked, inl (fine, acyclic)) ↦ inl (ap (validated g) fine, acyclic)
          | inr (checked, inr (source, sink, found, back)) ↦
              inr (source, sink, ap (validated g) found, back)
        ],
  )

  -- With a start and every id registered, the checks before the graph is made pass.
  pub build_registered-IsBuilt :
      (b : WorkflowBuilder X C V) (start : String)
      → IsRegistered b start
      → IsBuilt b start (build b)
  unfolding build
  build_registered-IsBuilt b start registered =
      subst (λ r. IsBuilt b start (finish b r)) (sym ((check_builder_iff b start).1 registered))
        (finish-IsBuilt b start registered)
