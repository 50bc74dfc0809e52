-- ===== src/Builder/Build.antt =====
-- `WorkflowBuilder::build` of crates/workflow/src/builder/workflow_builder.rs.
pub mod Registered
pub mod Refused
pub mod Ports
pub mod Index
pub mod Outcome
use Prim.Native.String.{◌++◌ as text_append}
use rust_agent_framework.Common.{
  String, Option, none, some, List, [], ◌∷◌, if◌then◌else◌, Map, contains_key, insert, update_entry,
  ◌>>=◌, ◌>>◌, AgentError, workflow_error, Result, ok, err,
}
use rust_agent_framework.Graph.{
  Node, RequestPort, WorkflowGraph, check_sinks, entry_not_registered, source_not_registered,
  validate,
}
use rust_agent_framework.Graph.Edges.{Edge, source_ids, sink_ids, insert_edge}
use rust_agent_framework.Builder.{WorkflowBuilder}

abbrev pub output_not_registered : String → AgentError
output_not_registered id = workflow_error (text_append (text_append "输出节点 '" id) "' 未注册")

abbrev pub start_not_set : AgentError
start_not_set = workflow_error "必须设置入口节点 (set_start)"

module _ {X : Type 0} where
  -- Steps 3 and 4: the ids that the edges and the outputs name.
  unfoldable pub check_ids : (String → AgentError) → Map (Node X) → List String → Result (Unit {0})
  unfolding contains_key
  check_ids error nodes [] = ok tt
  check_ids error nodes (s ∷ ss) =
      if contains_key nodes s then check_ids error nodes ss else err (error s)

module _ {X C V : Type 0} where
  unfoldable pub check_builder_edges : Map (Node X) → List (Edge C V) → Result (Unit {0})
  unfolding check_ids check_sinks
  check_builder_edges nodes [] = ok tt
  check_builder_edges nodes (e ∷ es) = do
    check_ids source_not_registered nodes (source_ids e)
    check_sinks nodes (sink_ids e)
    check_builder_edges nodes es

module _ {C V : Type 0} where
  -- Step 5: `edges_by_source`. An edge with several sources is put in the set of each.
  unfoldable pub index_edge : Edge C V → List String → Map (List (Edge C V)) → Map (List (Edge C V))
  unfolding update_entry insert_edge
  index_edge e [] index = index
  index_edge e (s ∷ ss) index = index_edge e ss (update_entry s [] (insert_edge e) index)

  unfoldable pub index_edges : List (Edge C V) → Map (List (Edge C V)) → Map (List (Edge C V))
  unfolding index_edge
  index_edges [] index = index
  index_edges (e ∷ es) index = index_edges es (index_edge e (source_ids e) index)

abbrev pub index_ports : List RequestPort → Map RequestPort → Map RequestPort
index_ports [] index = index
index_ports (p ∷ ps) index = index_ports ps (insert p.id p index)

module _ {X C V : Type 0} where
  unfoldable pub check_entry : WorkflowBuilder X C V → Result String
  unfolding contains_key
  check_entry b = elim b.start_node_id [
    | none ↦ err start_not_set
    | some id ↦ if contains_key b.nodes id then ok id else err (entry_not_registered id)
  ]

  unfoldable pub to_graph : WorkflowBuilder X C V → String → WorkflowGraph X C V
  unfolding index_edges insert
  to_graph b start = record {
    nodes = b.nodes;
    edges = index_edges b.edges [];
    ports = index_ports b.ports [];
    output_node_ids = b.output_node_ids;
    start_node_id = start;
  }

  -- The checks before the graph is made, in the order of the source.
  unfoldable pub check_builder : WorkflowBuilder X C V → Result String
  unfolding check_entry check_builder_edges
  check_builder b = do
    start ← check_entry b
    check_builder_edges b.nodes b.edges
    check_ids output_not_registered b.nodes b.output_node_ids
    ok start

  abbrev pub validated :
      WorkflowGraph X C V → Option (Result (Unit {0})) → Option (Result (WorkflowGraph X C V))
  validated g none = none
  validated g (some r) = some (r >> ok g)

  abbrev pub finish : WorkflowBuilder X C V → Result String → Option (Result (WorkflowGraph X C V))
  finish b (ok start) = let g = to_graph b start in validated g (validate g)
  finish b (err e) = some (err e)

  -- `build`; `none` stands for a walk without end; there is none (Build/Outcome).
  unfoldable pub build : WorkflowBuilder X C V → Option (Result (WorkflowGraph X C V))
  unfolding check_builder to_graph validate
  build b = finish b (check_builder b)
