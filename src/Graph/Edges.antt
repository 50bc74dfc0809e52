-- ===== src/Graph/Edges.antt =====
-- crates/workflow/src/graph/edge.rs: the edges of a workflow graph, and the set of edges that
-- leave a node. An `IEdgeCondition` and an `IFanOutAssigner` are trait objects, so functions.
use rust_agent_framework.Common.{
  String, Bool, false, Option, List, [], ◌∷◌, ◌++◌, ◌||◌, ◌==◌, if◌then◌else◌, Result,
}
use rust_agent_framework.Envelope.{Envelope}

module _ (C V : Type 0) where
  abbrev pub EdgeCondition : Type 0
  EdgeCondition = Envelope C V → Result Bool

  abbrev pub FanOutAssigner : Type 0
  FanOutAssigner = Envelope C V → List String

pub record DirectEdgeData (C V : Type 0) : Type 0 where
  pub edge_id : String
  pub source_id : String
  pub sink_id : String
  pub label : Option String
  pub condition : Option (EdgeCondition C V)
  pub is_loopback : Bool

pub record FanOutEdgeData (C V : Type 0) : Type 0 where
  pub edge_id : String
  pub source_id : String
  pub sink_ids : List String
  pub label : Option String
  pub assigner : Option (FanOutAssigner C V)

pub record FanInEdgeData : Type 0 where
  pub edge_id : String
  pub source_ids : List String
  pub sink_id : String
  pub label : Option String

pub data Edge (C V : Type 0) : Type 0 where
  direct : DirectEdgeData C V → Edge C V
  fan_out : FanOutEdgeData C V → Edge C V
  fan_in : FanInEdgeData → Edge C V

module _ {C V : Type 0} where
  unfoldable pub edge_id : Edge C V → String
  edge_id (direct d) = d.edge_id
  edge_id (fan_out d) = d.edge_id
  edge_id (fan_in d) = d.edge_id

  unfoldable pub source_ids : Edge C V → List String
  source_ids (direct d) = d.source_id ∷ []
  source_ids (fan_out d) = d.source_id ∷ []
  source_ids (fan_in d) = d.source_ids

  unfoldable pub sink_ids : Edge C V → List String
  sink_ids (direct d) = d.sink_id ∷ []
  sink_ids (fan_out d) = d.sink_ids
  sink_ids (fan_in d) = d.sink_id ∷ []

  -- `is_loopback_edge` of crates/workflow/src/graph/workflow_graph.rs
  unfoldable pub is_loopback_edge : Edge C V → Bool
  is_loopback_edge (direct d) = d.is_loopback
  is_loopback_edge (fan_out d) = false
  is_loopback_edge (fan_in d) = false

  -- `HashSet<Edge>`: two edges are equal if their ids are, and an equal edge is not replaced.
  abbrev pub has_edge : String → List (Edge C V) → Bool
  has_edge id [] = false
  has_edge id (e ∷ es) = edge_id e == id || has_edge id es

  unfoldable pub insert_edge : Edge C V → List (Edge C V) → List (Edge C V)
  insert_edge e es = if has_edge (edge_id e) es then es else es ++ e ∷ []
