-- ===== src/Graph.antt =====
-- crates/workflow/src/graph/node.rs and workflow_graph.rs: nodes, the frozen graph, and
-- `validate` with its breadth-first and depth-first walks. An executor is a value of the type
-- `X`. Hash tables are association lists, walked in the order of the list.
pub mod Edges
pub mod Parts
pub mod Walks
pub mod Reachable
pub mod Cycles
pub mod Acyclic
pub mod Verdict
pub mod Registered
mod Samples
use rust_agent_framework.Common.{
  ℕ, zero, suc, ◌+◌, String, Bool, true, false, not, Option, none, some, List, [], ◌∷◌, ◌++◌, map,
  if◌then◌else◌, ◌==◌, mem, length, Map, get, insert, contains_key, or_default, ◌>>=◌, ◌>>◌,
  AgentError, workflow_error, Result, ok, err,
}
use rust_agent_framework.Envelope.{TypeTag}
use rust_agent_framework.Retry.{RetryOptions}
use Prim.Native.String.{◌++◌ as text_append}
use Edges.{Edge, sink_ids, is_loopback_edge}

pub record LoopOptions : Type 0 where
  pub max_iterations : ℕ  -- 0: no limit
  pub loop_variable : Option String

pub record Node (X : Type 0) : Type 0 where
  pub id : String
  pub executor : X
  pub is_output : Bool
  pub retry : Option RetryOptions
  pub timeout : Option ℕ
  pub loop_options : Option LoopOptions

unfoldable pub new_node : {X : Type 0} → String → X → Node X
new_node id executor = record {
  id = id;
  executor = executor;
  is_output = false;
  retry = none;
  timeout = none;
  loop_options = none;
}

-- crates/workflow/src/graph/port.rs
pub record RequestPort : Type 0 where
  pub id : String
  pub request_type : TypeTag
  pub response_type : TypeTag
  pub target_node_id : String

pub record WorkflowGraph (X C V : Type 0) : Type 0 where
  pub nodes : Map (Node X)
  pub edges : Map (List (Edge C V))
  pub ports : Map RequestPort
  pub output_node_ids : List String
  pub start_node_id : String

pub data Color : Type 0 where
  white gray black : Color

-- How a depth-first walk ends: with the colours, at a cycle, or (in the model only) out of fuel.
pub data Walk : Type 0 where
  done : Map Color → Walk
  cycle : (source sink : String) → Walk
  stuck : Walk

abbrev pub and_then : Walk → (Map Color → Walk) → Walk
and_then (done colors) f = f colors
and_then (cycle a b) f = cycle a b
and_then stuck f = stuck

-- `!visited.contains(sink)`: insert and push.
unfoldable pub push_new : List String → List String × List String → List String × List String
push_new [] (visited, queue) = (visited, queue)
push_new (s ∷ ss) (visited, queue) =
    push_new ss (if mem s visited then (visited, queue) else (visited ++ s ∷ [], queue ++ s ∷ []))

-- The inner loop of `dfs`, with the recursive call as an argument.
unfoldable pub scan_sinks : (String → Map Color → Walk) → String → List String → Map Color → Walk
scan_sinks visit node [] colors = done colors
scan_sinks visit node (sink ∷ sinks) colors = elim (get colors sink) [
  | none ↦ scan_sinks visit node sinks colors
  | some gray ↦ cycle node sink
  | some white ↦ and_then (visit sink colors) (scan_sinks visit node sinks)
  | some black ↦ scan_sinks visit node sinks colors
]

-- Each reachable node starts white.
abbrev pub all_white : List String → Map Color
all_white [] = []
all_white (id ∷ ids) = (id, white) ∷ all_white ids

module _ {C V : Type 0} where
  -- The sinks that a node's edges lead to, in the order of the nested `for` loops.
  abbrev pub all_sinks : List (Edge C V) → List String
  all_sinks [] = []
  all_sinks (e ∷ es) = sink_ids e ++ all_sinks es

  abbrev pub edges_from : Map (List (Edge C V)) → String → List (Edge C V)
  edges_from edges node = or_default [] (get edges node)

  -- The `while let Some(current) = queue.pop_front()` loop of `validate`. `none`: no fuel.
  unfoldable pub bfs : Map (List (Edge C V)) → ℕ → List String × List String → Option (List String)
  unfolding push_new
  bfs edges fuel (visited, []) = some visited
  bfs edges zero (visited, current ∷ queue) = none
  bfs edges (suc fuel) (visited, current ∷ queue) =
      bfs edges fuel (push_new (all_sinks (edges_from edges current)) (visited, queue))

  unfoldable pub scan_edges :
      (String → Map Color → Walk) → String → List (Edge C V) → Map Color → Walk
  unfolding scan_sinks
  scan_edges visit node [] colors = done colors
  scan_edges visit node (e ∷ es) colors = elim (is_loopback_edge e) [
    | true ↦ scan_edges visit node es colors
    | false ↦ and_then (scan_sinks visit node (sink_ids e) colors) (scan_edges visit node es)
  ]

  unfoldable pub dfs : Map (List (Edge C V)) → ℕ → String → Map Color → Walk
  unfolding scan_edges insert
  dfs edges zero node colors = stuck
  dfs edges (suc fuel) node colors =
      and_then (scan_edges (dfs edges fuel) node (edges_from edges node) (insert node gray colors))
        (λ after. done (insert node black after))

  -- `detect_cycles`. A node is entered only while it is white, so one more than the number of
  -- nodes is fuel enough.
  unfoldable pub detect_cycles : Map (List (Edge C V)) → String → List String → Walk
  unfolding dfs
  detect_cycles edges start reachable =
      dfs edges (suc (length reachable)) start (all_white reachable)

-- The errors of `validate` and of the builder.
abbrev pub entry_not_registered : String → AgentError
entry_not_registered id = workflow_error (text_append (text_append "入口节点 '" id) "' 未注册")

abbrev pub source_not_registered : String → AgentError
source_not_registered id = workflow_error (text_append (text_append "边源节点 '" id) "' 未注册")

abbrev pub sink_not_registered : String → AgentError
sink_not_registered id = workflow_error (text_append (text_append "边目标节点 '" id) "' 未注册")

abbrev pub cycle_found : String → String → AgentError
cycle_found source sink = workflow_error (
    text_append (text_append (text_append (text_append "检测到循环: '" source) "' -> '") sink)
      "'。如需循环，请使用 add_loopback_edge() 或标记 is_loopback=true")

-- `none` stands for a walk without end; there is none (Graph/Verdict).
abbrev pub cycle_result : Walk → Option (Result (Unit {0}))
cycle_result (done colors) = some (ok tt)
cycle_result (cycle source sink) = some (err (cycle_found source sink))
cycle_result stuck = none

module _ {C V : Type 0} where
  abbrev pub index_sinks : Map (List (Edge C V)) → List String
  index_sinks [] = []
  index_sinks ((source, es) ∷ rest) = all_sinks es ++ index_sinks rest

module _ {X : Type 0} where
  -- Steps 1 and 2 of `validate`: every id that an edge names is registered.
  unfoldable pub check_sinks : Map (Node X) → List String → Result (Unit {0})
  unfolding contains_key
  check_sinks nodes [] = ok tt
  check_sinks nodes (s ∷ ss) =
      if contains_key nodes s then check_sinks nodes ss else err (sink_not_registered s)

module _ {X C V : Type 0} where
  unfoldable pub check_edges : Map (Node X) → List (Edge C V) → Result (Unit {0})
  unfolding check_sinks
  check_edges nodes [] = ok tt
  check_edges nodes (e ∷ es) = check_sinks nodes (sink_ids e) >> check_edges nodes es

  unfoldable pub check_index : Map (Node X) → Map (List (Edge C V)) → Result (Unit {0})
  unfolding check_edges contains_key
  check_index nodes [] = ok tt
  check_index nodes ((source, es) ∷ rest) =
      if contains_key nodes source
      then check_edges nodes es >> check_index nodes rest
      else err (source_not_registered source)

  unfoldable pub check_start : WorkflowGraph X C V → Result (Unit {0})
  unfolding contains_key
  check_start g =
      if contains_key g.nodes g.start_node_id
      then ok tt
      else err (entry_not_registered g.start_node_id)

  -- Every id is queued once, so one more than the number of sinks is fuel enough for the walk.
  unfoldable pub reachable : WorkflowGraph X C V → Option (List String)
  unfolding bfs
  reachable g =
      bfs g.edges (suc (length (index_sinks g.edges))) (g.start_node_id ∷ [], g.start_node_id ∷ [])

  -- `validate`: the ids first, then the cycles among the nodes that the first walk reached.
  abbrev pub walk_result : WorkflowGraph X C V → Option (List String) → Option (Result (Unit {0}))
  walk_result g none = none
  walk_result g (some ids) = cycle_result (detect_cycles g.edges g.start_node_id ids)

  abbrev pub after_checks : WorkflowGraph X C V → Result (Unit {0}) → Option (Result (Unit {0}))
  after_checks g (ok _) = walk_result g (reachable g)
  after_checks g (err e) = some (err e)

  unfoldable pub validate : WorkflowGraph X C V → Option (Result (Unit {0}))
  unfolding check_start check_index reachable detect_cycles
  validate g = after_checks g (check_start g >> check_index g.nodes g.edges)
