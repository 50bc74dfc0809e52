-- ===== src/Process/Definition/Compile.antt =====
-- `ProcessDefinition::compile` of crates/workflow-pro/src/process/definition.rs.
pub mod Registered
pub mod Linked
pub mod Outcome
use Prim.Native.String.{◌++◌ as text_append}
use rust_agent_framework.Common.{
  ℕ, ◌*◌, String, Bool, true, false, ◌&&◌, not, ◌==◌, Option, none, some, List, [], ◌∷◌, ◌++◌, map,
  keep, any, find, if◌then◌else◌, mem, Map, update_entry, ◌>>=◌, AgentError, workflow_error, Result,
  ok, err,
}
use rust_agent_framework.Retry.{nanos_per_milli}
use rust_agent_framework.Graph.{WorkflowGraph}
use rust_agent_framework.Graph.Edges.{EdgeCondition}
use rust_agent_framework.Builder.{
  WorkflowBuilder, new_builder, add_node, with_retry, with_node_timeout, set_start,
  with_output_from,
}
use rust_agent_framework.Builder.Links.{add_edge, add_edge_with_condition}
use rust_agent_framework.Builder.Gateways.{
  exclusive_gateway as add_exclusive, parallel_gateway as add_parallel,
  inclusive_gateway as add_inclusive,
}
use rust_agent_framework.Builder.Build.{build}
use rust_agent_framework.Condition.{JsonView, VariableEdgeCondition, evaluate_variable_edge}
use rust_agent_framework.Process.Definition.{
  NodeKind, is_start, is_end, parallel_gateway, exclusive_gateway, inclusive_gateway,
  timer_boundary, error_boundary, retry_options, EdgeConditionDef, from_def, NodeDef, EdgeDef,
  BoundaryEventDef, ProcessDefinition, ProcessTaskExecutor, is_output, event_node_ids,
}

-- What the hash tables decide: which node `with_retry` and `with_node_timeout` reach after a node
-- was added, and the order of the sources.
pub record Tables (V : Type 0) : Type 0 where
  pub which : String → ℕ
  pub walk : Map (List (EdgeDef V)) → Map (List (EdgeDef V))

abbrev pub no_nodes : AgentError
no_nodes = workflow_error "Process definition has no nodes"

abbrev pub no_start : AgentError
no_start = workflow_error "Process definition has no Start node"

abbrev pub no_end : AgentError
no_end = workflow_error "Process definition has no End node"

abbrev pub unknown_kind : String → AgentError
unknown_kind kind =
    workflow_error (text_append (text_append "Unknown boundary event kind '" kind) "'")

-- The builder of a process.
abbrev pub Tasks : Type 0 → Type 0 → Type 0
Tasks C V = WorkflowBuilder ProcessTaskExecutor C V

module _ {C V : Type 0} where
  abbrev pub add_task : String → NodeKind → Tasks C V → Tasks C V
  add_task id kind b = add_node is_output id (record { node_id = id; kind = kind }) b

  -- The optional settings of a node.
  abbrev pub set_retry : (String → ℕ) → NodeDef → Tasks C V → Tasks C V
  set_retry which n b = elim n.retry [
    | none ↦ b
    | some def ↦ with_retry (which n.id) (retry_options def) b
  ]

  abbrev pub set_timeout : (String → ℕ) → NodeDef → Tasks C V → Tasks C V
  set_timeout which n b = elim n.timeout_ms [
    | none ↦ b
    | some ms ↦ with_node_timeout (which n.id) (ms * nanos_per_milli) b
  ]

  unfoldable pub add_nodes : (String → ℕ) → List String → List NodeDef → Tasks C V → Tasks C V
  unfolding add_node with_retry with_node_timeout retry_options
  add_nodes which boundary [] b = b
  add_nodes which boundary (n ∷ ns) b = add_nodes which boundary ns (
      if mem n.id boundary
      then b
      else set_timeout which n (set_retry which n (add_task n.id n.kind b)))

  unfoldable pub add_events : List BoundaryEventDef → Tasks C V → Result (Tasks C V)
  unfolding add_node
  add_events [] b = ok b
  add_events (ev ∷ evs) b =
      if ev.kind == "timer"
      then add_events evs (add_task ev.event_node_id timer_boundary b)
      else if ev.kind == "error"
      then add_events evs (add_task ev.event_node_id error_boundary b)
      else err (unknown_kind ev.kind)

abbrev pub kind_of : List NodeDef → String → Option NodeKind
kind_of nodes id = elim (find (λ (n : NodeDef). n.id == id) nodes) [
  | none ↦ none
  | some n ↦ some n.kind
]

module _ {V : Type 0} (null : V) where
  -- The condition of an edge, where it has one that can be made.
  abbrev pub condition_of : EdgeDef V → Option (VariableEdgeCondition V)
  condition_of e = elim e.condition [ none ↦ none | some def ↦ from_def null def ]

  -- The last edge without a condition.
  abbrev pub default_branch : Option String → List (EdgeDef V) → Option String
  default_branch found [] = found
  default_branch found (e ∷ es) =
      default_branch (elim (condition_of e) [ none ↦ some e.target | some c ↦ found ]) es

module _ {V : Type 0} where
  unfoldable pub group_edges : List (EdgeDef V) → Map (List (EdgeDef V)) → Map (List (EdgeDef V))
  unfolding update_entry
  group_edges [] groups = groups
  group_edges (e ∷ es) groups = group_edges es (update_entry e.source [] (λ l. l ++ e ∷ []) groups)

module _ {C V : Type 0} (view : JsonView V) where
  abbrev pub branches : List (EdgeDef V) → List (String × EdgeCondition C V)
  branches [] = []
  branches (e ∷ es) = elim (condition_of view.null e) [
    | none ↦ branches es
    | some c ↦ (e.target, evaluate_variable_edge view c) ∷ branches es
  ]

  abbrev pub add_plain : List (EdgeDef V) → Tasks C V → Tasks C V
  add_plain [] b = b
  add_plain (e ∷ es) b = add_plain es (elim (condition_of view.null e) [
    | none ↦ add_edge e.source e.target b
    | some c ↦ add_edge_with_condition e.source e.target (evaluate_variable_edge view c) b
  ])

  abbrev pub link_kind : Option NodeKind → String → List (EdgeDef V) → Tasks C V → Tasks C V
  link_kind (some exclusive_gateway) source es b =
      add_exclusive source (branches es) (default_branch view.null none es) b
  link_kind (some parallel_gateway) source es b =
      add_parallel source (map (λ (e : EdgeDef V). e.target) es) b
  link_kind (some inclusive_gateway) source es b = add_inclusive source (branches es) b
  link_kind _ source es b = add_plain es b

  unfoldable pub link_sources : List NodeDef → Map (List (EdgeDef V)) → Tasks C V → Tasks C V
  unfolding add_edge add_edge_with_condition add_exclusive add_parallel add_inclusive from_def
  link_sources nodes [] b = b
  link_sources nodes ((source, es) ∷ rest) b =
      link_sources nodes rest (link_kind (kind_of nodes source) source es b)

module _ {C V : Type 0} where
  unfoldable pub link_events : List (EdgeDef V) → List BoundaryEventDef → Tasks C V → Tasks C V
  unfolding add_edge
  link_events edges [] b = b
  link_events edges (ev ∷ evs) b = link_events edges evs (
      if any (λ (e : EdgeDef V). e.source == ev.attached_to && e.target == ev.event_node_id) edges
      then b
      else add_edge ev.attached_to ev.event_node_id b)

  unfoldable pub add_outputs : List NodeDef → Tasks C V → Tasks C V
  unfolding with_output_from
  add_outputs [] b = b
  add_outputs (n ∷ ns) b = add_outputs ns (with_output_from n.id b)

module _ {C V : Type 0} (view : JsonView V) (tables : Tables V) where
  -- What `compile` has built when it calls `build`.
  unfoldable pub compile_builder : ProcessDefinition V → Result (Tasks C V)
  unfolding add_nodes add_events group_edges link_sources link_events add_outputs set_start
  compile_builder d = elim d.nodes [
    | [] ↦ err no_nodes
    | first ∷ rest ↦ elim (find (λ (n : NodeDef). is_start n.kind) (first ∷ rest)) [
      | none ↦ err no_start
      | some start ↦ elim (keep (λ (n : NodeDef). is_end n.kind) (first ∷ rest)) [
        | [] ↦ err no_end
        | end ∷ ends ↦
            add_events d.events (
              add_nodes tables.which (event_node_ids d.events) (first ∷ rest)
                (new_builder ProcessTaskExecutor C V))
            >>= λ b. ok (
                add_outputs (end ∷ ends) (
                  set_start start.id (
                    link_events d.edges d.events
                      (link_sources view (first ∷ rest) (tables.walk (group_edges d.edges [])) b))))
      ]
    ]
  ]

  unfoldable pub compile :
      ProcessDefinition V → Option (Result (WorkflowGraph ProcessTaskExecutor C V))
  unfolding compile_builder build
  compile d = elim (compile_builder d) [ err e ↦ some (err e) | ok b ↦ build b ]
