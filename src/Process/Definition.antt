-- ===== src/Process/Definition.antt =====
-- crates/workflow-pro/src/process/definition.rs: the definition of a process and the types in it.
-- A process compiles by the methods of the workflow builder (Process/Definition/Compile).
pub mod Compile
mod Samples
use Prim.Native.String.{◌++◌ as text_append}
use rust_agent_framework.Common.{
  ℕ, ◌*◌, ◌%◌, max, String, Bool, true, false, ◌||◌, ◌==◌, Option, none, some, List, [], ◌∷◌, map,
  if◌then◌else◌, nat_eq, any, mem, or_default, ◌>>=◌, ◌>>◌, AgentError, workflow_error, Result, ok,
  err,
}
use rust_agent_framework.Envelope.{Envelope}
use rust_agent_framework.Retry.{
  RetryOptions, no_wait, exponential, all_errors, fail, u64_mod, nanos_per_milli,
}
use rust_agent_framework.Condition.{
  ComparisonOp, eq, neq, gt, gte, lt, lte, contains, starts, VariableEdgeCondition,
  variable_edge_condition,
}
use rust_agent_framework.Process.{VariableDef}

pub data NodeKind : Type 0 where
  start_node end_node service_task user_task script_task send_task receive_task business_rule_task
        call_activity none_task parallel_gateway exclusive_gateway inclusive_gateway
        event_based_gateway timer_boundary error_boundary :
      NodeKind

abbrev pub is_start : NodeKind → Bool
is_start start_node = true
is_start _ = false

abbrev pub is_end : NodeKind → Bool
is_end end_node = true
is_end _ = false

abbrev pub is_gateway : NodeKind → Bool
is_gateway parallel_gateway = true
is_gateway exclusive_gateway = true
is_gateway inclusive_gateway = true
is_gateway event_based_gateway = true
is_gateway _ = false

abbrev pub is_boundary_event : NodeKind → Bool
is_boundary_event timer_boundary = true
is_boundary_event error_boundary = true
is_boundary_event _ = false

pub record RetryDef : Type 0 where
  pub max_retries : ℕ  -- u32
  pub backoff_ms : ℕ  -- u64
  pub max_backoff_ms : ℕ  -- u64

-- `RetryOptions::from`; ten times the wait may wrap.
unfoldable pub retry_options : RetryDef → RetryOptions
retry_options def = record {
  max_retries = def.max_retries;
  backoff =
      if nat_eq def.backoff_ms 0
      then no_wait
      else exponential (def.backoff_ms * nanos_per_milli)
          (max def.max_backoff_ms (def.backoff_ms * 10 % u64_mod) * nanos_per_milli);
  retry_on = all_errors;
  on_exhausted = fail;
}

pub record EdgeConditionDef (V : Type 0) : Type 0 where
  pub condition_type : String
  pub expression : Option String
  pub variable : Option String
  pub operator : Option String
  pub expected : Option V

abbrev pub op_of : String → Option ComparisonOp
op_of op =
    if op == "eq" || op == "=="
    then some eq
    else if op == "neq" || op == "!="
    then some neq
    else if op == "gt" || op == ">"
    then some gt
    else if op == "gte" || op == ">="
    then some gte
    else if op == "lt" || op == "<"
    then some lt
    else if op == "lte" || op == "<="
    then some lte
    else if op == "contains"
    then some contains
    else if op == "starts_with"
    then some starts
    else none

abbrev pub comparison_op : {V : Type 0} → EdgeConditionDef V → Option ComparisonOp
comparison_op def = elim def.operator [ none ↦ none | some op ↦ op_of op ]

-- `DefinedEdgeCondition::from_def`. The type has the fields of `VariableEdgeCondition`, and its
-- `evaluate` is the same code again.
unfoldable pub from_def : {V : Type 0} → V → EdgeConditionDef V → Option (VariableEdgeCondition V)
from_def null def = elim def.variable [
  | none ↦ none
  | some variable ↦ elim (comparison_op def) [
    | none ↦ none
    | some op ↦ some (variable_edge_condition variable op (or_default null def.expected))
  ]
]

pub record NodeDef : Type 0 where
  pub id : String
  pub kind : NodeKind
  pub retry : Option RetryDef
  pub timeout_ms : Option ℕ

pub record EdgeDef (V : Type 0) : Type 0 where
  pub id : String
  pub source : String
  pub target : String
  pub condition : Option (EdgeConditionDef V)

pub record BoundaryEventDef : Type 0 where
  pub attached_to : String
  pub event_node_id : String
  pub kind : String

-- Labels, descriptions, the JSON configuration of a node and the timers take no part in what is
-- modelled and are left out of the records.
pub record ProcessDefinition (V : Type 0) : Type 0 where
  pub id : String
  pub nodes : List NodeDef
  pub edges : List (EdgeDef V)
  pub variables : List (VariableDef V)
  pub events : List BoundaryEventDef

-- `ProcessTaskExecutor`; its `handle` passes the message on.
pub record ProcessTaskExecutor : Type 0 where
  pub node_id : String
  pub kind : NodeKind

abbrev pub is_output : ProcessTaskExecutor → Bool
is_output executor = is_end executor.kind

abbrev pub node_ids : List NodeDef → List String
node_ids nodes = map (λ (n : NodeDef). n.id) nodes

abbrev pub event_node_ids : List BoundaryEventDef → List String
event_node_ids events = map (λ (e : BoundaryEventDef). e.event_node_id) events

module _ {V : Type 0} where
  abbrev pub unknown_end : String → EdgeDef V → String → AgentError
  unknown_end what e id = workflow_error (
      text_append "Edge '" (
        text_append e.id (
          text_append "' references unknown "
            (text_append what (text_append " node '" (text_append id "'"))))))

  -- `all_ids` is the union of two sets.
  unfoldable pub validate_edges : List String → List String → List (EdgeDef V) → Result (Unit {0})
  validate_edges ids event_ids [] = ok tt
  validate_edges ids event_ids (e ∷ es) =
      if mem e.source ids || mem e.source event_ids
      then (if mem e.target ids || mem e.target event_ids
          then validate_edges ids event_ids es
          else err (unknown_end "target" e e.target))
      else err (unknown_end "source" e e.source)

abbrev pub unknown_node : BoundaryEventDef → AgentError
unknown_node ev = workflow_error (
    text_append "Boundary event '" (
      text_append ev.event_node_id
        (text_append "' references unknown node '" (text_append ev.attached_to "'"))))

unfoldable pub validate_events : List String → List BoundaryEventDef → Result (Unit {0})
validate_events ids [] = ok tt
validate_events ids (ev ∷ evs) =
    if mem ev.attached_to ids then validate_events ids evs else err (unknown_node ev)

unfoldable pub validate : {V : Type 0} → ProcessDefinition V → Result (Unit {0})
unfolding validate_edges validate_events
validate d = elim d.nodes [
  | [] ↦ err (workflow_error "Process definition must have at least one node")
  | first ∷ rest ↦
      if any (λ (n : NodeDef). is_start n.kind) (first ∷ rest)
      then (if any (λ (n : NodeDef). is_end n.kind) (first ∷ rest)
          then (validate_edges (node_ids (first ∷ rest)) (event_node_ids d.events) d.edges
              >> validate_events (node_ids (first ∷ rest)) d.events)
          else err (workflow_error "Process definition must have at least one End node"))
      else err (workflow_error "Process definition must have a Start node")
]
