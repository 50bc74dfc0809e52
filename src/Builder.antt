-- ===== src/Builder.antt =====
-- crates/workflow/src/builder/workflow_builder.rs: `WorkflowBuilder` and `build`. A method that
-- takes and returns `self` is a function from builder to builder.
pub mod Links
pub mod Gateways
pub mod Build
mod Samples
use Prim.Native.String.{◌++◌ as text_append}
use rust_agent_framework.Common.{
  ◌^◌, ℕ, zero, suc, ◌+◌, ◌/◌, ◌%◌, String, Bool, true, false, Option, none, some, List, [], ◌∷◌,
  ◌++◌, map, if◌then◌else◌, mem, length, get_elem?, nat_eq, Map, get, insert, contains_key,
  or_default, update_entry, ◌>>=◌, ◌>>◌, AgentError, workflow_error, Result, ok, err,
}
use rust_agent_framework.Envelope.{Envelope}
use rust_agent_framework.Retry.{RetryOptions}
use rust_agent_framework.Graph.{
  LoopOptions, Node, new_node, RequestPort, WorkflowGraph, check_sinks, entry_not_registered,
  source_not_registered, validate,
}
use rust_agent_framework.Graph.Edges.{
  Edge, direct, fan_out, fan_in, EdgeCondition, FanOutAssigner, source_ids, sink_ids, insert_edge,
}

-- `format!("{}", n)` of an integer: its decimal digits. A number has fewer digits than it counts.
abbrev digit : ℕ → String
digit zero = "0"
digit (suc zero) = "1"
digit (suc (suc zero)) = "2"
digit (suc (suc (suc zero))) = "3"
digit (suc (suc (suc (suc zero)))) = "4"
digit (suc (suc (suc (suc (suc zero))))) = "5"
digit (suc (suc (suc (suc (suc (suc zero)))))) = "6"
digit (suc (suc (suc (suc (suc (suc (suc zero))))))) = "7"
digit (suc (suc (suc (suc (suc (suc (suc (suc zero)))))))) = "8"
digit n = "9"

decimal_digits : ℕ → ℕ → String
decimal_digits zero n = digit (n % 10)
decimal_digits (suc fuel) n =
    let front = decimal_digits fuel (n / 10) in
    if nat_eq (n / 10) 0 then digit n else text_append front (digit (n % 10))

unfoldable pub decimal : ℕ → String
unfolding decimal_digits
decimal n = decimal_digits 20 n

pub record WorkflowBuilder (X C V : Type 0) : Type 0 where
  pub nodes : Map (Node X)
  pub edges : List (Edge C V)
  pub ports : List RequestPort
  pub output_node_ids : List String
  pub start_node_id : Option String
  pub edge_count : ℕ  -- u64

module _ (X C V : Type 0) where
  abbrev pub new_builder : WorkflowBuilder X C V
  new_builder = record {
    nodes = [];
    edges = [];
    ports = [];
    output_node_ids = [];
    start_node_id = none;
    edge_count = 0;
  }

-- `nodes.iter_mut().last()`: the hash table decides which node it visits last. `which` stands
-- for that choice.
abbrev pub visited_last {ℓ} : {A : Type ℓ} → ℕ → Map A → Option String
visited_last which m = elim (get_elem? m (which % length m)) [
  | none ↦ none
  | some (key, value) ↦ some key
]

module _ {X : Type 0} where
  abbrev pub change_node : (Node X → Node X) → Option String → Map (Node X) → Map (Node X)
  change_node f none nodes = nodes
  change_node f (some key) nodes = elim (get nodes key) [
    | none ↦ nodes
    | some node ↦ insert key (f node) nodes
  ]

-- `EdgeId` of the plain edges and of the branches of a gateway.
abbrev pub plain_id : ℕ → String
plain_id count = text_append "edge_" (decimal count)

abbrev pub xor_id : ℕ → String
xor_id count = text_append "edge_xor_" (decimal count)

abbrev pub inc_id : ℕ → String
inc_id count = text_append "edge_inc_" (decimal count)

module _ {X C V : Type 0} where
  -- `executor.is_output()` is read when the node is added.
  unfoldable pub add_node : (X → Bool) → String → X → WorkflowBuilder X C V → WorkflowBuilder X C V
  unfolding insert new_node
  add_node is_output id executor b = record b {
    nodes = insert id (record (new_node id executor) { is_output = is_output executor }) b.nodes;
  }

  -- `agent_executor` is `AgentExecutor::new(id, agent)`.
  unfoldable pub add_agent_node : String → X → WorkflowBuilder X C V → WorkflowBuilder X C V
  unfolding insert new_node
  add_agent_node id agent_executor b = record b {
    nodes = insert id (new_node id agent_executor) b.nodes;
  }

  unfoldable pub with_retry : ℕ → RetryOptions → WorkflowBuilder X C V → WorkflowBuilder X C V
  unfolding get insert
  with_retry which config b = record b {
    nodes =
        change_node (λ n. record n { retry = some config }) (visited_last which b.nodes) b.nodes;
  }

  unfoldable pub with_node_timeout : ℕ → ℕ → WorkflowBuilder X C V → WorkflowBuilder X C V
  unfolding get insert
  with_node_timeout which timeout b = record b {
    nodes =
        change_node (λ n. record n { timeout = some timeout }) (visited_last which b.nodes) b.nodes;
  }

  unfoldable pub with_loop_on : String → LoopOptions → WorkflowBuilder X C V → WorkflowBuilder X C V
  unfolding get insert
  with_loop_on id config b = record b {
    nodes = change_node (λ n. record n { loop_options = some config }) (some id) b.nodes;
  }

  unfoldable pub with_loop : ℕ → LoopOptions → WorkflowBuilder X C V → WorkflowBuilder X C V
  unfolding get insert
  with_loop which config b = record b {
    nodes =
        change_node (λ n. record n { loop_options = some config }) (visited_last which b.nodes)
          b.nodes;
  }

  unfoldable pub set_start : String → WorkflowBuilder X C V → WorkflowBuilder X C V
  set_start id b = record b { start_node_id = some id }

  unfoldable pub with_output_from : String → WorkflowBuilder X C V → WorkflowBuilder X C V
  with_output_from id b = record b {
    output_node_ids =
        if mem id b.output_node_ids then b.output_node_ids else b.output_node_ids ++ id ∷ [];
  }

  -- `next_edge_id` and the push that follows it.
  abbrev pub push_next : (String → Edge C V) → WorkflowBuilder X C V → WorkflowBuilder X C V
  push_next make b = record b {
    edges = b.edges ++ make (plain_id b.edge_count) ∷ [];
    edge_count = (b.edge_count + 1) % 2 ^ 64;
  }

  unfoldable pub add_port : RequestPort → WorkflowBuilder X C V → WorkflowBuilder X C V
  add_port port b = record b { ports = b.ports ++ port ∷ [] }
