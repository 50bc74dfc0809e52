-- ===== src/Graph/Parts.antt =====
-- The constructors and setters of crates/workflow/src/graph/node.rs and port.rs.
use rust_agent_framework.Common.{ℕ, String, Bool, none, some}
use rust_agent_framework.Envelope.{TypeTag}
use rust_agent_framework.Retry.{RetryOptions}
use rust_agent_framework.Graph.{LoopOptions, Node, RequestPort}

abbrev pub loop_up_to : ℕ → LoopOptions
loop_up_to max = record { max_iterations = max; loop_variable = none }

abbrev pub with_variable : String → LoopOptions → LoopOptions
with_variable name config = record config { loop_variable = some name }

abbrev pub unlimited : LoopOptions
unlimited = record { max_iterations = 0; loop_variable = none }

module _ {X : Type 0} where
  abbrev pub with_output : Bool → Node X → Node X
  with_output is_output node = record node { is_output = is_output }

  abbrev pub with_retry : RetryOptions → Node X → Node X
  with_retry config node = record node { retry = some config }

  abbrev pub with_timeout : ℕ → Node X → Node X
  with_timeout timeout node = record node { timeout = some timeout }

  abbrev pub with_loop : LoopOptions → Node X → Node X
  with_loop config node = record node { loop_options = some config }

abbrev pub request_port : String → TypeTag → TypeTag → String → RequestPort
request_port id request response target = record {
  id = id;
  request_type = request;
  response_type = response;
  target_node_id = target;
}
