-- ===== src/Builder/Links.antt =====
-- The methods of crates/workflow/src/builder/workflow_builder.rs that add one edge.
use rust_agent_framework.Common.{String, true, false, none, some, List}
use rust_agent_framework.Graph.Edges.{direct, fan_out, fan_in, EdgeCondition, FanOutAssigner}
use rust_agent_framework.Builder.{WorkflowBuilder, push_next}

module _ {X C V : Type 0} where
  unfoldable pub add_edge : String → String → WorkflowBuilder X C V → WorkflowBuilder X C V
  add_edge source target = push_next λ id. direct (record {
    edge_id = id;
    source_id = source;
    sink_id = target;
    label = none;
    condition = none;
    is_loopback = false;
  })

  unfoldable pub add_fan_out_edge :
      String → List String → WorkflowBuilder X C V → WorkflowBuilder X C V
  add_fan_out_edge source targets = push_next λ id. fan_out (record {
    edge_id = id;
    source_id = source;
    sink_ids = targets;
    label = none;
    assigner = none;
  })

  unfoldable pub add_fan_in_edge :
      List String → String → WorkflowBuilder X C V → WorkflowBuilder X C V
  add_fan_in_edge sources target =
      push_next
        λ id. fan_in (record { edge_id = id; source_ids = sources; sink_id = target; label = none })

  unfoldable pub add_edge_with_condition :
      String → String → EdgeCondition C V → WorkflowBuilder X C V → WorkflowBuilder X C V
  add_edge_with_condition source target condition = push_next λ id. direct (record {
    edge_id = id;
    source_id = source;
    sink_id = target;
    label = none;
    condition = some condition;
    is_loopback = false;
  })

  unfoldable pub add_fan_out_edge_with_assigner :
      String → List String → FanOutAssigner C V → WorkflowBuilder X C V → WorkflowBuilder X C V
  add_fan_out_edge_with_assigner source targets assigner = push_next λ id. fan_out (record {
    edge_id = id;
    source_id = source;
    sink_ids = targets;
    label = none;
    assigner = some assigner;
  })

  unfoldable pub add_loopback_edge : String → String → WorkflowBuilder X C V → WorkflowBuilder X C V
  add_loopback_edge source target = push_next λ id. direct (record {
    edge_id = id;
    source_id = source;
    sink_id = target;
    label = some "loopback";
    condition = none;
    is_loopback = true;
  })
