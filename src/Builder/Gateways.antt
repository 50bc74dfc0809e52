-- ===== src/Builder/Gateways.antt =====
-- The gateway methods of crates/workflow/src/builder/workflow_builder.rs, each written on the
-- edges that it pushes.
pub mod Exclusive
use rust_agent_framework.Common.{
  ◌%◌, ◌^◌, ℕ, suc, ◌+◌, String, Bool, false, Option, none, some, List, [], ◌∷◌, ◌++◌,
}
use rust_agent_framework.Graph.Edges.{Edge, direct, fan_out, EdgeCondition}
use rust_agent_framework.Builder.{WorkflowBuilder, push_next, xor_id, inc_id}

module _ {C V : Type 0} where
  abbrev pub conditional_edge : String → String → String → String → EdgeCondition C V → Edge C V
  conditional_edge label source id target condition = direct (record {
    edge_id = id;
    source_id = source;
    sink_id = target;
    label = some label;
    condition = some condition;
    is_loopback = false;
  })

  -- `for (i, (target, condition)) in branches.into_iter().enumerate()`: the count itself does not
  -- grow inside the loop.
  abbrev pub branch_edges :
      (ℕ → String) → String → String → ℕ → List (String × EdgeCondition C V) → List (Edge C V)
  branch_edges id label source n [] = []
  branch_edges id label source n ((target, condition) ∷ branches) =
      conditional_edge label source (id n) target condition
      ∷ branch_edges id label source ((n + 1) % 2 ^ 64) branches

module _ {X C V : Type 0} where
  unfoldable pub parallel_gateway :
      String → List String → WorkflowBuilder X C V → WorkflowBuilder X C V
  parallel_gateway source branches = push_next λ id. fan_out (record {
    edge_id = id;
    source_id = source;
    sink_ids = branches;
    label = some "parallel_gateway";
    assigner = none;
  })

  abbrev pub push_default : String → Option String → WorkflowBuilder X C V → WorkflowBuilder X C V
  push_default source none b = b
  push_default source (some target) b =
      push_next
        (λ id. direct (record {
          edge_id = id;
          source_id = source;
          sink_id = target;
          label = some "exclusive_default";
          condition = none;
          is_loopback = false;
        }))
        b

  unfoldable pub exclusive_gateway :
      String
      → List (String × EdgeCondition C V)
      → Option String
      → WorkflowBuilder X C V
      → WorkflowBuilder X C V
  exclusive_gateway source branches default_branch b =
      push_default source default_branch (record b {
        edges = b.edges ++ branch_edges xor_id "exclusive_gateway" source b.edge_count branches;
        edge_count = (b.edge_count + 1) % 2 ^ 64;
      })

  unfoldable pub inclusive_gateway :
      String → List (String × EdgeCondition C V) → WorkflowBuilder X C V → WorkflowBuilder X C V
  inclusive_gateway source branches b = record b {
    edges = b.edges ++ branch_edges inc_id "inclusive_gateway" source b.edge_count branches;
    edge_count = (b.edge_count + 1) % 2 ^ 64;
  }
