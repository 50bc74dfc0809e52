-- ===== src/Engine/Route.antt =====
-- Sending what the tasks produced along the edges, and the compensation of a failed step
-- (`execute_loop` and `run_compensations` of crates/workflow/src/engine/engine.rs).
pub mod Keys
pub mod Own
pub mod Starved
use Prim.Native.String.{◌++◌ as text_append}
use text.Mathlib.Text.{starts_with}
use rust_agent_framework.Common.{
  ℕ, ◌+◌, String, Bool, true, false, Option, none, some, List, [], ◌∷◌, ◌++◌, length, if◌then◌else◌,
  Map, get, insert, AgentError, workflow_error, Result, ok, err,
}
use mathlib.Core.List.{reverse}
use rust_agent_framework.Envelope.{Envelope, new_envelope, with_target, type_tag}
use rust_agent_framework.Graph.{Node, WorkflowGraph}
use rust_agent_framework.Graph.Edges.{Edge, edge_id}
use rust_agent_framework.Step.{StepContext, enqueue_batch}
use rust_agent_framework.Runner.{MessageDelivery, EdgeRunner, create_edge_runner, chase}
use rust_agent_framework.Retry.{NodeRun}
use rust_agent_framework.Engine.{Shared, Executor, Joined, returned, panicked, Outside}

-- `format!("{}:{}", source_id, edge.edge_id())`
abbrev pub runner_key : String → String → String
runner_key source id = text_append (text_append source ":") id

-- `format!("{}:", source_node_id)`
abbrev pub key_prefix : String → String
key_prefix source = text_append source ":"

module _ {C V : Type 0} where
  -- `WorkflowEngine::new`: one runner for each edge in each source's set.
  unfoldable pub add_runners :
      String → List (Edge C V) → Map (EdgeRunner C V) → Map (EdgeRunner C V)
  unfolding create_edge_runner insert edge_id
  add_runners source [] runners = runners
  add_runners source (e ∷ es) runners =
      add_runners source es (insert (runner_key source (edge_id e)) (create_edge_runner e) runners)

  unfoldable pub edge_runners : Map (List (Edge C V)) → Map (EdgeRunner C V) → Map (EdgeRunner C V)
  unfolding add_runners
  edge_runners [] runners = runners
  edge_runners ((source, es) ∷ rest) runners = edge_runners rest (add_runners source es runners)

  -- `routed_env.target_node_id = Some(delivery.target_node_id)`
  abbrev pub retarget : List (MessageDelivery C V) → List (Envelope C V)
  retarget [] = []
  retarget (d ∷ ds) = with_target d.envelope d.target_node_id ∷ retarget ds

  -- `if let Ok(deliveries)`: an edge whose condition fails is passed over.
  abbrev pub ok_or_nothing : Result (List (MessageDelivery C V)) → List (MessageDelivery C V)
  ok_or_nothing (ok ds) = ds
  ok_or_nothing (err e) = []

module _ {X C V : Type 0} (nodes : Map X) where
  -- The walk over `edge_runners_map` for one message: each runner whose key has the prefix is
  -- asked, and changed if it is a barrier.
  unfoldable pub chase_matching :
      String → Envelope C V → Map (EdgeRunner C V) → Map (EdgeRunner C V) × List (Envelope C V)
  unfolding chase
  chase_matching prefix env [] = ([], [])
  chase_matching prefix env ((key, runner) ∷ runners) =
      let (rest, sent) = chase_matching prefix env runners in
      let (result, runner') = chase nodes runner env in
      if starts_with key prefix
      then ((key, runner') ∷ rest, retarget (ok_or_nothing result) ++ sent)
      else ((key, runner) ∷ rest, sent)

-- The variables that the loop over the joined tasks changes. `made` counts the envelopes that were
-- made, for fresh ids and times.
pub record Routing (C V : Type 0) : Type 0 where
  pub runners : Map (EdgeRunner C V)
  pub next_ctx : StepContext C V
  pub routed_total : ℕ
  pub made : ℕ

module _ {C V W : Type 0} (outside : Outside C V W) where
  abbrev pub make_envelope : String → C → Routing C V → Envelope C V
  make_envelope source msg r =
      new_envelope (outside.uuid r.made) (outside.clock r.made) source msg
        (type_tag (outside.type_name msg))

module _ {C V W : Type 0} (outside : Outside C V W) (nodes : Map (Node (Executor C V W))) where
  unfoldable pub route_message : String → C → Routing C V → Routing C V
  unfolding chase_matching new_envelope type_tag enqueue_batch
  route_message source msg r =
      let (runners', sent) =
        chase_matching nodes (key_prefix source) (make_envelope outside source msg r) r.runners in
      record {
        runners = runners';
        next_ctx = enqueue_batch sent r.next_ctx;
        routed_total = r.routed_total + length sent;
        made = r.made + 1;
      }

  unfoldable pub route_messages : String → List C → Routing C V → Routing C V
  unfolding route_message
  route_messages source [] r = r
  route_messages source (msg ∷ msgs) r = route_messages source msgs (route_message source msg r)

  abbrev pub panic_error : String → AgentError
  panic_error reason = workflow_error (text_append "节点任务 panic: " reason)

  -- The loop over the handles: the first error ends it, and what the later tasks produced is not
  -- routed. What the earlier ones produced is, and their messages stay in the barriers.
  unfoldable pub route_joined : List (Joined C) → Routing C V → Option AgentError × Routing C V
  unfolding route_messages
  route_joined [] r = (none, r)
  route_joined (returned (ok run) ∷ rest) r =
      route_joined rest (route_messages run.source run.produced r)
  route_joined (returned (err e) ∷ rest) r = (some e, r)
  route_joined (panicked reason ∷ rest) r = (some (panic_error reason), r)

  abbrev pub compensate_one : String → Shared C V W → Shared C V W
  compensate_one id s = elim (get nodes id) [
    | none ↦ s
    | some node ↦
        let (state, world) = node.executor.compensate (s.state_map, s.world) in
        record s { state_map = state; world = world }
  ]

  abbrev pub compensate_all : List String → Shared C V W → Shared C V W
  compensate_all [] s = s
  compensate_all (id ∷ ids) s = compensate_all ids (compensate_one id s)

  -- `run_compensations`: every node in the log, the last one first.
  unfoldable pub run_compensations : List String → Shared C V W → Shared C V W
  unfolding get
  run_compensations log s = compensate_all (reverse log) s
