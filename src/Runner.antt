-- ===== src/Runner.antt =====
-- crates/workflow/src/engine/edge_runner.rs: where an edge delivers a message. The barrier of a
-- fan-in edge is state, so `chase` returns the runner after the call.
pub mod Barrier
pub mod Opening
pub mod Routes
mod Samples
use Prim.Native.String.{◌++◌ as text_append}
use rust_agent_framework.Common.{
  ℕ, length, String, Bool, true, false, Option, none, some, List, [], ◌∷◌, ◌++◌, map, all, keep,
  if◌then◌else◌, Map, contains_key, update_entry, or_default, AgentError, Result, ok, err,
}
use mathlib.Core.Option
use rust_agent_framework.Envelope.{Envelope}
use rust_agent_framework.Graph.Edges.{
  Edge, direct, fan_out, fan_in, DirectEdgeData, FanOutEdgeData, FanInEdgeData,
}

pub record MessageDelivery (C V : Type 0) : Type 0 where
  pub envelope : Envelope C V
  pub target_node_id : String

-- `received` is `FanInState`.
pub data EdgeRunner (C V : Type 0) : Type 0 where
  direct_runner : DirectEdgeData C V → EdgeRunner C V
  fan_out_runner : FanOutEdgeData C V → EdgeRunner C V
  fan_in_runner : FanInEdgeData → Map (List (Envelope C V)) → EdgeRunner C V

module _ {C V : Type 0} where
  unfoldable pub create_edge_runner : Edge C V → EdgeRunner C V
  create_edge_runner (direct d) = direct_runner d
  create_edge_runner (fan_out d) = fan_out_runner d
  create_edge_runner (fan_in d) = fan_in_runner d []

  abbrev pub deliver_to : Envelope C V → String → MessageDelivery C V
  deliver_to env target = record { envelope = env; target_node_id = target }

  -- `received.values().flat_map(..)`
  abbrev pub buffered : Map (List (Envelope C V)) → List (Envelope C V)
  buffered [] = []
  buffered ((source, envs) ∷ m) = envs ++ buffered m

module _ {X C V : Type 0} (nodes : Map X) where
  unfoldable pub chase_direct :
      DirectEdgeData C V → Envelope C V → Result (List (MessageDelivery C V))
  unfolding contains_key
  chase_direct d env = elim (or_default (ok true) (Option.map (λ f. f env) d.condition)) [
    | err e ↦ err e
    | ok false ↦ ok []
    | ok true ↦ if contains_key nodes d.sink_id then ok (deliver_to env d.sink_id ∷ []) else ok []
  ]

  unfoldable pub chase_fan_out : FanOutEdgeData C V → Envelope C V → List (MessageDelivery C V)
  unfolding contains_key
  chase_fan_out d env =
      let targets = or_default d.sink_ids (Option.map (λ f. f env) d.assigner) in
      map (deliver_to env) (keep (contains_key nodes) targets)

  -- The message is recorded first; a ready barrier hands everything on and is cleared. With a sink
  -- that is not there, nothing is delivered and nothing is cleared.
  unfoldable pub chase_fan_in :
      FanInEdgeData
      → Map (List (Envelope C V))
      → Envelope C V
      → List (MessageDelivery C V) × Map (List (Envelope C V))
  unfolding contains_key update_entry
  chase_fan_in d received env =
      let received' = update_entry env.source_node_id [] (λ envs. envs ++ env ∷ []) received in
      if all (contains_key received') d.source_ids
      then if contains_key nodes d.sink_id
        then (map (λ m. deliver_to m d.sink_id) (buffered received'), [])
        else ([], received')
      else ([], received')

  unfoldable pub chase :
      EdgeRunner C V → Envelope C V → Result (List (MessageDelivery C V)) × EdgeRunner C V
  unfolding chase_direct chase_fan_out chase_fan_in
  chase (direct_runner d) env = (chase_direct d env, direct_runner d)
  chase (fan_out_runner d) env = (ok (chase_fan_out d env), fan_out_runner d)
  chase (fan_in_runner d received) env =
      let (deliveries, received') = chase_fan_in d received env in
      (ok deliveries, fan_in_runner d received')

-- `FanInEdgeRunner::reset`
unfoldable pub reset : {C V : Type 0} → EdgeRunner C V → EdgeRunner C V
reset (fan_in_runner d received) = fan_in_runner d []
reset (direct_runner d) = direct_runner d
reset (fan_out_runner d) = fan_out_runner d

-- `checkpoint_state`: a barrier saves how many messages of each source it holds, not the messages.
-- `object_of` is the JSON object of these numbers.
abbrev pub counts : {C V : Type 0} → Map (List (Envelope C V)) → Map ℕ
counts [] = []
counts ((source, envs) ∷ received) = (source, length envs) ∷ counts received

unfoldable pub checkpoint_state : {C V : Type 0} → (Map ℕ → V) → EdgeRunner C V → Map V
checkpoint_state object_of (direct_runner d) = []
checkpoint_state object_of (fan_out_runner d) = []
checkpoint_state object_of (fan_in_runner d received) =
    (text_append "fanin_" d.edge_id, object_of (counts received)) ∷ []
