-- ===== src/Engine/Prepare.antt =====
-- The part of a superstep that runs before the tasks do: picking the active nodes, taking their
-- messages and counting the rounds of a loop (`execute_loop` of
-- crates/workflow/src/engine/engine.rs).
pub mod Rounds
use Prim.Native.String.{◌++◌ as text_append}
use rust_agent_framework.Common.{
  ℕ, ◌+◌, ◌%◌, ◌^◌, String, Bool, true, false, not, ◌&&◌, Option, none, some, List, [], ◌∷◌, ◌++◌,
  ltb, leb, nat_eq, if◌then◌else◌, Map, get, insert, or_default,
}
use mathlib.Core.Option
use rust_agent_framework.Envelope.{Envelope}
use rust_agent_framework.Graph.{LoopOptions, Node}
use rust_agent_framework.Step.{StepContext, dequeue_for}
use rust_agent_framework.Engine.{Shared, Executor, Graph, Task, Outside}

-- An `i32` by its bit pattern. The order of signed numbers is that of the patterns with the sign
-- bit turned.
abbrev pub i32_mod : ℕ
i32_mod = 2 ^ 32

abbrev pub as_i32 : ℕ → ℕ
as_i32 bits = bits % i32_mod

abbrev pub bias : ℕ → ℕ
bias w = (w + 2 ^ 31) % i32_mod

abbrev pub ge_i32 : ℕ → ℕ → Bool
ge_i32 a b = leb (bias b) (bias a)

-- The variables of `execute_loop` that this part changes.
pub record Prep (C V W : Type 0) : Type 0 where
  pub step_ctx : StepContext C V
  pub state_map : Map V
  pub execution_log : List String
  pub total_nodes : ℕ
  pub tasks : List (Task C V W)

abbrev pub loop_var : String → LoopOptions → String
loop_var id cfg = or_default (text_append "__loop_" id) cfg.loop_variable

module _ {C V W : Type 0} (outside : Outside C V W) where
  -- `state.get(&loop_var).and_then(as_i64).unwrap_or(0) as i32`
  unfoldable pub iteration : String → Map V → ℕ
  unfolding get
  iteration var state = as_i32 (or_default 0 (Option.bind (get state var) outside.as_i64))

  -- `max_iterations > 0 && current >= max_iterations as i32`
  abbrev pub loop_exhausted : LoopOptions → ℕ → Bool
  loop_exhausted cfg current =
      ltb 0 cfg.max_iterations && ge_i32 current (as_i32 cfg.max_iterations)

  abbrev pub push_task : Task C V W → Prep C V W → Prep C V W
  push_task task p = record p { tasks = p.tasks ++ task ∷ [] }

  -- A node that has had its rounds is skipped, with its messages; else the round is counted.
  unfoldable pub enter_node : Task C V W → Option LoopOptions → Prep C V W → Prep C V W
  unfolding iteration insert
  enter_node task none p = push_task task p
  enter_node task (some cfg) p =
      let var = loop_var task.node_id cfg in
      let current = iteration var p.state_map in
      if loop_exhausted cfg current
      then p
      else push_task task
          (record p { state_map = insert var (outside.of_i32 (as_i32 (current + 1))) p.state_map })

  abbrev pub count_node : String → Prep C V W → Prep C V W
  count_node id p = record p {
    total_nodes = p.total_nodes + 1;
    execution_log = p.execution_log ++ id ∷ [];
  }

  -- An id that is no node keeps its messages, which the step then drops.
  unfoldable pub prepare_node : Map (Node (Executor C V W)) → String → Prep C V W → Prep C V W
  unfolding enter_node dequeue_for get
  prepare_node nodes id p = elim (get nodes id) [
    | none ↦ p
    | some node ↦
        let (inbox, ctx) = dequeue_for id p.step_ctx in
        elim inbox [
          | none ↦ p
          | some envs ↦
              enter_node (record { node_id = id; node = node; inbox = envs }) node.loop_options
                (count_node id (record p { step_ctx = ctx }))
        ]
  ]

  unfoldable pub prepare : Map (Node (Executor C V W)) → List String → Prep C V W → Prep C V W
  unfolding prepare_node
  prepare nodes [] p = p
  prepare nodes (id ∷ ids) p = prepare nodes ids (prepare_node nodes id p)
