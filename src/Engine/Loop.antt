-- ===== src/Engine/Loop.antt =====
-- The loop of `execute_loop`, with pause and resume (crates/workflow/src/engine/engine.rs and the
-- commands of crates/workflow/src/engine/runtime.rs).
pub mod Steps
pub mod Numbers
pub mod Counting
pub mod Completion
pub mod Fuel
mod Samples
use rust_agent_framework.Common.{
  ℕ, zero, suc, ◌+◌, String, Bool, true, false, Option, none, some, List, [], ◌∷◌, if◌then◌else◌,
  Map, AgentError, workflow_error, Result, ok, err,
}
use rust_agent_framework.Envelope.{new_envelope, with_target, type_tag}
use rust_agent_framework.Graph.{Node, WorkflowGraph}
use rust_agent_framework.Step.{StepContext, new_step, enqueue, has_messages}
use rust_agent_framework.Runner.{EdgeRunner}
use rust_agent_framework.Engine.{Shared, Executor, Graph, WorkflowConfig, Outside}
use rust_agent_framework.Engine.Route.{edge_runners}
use rust_agent_framework.Engine.Superstep.{LoopState, save_checkpoint, fire_due_timers, superstep}

-- `ResumeCommand`
pub data ResumeCommand (C : Type 0) : Type 0 where
  inject_message : (target_node_id : String) (message : C) → ResumeCommand C
  continue_run abort : ResumeCommand C

-- The commands still to come: `none` without a channel, and a list that ends when it is closed.
abbrev pub Commands : Type 0 → Type 0
Commands C = Option (List (ResumeCommand C))

-- How one pass of the loop ends.
pub data Pass (C V W : Type 0) : Type 0 where
  again : LoopState C V W → Commands C → Pass C V W
  completed : LoopState C V W → Pass C V W
  failed : AgentError → LoopState C V W → Pass C V W

abbrev pub aborted : AgentError
aborted = workflow_error "工作流被外部中止"

module _ {C V W : Type 0} (outside : Outside C V W) (config : WorkflowConfig)
    (nodes : Map (Node (Executor C V W))) where
  -- `halt_announced.swap(true)`: the checkpoint of a pause is written once.
  abbrev pub announce : LoopState C V W → LoopState C V W
  announce st = if st.halt_announced then st else record st {
    halt_announced = true;
    saved = save_checkpoint st.step_ctx.step_number st.step_ctx st.runners st.shared st.saved;
  }

  abbrev pub resume : LoopState C V W → LoopState C V W
  resume st = record st { shared = record st.shared { halt_flag = false }; halt_announced = false }

  unfoldable pub inject : String → C → LoopState C V W → LoopState C V W
  unfolding new_envelope with_target type_tag enqueue
  inject target msg st = record st {
    step_ctx =
        enqueue
          (with_target
            (new_envelope (outside.uuid st.made) (outside.clock st.made) "external" msg
              (type_tag "resume"))
            target)
          st.step_ctx;
    made = st.made + 1;
  }

  -- A paused pass waits for a command.
  unfoldable pub halted_pass : Commands C → LoopState C V W → Pass C V W
  unfolding inject
  halted_pass none st = completed st
  halted_pass (some []) st = completed st
  halted_pass (some (inject_message target msg ∷ rest)) st =
      again (resume (inject target msg st)) (some rest)
  halted_pass (some (continue_run ∷ rest)) st = again (resume st) (some rest)
  halted_pass (some (abort ∷ rest)) st = failed aborted st

  abbrev pub after_superstep : Commands C → LoopState C V W × Option AgentError → Pass C V W
  after_superstep commands (st, none) = again st commands
  after_superstep commands (st, some e) = failed e st

  unfoldable pub running_pass : Commands C → LoopState C V W → Pass C V W
  unfolding fire_due_timers has_messages superstep
  running_pass commands st =
      let st' = fire_due_timers outside nodes (outside.pass_clock st.total_steps st.made) st in
      if has_messages st'.step_ctx
      then after_superstep commands (superstep outside config nodes st')
      else completed st'

  unfoldable pub pass : Commands C → LoopState C V W → Pass C V W
  unfolding halted_pass running_pass
  pass commands st =
      if st.shared.halt_flag then halted_pass commands (announce st) else running_pass commands st

  -- The loop itself; a workflow may run for ever, so `none` says that the fuel ran out.
  unfoldable pub run_loop :
      ℕ → Commands C → LoopState C V W → Option (Result (Unit {0}) × LoopState C V W)
  unfolding pass
  run_loop zero commands st = none
  run_loop (suc fuel) commands st = elim (pass commands st) [
    | completed st' ↦ some (ok tt, st')
    | failed e st' ↦ some (err e, st')
    | again st' commands' ↦ run_loop fuel commands' st'
  ]

module _ {C V W : Type 0} (outside : Outside C V W) where
  -- The variables of `execute_loop` before the loop; `world` is what the executors start from.
  unfoldable pub initial : Map (EdgeRunner C V) → Graph C V W → C → W → LoopState C V W
  unfolding new_step enqueue new_envelope with_target type_tag
  initial runners g message world = record {
    step_ctx =
        enqueue
          (with_target
            (new_envelope (outside.uuid 0) (outside.clock 0) g.start_node_id message
              (type_tag "initial"))
            g.start_node_id)
          (new_step 0);
    shared = record { state_map = []; halt_flag = false; timers = []; outputs = []; world = world };
    runners = runners;
    execution_log = [];
    halt_announced = false;
    total_steps = 0;
    total_nodes = 0;
    made = 1;
    saved = [];
  }

  unfoldable pub execute_loop :
      WorkflowConfig
      → ℕ
      → Commands C
      → Map (EdgeRunner C V)
      → Graph C V W
      → C
      → W
      → Option (Result (Unit {0}) × LoopState C V W)
  unfolding run_loop initial
  execute_loop config fuel commands runners g message world =
      run_loop outside config g.nodes fuel commands (initial runners g message world)

  -- The first run of a new engine: `WorkflowEngine::new`, then `run`, without a global timeout.
  -- A later run of the same engine starts from the barriers that the earlier one left.
  unfoldable pub run :
      WorkflowConfig
      → ℕ
      → Commands C
      → Graph C V W
      → C
      → W
      → Option (Result (Unit {0}) × LoopState C V W)
  unfolding execute_loop edge_runners
  run config fuel commands g = execute_loop config fuel commands (edge_runners g.edges []) g
