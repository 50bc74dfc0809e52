-- ===== src/Engine.antt =====
-- crates/workflow/src/engine/engine.rs and crates/workflow/src/executor/base.rs: what an executor
-- is, what the tasks of a run share, and what the engine takes from outside.
pub mod Context
pub mod Run
pub mod Prepare
pub mod Route
pub mod Superstep
pub mod Loop
mod Samples
use rust_agent_framework.Common.{
  ℕ, String, Bool, true, false, Option, none, some, List, [], ◌∷◌, ◌≡◌, length, Map, AgentError,
  Result,
}
use rust_agent_framework.Envelope.{Envelope}
use rust_agent_framework.Graph.{Node, WorkflowGraph}
use rust_agent_framework.Retry.{NodeRun}

-- `HandlerResult`
pub data HandlerResult (C : Type 0) : Type 0 where
  messages : List C → HandlerResult C
  output : C → HandlerResult C
  nothing : HandlerResult C

pub record TimerEntry : Type 0 where
  pub node_id : String
  pub timer_name : String
  pub fires_at : ℕ

-- The `Arc`s that all tasks of a run hold: the state map, the halt flag, the timers and the output
-- channel. `world` is everything else that an executor can reach, its own fields included.
pub record Shared (C V W : Type 0) : Type 0 where
  pub state_map : Map V
  pub halt_flag : Bool
  pub timers : List TimerEntry
  pub outputs : List (C × String)
  pub world : W

-- `EngineWorkContext`, as one handler call sees it.
pub record Work (C V W : Type 0) : Type 0 where
  pub node_id : String
  pub shared : Shared C V W
  pub queued_messages : List C

-- `IExecutor`. `handle` runs under the timeout that it is given: tokio makes an error of a handler
-- that takes longer. The hooks that get a stub context can change the world alone, and
-- `compensate` the state map too; the engine drops what they return.
pub record Executor (C V W : Type 0) : Type 0 where
  pub is_output : Bool
  pub handle : Option ℕ → C → Work C V W → Result (HandlerResult C) × Work C V W
  pub on_delivery_start : W → W
  pub on_delivery_end : W → W
  pub on_timer : String → W → W
  pub compensate : Map V × W → Map V × W

abbrev pub Graph : Type 0 → Type 0 → Type 0 → Type 0
Graph C V W = WorkflowGraph (Executor C V W) C V

-- `WorkflowConfig` of crates/workflow/src/engine/config.rs, the limits that change a result.
pub record WorkflowConfig : Type 0 where
  pub default_node_timeout : Option ℕ
  pub max_parallel_nodes : ℕ

-- One spawned task: a node and the messages that it was sent.
pub record Task (C V W : Type 0) : Type 0 where
  pub node_id : String
  pub node : Node (Executor C V W)
  pub inbox : List (Envelope C V)

-- What awaiting a `JoinHandle` yields.
pub data Joined (C : Type 0) : Type 0 where
  returned : Result (NodeRun C) → Joined C
  panicked : String → Joined C

-- What is not the engine's own: payloads made of a text, the name of a payload's type, integers in
-- JSON, fresh ids, the clock, and tokio, which runs the tasks of a superstep side by side. An `i64`
-- or `i32` is its bit pattern.
pub record Outside (C V W : Type 0) : Type 0 where
  pub of_text : String → C
  pub type_name : C → String
  pub as_i64 : V → Option ℕ
  pub of_i32 : ℕ → V
  pub uuid : ℕ → String
  pub clock : ℕ → ℕ
  pub pass_clock : ℕ → ℕ → ℕ  -- at a pass, from the steps and the envelopes before it
  pub join_all :
      (Task C V W → Shared C V W → Result (NodeRun C) × Shared C V W)
      → List (Task C V W)
      → Shared C V W
      → List (Joined C) × Shared C V W
