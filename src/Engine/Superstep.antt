-- ===== src/Engine/Superstep.antt =====
-- One pass of the loop of `execute_loop`: the timers, the tasks, the routing and the checkpoint
-- (crates/workflow/src/engine/engine.rs).
pub mod Failure
pub mod Routed
pub mod Numbering
use rust_agent_framework.Common.{
  ℕ, ◌+◌, ◌%◌, ◌^◌, String, Bool, true, false, Option, none, some, List, [], ◌∷◌, ◌++◌, map, keep,
  length, leb, not, if◌then◌else◌, Map, get, AgentError, Result, ok, err,
}
use rust_agent_framework.Envelope.{Envelope, new_envelope, with_target, type_tag}
use rust_agent_framework.Graph.{Node, WorkflowGraph}
use rust_agent_framework.Step.{
  StepContext, new_step, enqueue, has_messages, active_nodes, all_messages,
}
use rust_agent_framework.Runner.{EdgeRunner}
use rust_agent_framework.Engine.{
  TimerEntry, Shared, Executor, Graph, WorkflowConfig, Task, Joined, Outside,
}
use rust_agent_framework.Engine.Run.{run_task}
use rust_agent_framework.Engine.Prepare.{Prep, prepare}
use rust_agent_framework.Engine.Route.{Routing, route_joined, run_compensations}

-- What `save_checkpoint` hands to the checkpoint manager: the step, the state, the barriers of the
-- runners and the messages that wait.
pub record Saved (C V : Type 0) : Type 0 where
  pub step_number : ℕ
  pub state : Map V
  pub runners : Map (EdgeRunner C V)
  pub waiting : List (Envelope C V)

pub record LoopState (C V W : Type 0) : Type 0 where
  pub step_ctx : StepContext C V
  pub shared : Shared C V W
  pub runners : Map (EdgeRunner C V)
  pub execution_log : List String
  pub halt_announced : Bool
  pub total_steps : ℕ  -- i32, by its bit pattern
  pub total_nodes : ℕ
  pub made : ℕ
  pub saved : List (Saved C V)  -- oldest first

module _ {C V W : Type 0} where
  abbrev pub save_checkpoint :
      ℕ
      → StepContext C V
      → Map (EdgeRunner C V)
      → Shared C V W
      → List (Saved C V)
      → List (Saved C V)
  save_checkpoint n ctx runners s saved =
      saved
      ++ record {
        step_number = n;
        state = s.state_map;
        runners = runners;
        waiting = all_messages ctx.queued_messages;
      }
        ∷ []

module _ {C V W : Type 0} (outside : Outside C V W) (nodes : Map (Node (Executor C V W))) where
  abbrev pub is_due : ℕ → TimerEntry → Bool
  is_due now t = leb t.fires_at now

  abbrev pub call_on_timer : TimerEntry → Shared C V W → Shared C V W
  call_on_timer t s = elim (get nodes t.node_id) [
    | none ↦ s
    | some node ↦ record s { world = node.executor.on_timer t.timer_name s.world }
  ]

  -- `fire_due_timers`, after the due entries were split off.
  unfoldable pub fire_timers : List TimerEntry → LoopState C V W → LoopState C V W
  unfolding new_envelope with_target type_tag enqueue get
  fire_timers [] st = st
  fire_timers (t ∷ ts) st =
      let env =
        with_target
          (new_envelope (outside.uuid st.made) (outside.clock st.made) t.node_id
            (outside.of_text t.timer_name) (type_tag "timer"))
          t.node_id in
      fire_timers ts (record st {
        shared = call_on_timer t st.shared;
        step_ctx = enqueue env st.step_ctx;
        made = st.made + 1;
      })

  unfoldable pub fire_due_timers : ℕ → LoopState C V W → LoopState C V W
  unfolding fire_timers
  fire_due_timers now st =
      let due = keep (is_due now) st.shared.timers in
      let pending = keep (λ t. not (is_due now t)) st.shared.timers in
      fire_timers due (record st { shared = record st.shared { timers = pending } })

module _ {C V W : Type 0} (outside : Outside C V W) (config : WorkflowConfig)
    (nodes : Map (Node (Executor C V W))) where
  abbrev pub prepared : LoopState C V W → Prep C V W
  prepared st = prepare outside nodes (active_nodes st.step_ctx) (record {
    step_ctx = st.step_ctx;
    state_map = st.shared.state_map;
    execution_log = st.execution_log;
    total_nodes = st.total_nodes;
    tasks = [];
  })

  -- The state once the tasks have ended, before anything is routed.
  abbrev pub started : Prep C V W → LoopState C V W → Shared C V W → LoopState C V W
  started p st after = record st {
    shared = after;
    execution_log = p.execution_log;
    total_nodes = p.total_nodes;
    total_steps = (st.total_steps + 1) % 2 ^ 32;
    step_ctx = p.step_ctx;
  }

  unfoldable pub conclude :
      Prep C V W
      → LoopState C V W
      → Shared C V W
      → Option AgentError × Routing C V
      → LoopState C V W × Option AgentError
  unfolding run_compensations
  conclude p st after (some e, r) = (
    record (started p st after) {
      shared = run_compensations outside nodes p.execution_log after;
      runners = r.runners;
      made = r.made;
    },
    some e,
  )
  conclude p st after (none, r) = (
    record (started p st after) {
      step_ctx = r.next_ctx;
      runners = r.runners;
      made = r.made;
      saved = save_checkpoint st.step_ctx.step_number r.next_ctx r.runners after st.saved;
    },
    none,
  )

  -- `next_step_ctx`, before anything is routed.
  abbrev pub first_routing : LoopState C V W → Routing C V
  first_routing st = record {
    runners = st.runners;
    next_ctx = new_step ((st.step_ctx.step_number + 1) % 2 ^ 32);
    routed_total = 0;
    made = st.made;
  }

  -- The end of a superstep, from what its tasks returned and what they left of the shared state.
  unfoldable pub settle :
      Prep C V W
      → LoopState C V W
      → List (Joined C) × Shared C V W
      → LoopState C V W × Option AgentError
  unfolding route_joined conclude new_step
  settle p st (joined, after) =
      conclude p st after (route_joined outside nodes joined (first_routing st))

  -- From the active nodes to the checkpoint; the tasks run as tokio runs them.
  unfoldable pub superstep : LoopState C V W → LoopState C V W × Option AgentError
  unfolding prepare settle run_task active_nodes
  superstep st =
      let p = prepared st in
      settle p st (
        outside.join_all (run_task outside config) p.tasks
          (record st.shared { state_map = p.state_map }))
