-- ===== src/Engine/Run.antt =====
-- One task of a superstep: `execute_node_messages_once`, its retries, and the body of the spawned
-- future (crates/workflow/src/engine/engine.rs).
use rust_agent_framework.Common.{
  ℕ, String, Bool, true, false, Option, none, some, List, [], ◌∷◌, ◌++◌, display, Result, ok, err,
}
use rust_agent_framework.Envelope.{Envelope}
use rust_agent_framework.Retry.{NodeRun, execute_node_messages}
use rust_agent_framework.Engine.{
  HandlerResult, messages, output, nothing, Shared, Work, Executor, WorkflowConfig, Task, Outside,
}

-- `node.timeout.or(config.default_node_timeout)`
abbrev pub or_timeout : Option ℕ → Option ℕ → Option ℕ
or_timeout none default_timeout = default_timeout
or_timeout (some timeout) default_timeout = some timeout

module _ {C V W : Type 0} where
  abbrev pub add_output : C → String → Shared C V W → Shared C V W
  add_output out label s = record s { outputs = s.outputs ++ (out, label) ∷ [] }

  -- The `match result`: what a handler returned, and what it queued by `send_message`. An output
  -- goes out by itself, and what was queued with it is dropped.
  unfoldable pub collect :
      HandlerResult C → String → Work C V W → List C × Bool → (List C × Bool) × Shared C V W
  collect (messages msgs) label w (produced, any_output) =
      ((produced ++ (msgs ++ w.queued_messages), any_output), w.shared)
  collect (output out) label w (produced, any_output) =
      ((produced, true), add_output out label w.shared)
  collect nothing label w (produced, any_output) =
      ((produced ++ w.queued_messages, any_output), w.shared)

  -- The loop over the messages of a node; the first error ends it.
  unfoldable pub run_messages :
      Executor C V W
      → String
      → Option ℕ
      → List (Envelope C V)
      → List C × Bool
      → Shared C V W
      → Result (NodeRun C) × Shared C V W
  unfolding collect
  run_messages executor label timeout [] (produced, any_output) s =
      (ok (record { source = label; produced = produced; any_output = any_output }), s)
  run_messages executor label timeout (env ∷ envs) acc s =
      let start : Work C V W = record { node_id = label; shared = s; queued_messages = [] } in
      let (result, w) = executor.handle timeout env.content start in
      elim result [
        | err e ↦ (err e, w.shared)
        | ok r ↦
            let next = collect r label w acc in
            run_messages executor label timeout envs next.0 next.1
      ]

  unfoldable pub execute_node_messages_once :
      Executor C V W
      → String
      → Option ℕ
      → List (Envelope C V)
      → Shared C V W
      → Result (NodeRun C) × Shared C V W
  unfolding run_messages
  execute_node_messages_once executor label timeout inbox s =
      run_messages executor label timeout inbox ([], false) s

  abbrev pub touch_world : (W → W) → Shared C V W → Shared C V W
  touch_world f s = record s { world = f s.world }

  unfoldable pub run_task :
      Outside C V W → WorkflowConfig → Task C V W → Shared C V W → Result (NodeRun C) × Shared C V W
  unfolding execute_node_messages_once execute_node_messages
  run_task outside config task s =
      let executor = task.node.executor in
      let timeout = or_timeout task.node.timeout config.default_node_timeout in
      let trace =
        execute_node_messages (λ e. outside.of_text (display e))
          (execute_node_messages_once executor task.node_id timeout task.inbox) task.node.retry
          task.node_id (touch_world executor.on_delivery_start s) in
      (trace.result, touch_world executor.on_delivery_end trace.state)
