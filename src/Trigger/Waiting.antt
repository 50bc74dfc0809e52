-- ===== src/Trigger/Waiting.antt =====
-- The task of a node that waits for its timer (timer.rs and engine.rs of
-- crates/workflow/src/engine).
use rust_agent_framework.Common.{
  ℕ, zero, suc, ◌+◌, String, Bool, false, Option, none, [], ◌∷◌, ◌≡◌, refl, Result, ok, ap, display,
  ◌++◌,
}
use rust_agent_framework.Graph.{Node}
use rust_agent_framework.Retry.{
  NodeRun, RetryOptions, Trace, options_or_none, retry_loop, execute_node_messages,
}
use rust_agent_framework.Envelope.{Envelope}
use rust_agent_framework.Engine.Run.{
  run_task, or_timeout, execute_node_messages_once, run_messages, collect,
}
use rust_agent_framework.Engine.Context.{schedule_timer}
use rust_agent_framework.Engine.{
  TimerEntry, Shared, Work, HandlerResult, nothing, Executor, WorkflowConfig, Task, returned,
  Outside,
}
use rust_agent_framework.Trigger.{Cell, TimerTrigger, timer_executor, handle_timer}

module _ {W : Type 0} (now : W → ℕ) (t : TimerTrigger) where
  abbrev pub entry_at : String → W → TimerEntry
  entry_at id world = record {
    node_id = id;
    timer_name = t.timer_name;
    fires_at = now world + t.delay;
  }

module _ {C V W : Type 0} (now : W → ℕ) (t : TimerTrigger) where
  abbrev pub scheduled : String → Shared C V W → Shared C V W
  scheduled id s = record s { timers = s.timers ++ entry_at now t id s.world ∷ [] }

abbrev pub nothing_from : {C : Type 0} → String → NodeRun C
nothing_from id = record { source = id; produced = []; any_output = false }

module _ {C V W : Type 0} (outside : Outside C V W) where
  -- tokio hands a task that runs alone back with what it did.
  abbrev pub RunsAlone : Type 0
  RunsAlone =
      (run : Task C V W → Shared C V W → Result (NodeRun C) × Shared C V W) (task : Task C V W)
      (s : Shared C V W)
      → outside.join_all run (task ∷ []) s ≡ (returned (run task s).0 ∷ [], (run task s).1)

  -- A task that returns at once is not run again.
  retry_loop-ok :
      (once : Shared C V W → Result (NodeRun C) × Shared C V W) (config' : RetryOptions)
      (label : String) (left attempt : ℕ) (s s' : Shared C V W) (run : NodeRun C)
      → once s ≡ (ok run, s')
      → retry_loop (λ e. outside.of_text (display e)) once config' label left attempt s
        ≡ record { state = s'; attempts = 1; notices = []; result = ok run }
  unfolding retry_loop
  retry_loop-ok once config' label zero attempt s s' run e =
      rw
        (
          retry_loop,
          ap (λ (p : Result (NodeRun C) × Shared C V W). p.0) e,
          ap (λ (p : Result (NodeRun C) × Shared C V W). p.1) e,
        )
        refl
  retry_loop-ok once config' label (suc left) attempt s s' run e =
      rw
        (
          retry_loop,
          ap (λ (p : Result (NodeRun C) × Shared C V W). p.0) e,
          ap (λ (p : Result (NodeRun C) × Shared C V W). p.1) e,
        )
        refl

module _ {C V W : Type 0} (fired : Cell W Bool) (now : W → ℕ) (t : TimerTrigger) where
  -- A node that is no loop and waits for the timer.
  abbrev pub waiting_node : Option RetryOptions → Option ℕ → Bool → Node (Executor C V W)
  waiting_node retry timeout is_output = record {
    id = t.node_id;
    executor = timer_executor fired now t;
    is_output = is_output;
    retry = retry;
    timeout = timeout;
    loop_options = none;
  }

  handle-waits :
      (message : C) (ctx : Work C V W)
      → fired.read ctx.shared.world ≡ false
      → handle_timer fired now t message ctx ≡ (
        ok nothing,
        record ctx {
          shared = record ctx.shared {
            timers = ctx.shared.timers ++ entry_at now t ctx.node_id ctx.shared.world ∷ [];
          };
        },
      )
  unfolding handle_timer schedule_timer
  handle-waits message ctx unfired = rw unfired refl

  once-waits :
      (id : String) (timeout : Option ℕ) (env : Envelope C V) (s : Shared C V W)
      → fired.read s.world ≡ false
      → execute_node_messages_once (timer_executor fired now t) id timeout (env ∷ []) s
        ≡ (ok (nothing_from id), scheduled now t id s)
  unfolding execute_node_messages_once run_messages collect
  once-waits id timeout env s unfired =
      let e =
        handle-waits env.content (record { node_id = id; shared = s; queued_messages = [] })
          unfired in
      rw
        (
          execute_node_messages_once,
          run_messages,
          ap (λ (p : Result (HandlerResult C) × Work C V W). p.0) e,
          ap (λ (p : Result (HandlerResult C) × Work C V W). p.1) e,
        )
        refl

module _ {C V W : Type 0} (outside : Outside C V W) (config : WorkflowConfig) (fired : Cell W Bool)
    (now : W → ℕ) (t : TimerTrigger) where
  pub run_task-waits :
      (id : String) (retry : Option RetryOptions) (timeout : Option ℕ) (is_output : Bool)
      (env : Envelope C V) (s : Shared C V W)
      → fired.read s.world ≡ false
      → run_task outside config
          (record {
            node_id = id;
            node = waiting_node fired now t retry timeout is_output;
            inbox = env ∷ [];
          })
          s
        ≡ (ok (nothing_from id), scheduled now t id s)
  unfolding run_task execute_node_messages
  run_task-waits id retry timeout is_output env s unfired =
      let config' = options_or_none retry in
      let timeout' = or_timeout timeout config.default_node_timeout in
      let once =
        execute_node_messages_once (timer_executor {C = C} {V = V} fired now t) id timeout'
          (env ∷ []) in
      let e =
        retry_loop-ok outside once config' id config'.max_retries 0 s (scheduled now t id s)
          (nothing_from id) (once-waits fired now t id timeout' env s unfired) in
      ap (λ (r : Trace (Shared C V W) C). (r.result, r.state)) e
