-- ===== src/Trigger/Stranded.antt =====
-- A timer in the engine's loop (engine.rs and timer.rs of crates/workflow/src/engine).
use rust_agent_framework.Common.{
  ℕ, suc, ◌+◌, ◌<◌, String, Bool, false, Option, none, some, [], ◌∷◌, ◌≡◌, refl, Map, get, insert,
  Result, ok, ap, ◌∙◌, remove, update_entry, eq_refl, lt→leb_false,
}
use rust_agent_framework.Graph.{Node}
use rust_agent_framework.Retry.{NodeRun, RetryOptions}
use rust_agent_framework.Envelope.{Envelope, new_envelope, with_target, type_tag}
use rust_agent_framework.Engine.Run.{run_task}
use rust_agent_framework.Engine.{Shared, Executor, Graph, WorkflowConfig, Task, returned, Outside}
use rust_agent_framework.Engine.Superstep.{
  LoopState, superstep, fire_due_timers, fire_timers, prepared, save_checkpoint, save_checkpoint,
  settle, conclude,
}
use rust_agent_framework.Engine.Loop.{
  Commands, again, completed, after_superstep, running_pass, initial, execute_loop, pass,
}
use rust_agent_framework.Engine.Loop.Steps.{run_loop-again, run_loop-completed_at}
use rust_agent_framework.Runner.{EdgeRunner}
use rust_agent_framework.Step.{new_step, enqueue, dequeue_for, has_messages, active_nodes}
use rust_agent_framework.Engine.Prepare.{Prep, prepare, prepare_node, enter_node}
use rust_agent_framework.Engine.Route.{route_joined, route_messages}
use rust_agent_framework.Trigger.{Cell, TimerTrigger}
use rust_agent_framework.Trigger.Waiting.{
  waiting_node, entry_at, scheduled, nothing_from, RunsAlone, run_task-waits,
}

module _ {C V W : Type 0} (outside : Outside C V W) (config : WorkflowConfig) (fired : Cell W Bool)
    (now : W → ℕ) (t : TimerTrigger) where
  -- The message that a run starts with, and its only task.
  abbrev pub first_envelope : String → C → Envelope C V
  first_envelope start message =
      with_target
        (new_envelope (outside.uuid 0) (outside.clock 0) start message (type_tag "initial")) start

  abbrev first_task : String → Node (Executor C V W) → C → Task C V W
  first_task start node message = record {
    node_id = start;
    node = node;
    inbox = first_envelope start message ∷ [];
  }

  abbrev first_prep : String → Node (Executor C V W) → C → Prep C V W
  first_prep start node message = record {
    step_ctx = record { queued_messages = []; step_number = 0 };
    state_map = [];
    execution_log = start ∷ [];
    total_nodes = 1;
    tasks = first_task start node message ∷ [];
  }

  prepared-initial :
      (runners : Map (EdgeRunner C V)) (g : Graph C V W) (message : C) (world : W)
      (retry : Option RetryOptions) (timeout : Option ℕ) (is_output : Bool)
      → get g.nodes g.start_node_id ≡ some (waiting_node fired now t retry timeout is_output)
      → prepared outside config g.nodes (initial outside runners g message world)
        ≡ first_prep g.start_node_id (waiting_node fired now t retry timeout is_output) message
  unfolding initial prepare prepare_node dequeue_for enqueue active_nodes new_step update_entry
      enter_node remove get insert new_envelope with_target
  prepared-initial runners g message world retry timeout is_output found =
      rw (prepare_node, found, eq_refl g.start_node_id) (rw (eq_refl g.start_node_id) refl)

  -- What the first superstep leaves: the timer, and nothing to do.
  abbrev pub stranded : Map (EdgeRunner C V) → String → W → LoopState C V W
  stranded runners start world =
      let after : Shared C V W = record {
        state_map = [];
        halt_flag = false;
        timers = entry_at now t start world ∷ [];
        outputs = [];
        world = world;
      } in
      record {
        step_ctx = record { queued_messages = []; step_number = 1 };
        shared = after;
        runners = runners;
        execution_log = start ∷ [];
        halt_announced = false;
        total_steps = 1;
        total_nodes = 1;
        made = 1;
        saved =
            save_checkpoint 0 (record { queued_messages = []; step_number = 1 }) runners after [];
      }

  superstep-waits :
      (runners : Map (EdgeRunner C V)) (g : Graph C V W) (message : C) (world : W)
      (retry : Option RetryOptions) (timeout : Option ℕ) (is_output : Bool)
      → RunsAlone outside
      → get g.nodes g.start_node_id ≡ some (waiting_node fired now t retry timeout is_output)
      → fired.read world ≡ false
      → superstep outside config g.nodes (initial outside runners g message world)
        ≡ (stranded runners g.start_node_id world, none)
  unfolding superstep initial settle route_joined conclude route_messages new_step
  superstep-waits runners g message world retry timeout is_output alone found unfired =
      let node = waiting_node fired now t retry timeout is_output in
      let task = first_task g.start_node_id node message in
      let s : Shared C V W = record {
        state_map = [];
        halt_flag = false;
        timers = [];
        outputs = [];
        world = world;
      } in
      let ran : outside.join_all (run_task outside config) (task ∷ []) s
          ≡ (returned (ok (nothing_from g.start_node_id)) ∷ [], scheduled now t g.start_node_id s) =
        alone (run_task outside config) task s
        ∙ ap (λ (r : Result (NodeRun C) × Shared C V W). (returned r.0 ∷ [], r.1))
            (run_task-waits outside config fired now t g.start_node_id retry timeout is_output
              (first_envelope g.start_node_id message) s unfired) in
      rw (superstep, prepared-initial runners g message world retry timeout is_output found, ran)
        refl

  first_pass :
      (commands : Commands C) (runners : Map (EdgeRunner C V)) (g : Graph C V W) (message : C)
      (world : W) (retry : Option RetryOptions) (timeout : Option ℕ) (is_output : Bool)
      → RunsAlone outside
      → get g.nodes g.start_node_id ≡ some (waiting_node fired now t retry timeout is_output)
      → fired.read world ≡ false
      → pass outside config g.nodes commands (initial outside runners g message world)
        ≡ again (stranded runners g.start_node_id world) commands
  unfolding pass initial running_pass fire_due_timers fire_timers has_messages enqueue update_entry
      insert
  first_pass commands runners g message world retry timeout is_output alone found unfired =
      ap (after_superstep outside config g.nodes commands)
        (superstep-waits runners g message world retry timeout is_output alone found unfired)

  last_pass :
      (commands : Commands C) (runners : Map (EdgeRunner C V)) (g : Graph C V W) (world : W)
      → outside.pass_clock 1 1 < now world + t.delay
      → pass outside config g.nodes commands (stranded runners g.start_node_id world)
        ≡ completed (stranded runners g.start_node_id world)
  unfolding pass running_pass fire_due_timers fire_timers has_messages
  last_pass commands runners g world early =
      rw
        (
          running_pass,
          fire_due_timers,
          lt→leb_false (outside.pass_clock 1 1) (now world + t.delay) early,
        )
        refl

  -- A workflow that starts with a timer's node, which is no loop and has not fired, completes
  -- after that one superstep if the timer is not due by the next pass of the loop (a task that
  -- runs alone being given back as it ended): the timer still waits, it never fires, and the
  -- message is not passed on.
  pub execute_loop-stranded :
      (fuel : ℕ) (commands : Commands C) (runners : Map (EdgeRunner C V)) (g : Graph C V W)
      (message : C) (world : W) (retry : Option RetryOptions) (timeout : Option ℕ)
      (is_output : Bool)
      → RunsAlone outside
      → get g.nodes g.start_node_id ≡ some (waiting_node fired now t retry timeout is_output)
      → fired.read world ≡ false
      → outside.pass_clock 1 1 < now world + t.delay
      → execute_loop outside config (suc (suc fuel)) commands runners g message world
        ≡ some (ok tt, stranded runners g.start_node_id world)
  unfolding execute_loop
  execute_loop-stranded fuel commands runners g message world retry timeout is_output alone found
        unfired early =
      run_loop-again outside config g.nodes (suc fuel) commands
        (initial outside runners g message world)
        (first_pass commands runners g message world retry timeout is_output alone found unfired)
      ∙ run_loop-completed_at outside config g.nodes fuel commands
          (stranded runners g.start_node_id world) (last_pass commands runners g world early)
