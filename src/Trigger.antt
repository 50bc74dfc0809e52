-- ===== src/Trigger.antt =====
-- Executors that wait: TimerTrigger of crates/workflow/src/engine/timer.rs and IntermediateEvent of
-- crates/workflow/src/engine/boundary_event.rs. Their `Mutex` is a cell of the world; the moment at
-- which a handler runs is read from the world too. Progress events are not kept.
pub mod Waiting
pub mod Stranded
pub mod Catch
pub mod Text
pub mod Cron
mod Samples
use Prim.Native.String.{◌++◌ as text_append}
use rust_agent_framework.Common.{
  ℕ, String, Bool, true, false, Option, none, some, [], ◌∷◌, if◌then◌else◌, ◌==◌, Map, Result, ok,
  ◌≡◌,
}
use rust_agent_framework.Engine.{HandlerResult, messages, nothing, Work, Executor}
use rust_agent_framework.Engine.Context.{schedule_timer, request_halt}

-- `Mutex<A>`: a field of an executor that its calls can change.
pub record Cell (W A : Type 0) : Type 0 where
  pub read : W → A
  pub write : A → W → W
  pub read-write : (a : A) (w : W) → read (write a w) ≡ a

module _ {C V W : Type 0} where
  -- The methods that `IExecutor` gives by default, round `handle` and `on_timer`.
  abbrev pub executor_with :
      (C → Work C V W → Result (HandlerResult C) × Work C V W) → (String → W → W) → Executor C V W
  executor_with handle on_timer = record {
    is_output = false;
    handle = λ timeout message ctx. handle message ctx;
    on_delivery_start = λ w. w;
    on_delivery_end = λ w. w;
    on_timer = on_timer;
    compensate = λ s. s;
  }

  abbrev pub set_world : W → Work C V W → Work C V W
  set_world world ctx = record ctx { shared = record ctx.shared { world = world } }

pub record TimerTrigger : Type 0 where
  pub node_id : String
  pub delay : ℕ
  pub timer_name : String

abbrev pub new_timer : String → ℕ → TimerTrigger
new_timer id delay = record { node_id = id; delay = delay; timer_name = text_append "timer_" id }

abbrev pub with_name : String → TimerTrigger → TimerTrigger
with_name name t = record t { timer_name = name }

pub data EventDefinition : Type 0 where
  timer : Option ℕ → EventDefinition
  signal message error escalation : String → EventDefinition
  compensation : Option String → EventDefinition
  link : String → EventDefinition

pub data IntermediateEventKind : Type 0 where
  catch throw : IntermediateEventKind

pub record IntermediateEvent : Type 0 where
  pub node_id : String
  pub event_def : EventDefinition
  pub kind : IntermediateEventKind

module _ {W : Type 0} (fired : Cell W Bool) where
  -- `on_timer` of both: only the own timer counts.
  unfoldable pub note_timer : String → String → W → W
  note_timer own timer_name w = if timer_name == own then fired.write true w else w

module _ {C V W : Type 0} (fired : Cell W Bool) where
  -- `TimerTrigger::handle`
  unfoldable pub handle_timer :
      (W → ℕ) → TimerTrigger → C → Work C V W → Result (HandlerResult C) × Work C V W
  unfolding schedule_timer
  handle_timer now t msg ctx =
      if fired.read ctx.shared.world
      then (ok (messages (msg ∷ [])), set_world (fired.write false ctx.shared.world) ctx)
      else (ok nothing, schedule_timer t.timer_name (now ctx.shared.world) t.delay ctx)

  abbrev pub timer_executor : (W → ℕ) → TimerTrigger → Executor C V W
  timer_executor now t = executor_with (handle_timer now t) (note_timer fired t.timer_name)

  -- What a catching event does while it waits.
  unfoldable pub wait_for : (W → ℕ) → IntermediateEvent → Work C V W → Work C V W
  unfolding schedule_timer request_halt
  wait_for now e ctx = elim e.event_def [
    | timer none ↦ ctx
    | timer (some delay) ↦ schedule_timer e.node_id (now ctx.shared.world) delay ctx
    | signal name ↦ request_halt ctx
    | message name ↦ request_halt ctx
    | error code ↦ request_halt ctx
    | escalation code ↦ ctx
    | compensation activity ↦ ctx
    | link name ↦ ctx
  ]

  -- `IntermediateEvent::handle`
  unfoldable pub handle_event :
      (W → ℕ) → IntermediateEvent → C → Work C V W → Result (HandlerResult C) × Work C V W
  unfolding wait_for
  handle_event now e msg ctx = elim e.kind [
    | throw ↦ (ok (messages (msg ∷ [])), ctx)
    | catch ↦
        if fired.read ctx.shared.world
        then (ok (messages (msg ∷ [])), set_world (fired.write false ctx.shared.world) ctx)
        else (ok nothing, wait_for now e ctx)
  ]

  abbrev pub event_executor : (W → ℕ) → IntermediateEvent → Executor C V W
  event_executor now e = executor_with (handle_event now e) (note_timer fired e.node_id)
