-- ===== src/Condition/Boundary.antt =====
-- crates/workflow/src/engine/boundary_event.rs: the kinds of boundary events, and the condition of
-- an edge that leads to the handler of one.
use rust_agent_framework.Common.{ℕ, String, Bool, true, false, Result, ok}
use rust_agent_framework.Envelope.{Envelope}
use rust_agent_framework.Condition.Correlation.{metadata_is}
use rust_agent_framework.Condition.{JsonView}

pub data BoundaryEventKind : Type 0 where
  timer : ℕ → BoundaryEventKind
  error signal message escalation : String → BoundaryEventKind
  compensation : BoundaryEventKind

pub record BoundaryEvent : Type 0 where
  pub attached_to : String
  pub kind : BoundaryEventKind
  pub interrupting : Bool
  pub event_node_id : String

abbrev pub new_boundary_event : String → BoundaryEventKind → String → BoundaryEvent
new_boundary_event attached_to kind event_node_id = record {
  attached_to = attached_to;
  kind = kind;
  interrupting = true;
  event_node_id = event_node_id;
}

abbrev pub non_interrupting : BoundaryEvent → BoundaryEvent
non_interrupting e = record e { interrupting = false }

abbrev pub timer_event : String → ℕ → String → BoundaryEvent
timer_event attached_to timeout id = new_boundary_event attached_to (timer timeout) id

abbrev pub error_event : String → String → String → BoundaryEvent
error_event attached_to code id = new_boundary_event attached_to (error code) id

abbrev pub signal_event : String → String → String → BoundaryEvent
signal_event attached_to name id = new_boundary_event attached_to (signal name) id

module _ {C V : Type 0} (view : JsonView V) where
  -- `BoundaryEventCondition`; its only field is the event.
  unfoldable pub evaluate_boundary : BoundaryEvent → Envelope C V → Result Bool
  unfolding metadata_is
  evaluate_boundary event env = elim event.kind [
    | error code ↦ ok (metadata_is view env.metadata "error_code" code)
    | signal name ↦ ok (metadata_is view env.metadata "signal_name" name)
    | message name ↦ ok (metadata_is view env.metadata "message_name" name)
    | timer timeout ↦ ok (metadata_is view env.metadata "boundary_timer_fired" event.event_node_id)
    | escalation code ↦ ok false
    | compensation ↦ ok false
  ]
