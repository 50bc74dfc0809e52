-- ===== src/Condition/Gateway.antt =====
-- crates/workflow/src/graph/gateway.rs: the conditions of event-based and complex gateways, which
-- read the metadata of a message.
use text.Mathlib.Text.{starts_with}
use rust_agent_framework.Common.{
  String, Bool, true, false, not, ◌==◌, Option, none, some, List, map, Map, get, or_default, Result,
  ok,
}
use rust_agent_framework.Envelope.{Envelope}
use rust_agent_framework.Condition.{
  JsonView, ConditionCombine, all_of, any_of, has_text, text_or_empty, both, read_variable,
  combined,
}
use rust_agent_framework.Condition.Correlation.{metadata_is}
use rust_agent_framework.Condition.Boundary.{
  BoundaryEventKind, timer, error, signal, message, escalation, compensation,
}

pub record EventBasedGatewayCondition : Type 0 where
  pub expected_kind : BoundaryEventKind
  pub event_id : Option String

abbrev pub new_event_based : BoundaryEventKind → EventBasedGatewayCondition
new_event_based kind = record { expected_kind = kind; event_id = none }

abbrev pub with_event_id : String → EventBasedGatewayCondition → EventBasedGatewayCondition
with_event_id id c = record c { event_id = some id }

-- `event_id.as_ref().map_or(true, |eid| v == eid)`
abbrev pub is_event : Option String → String → Bool
is_event none v = true
is_event (some id) v = v == id

module _ {V : Type 0} (view : JsonView V) where
  abbrev pub metadata_text : Map V → String → Option String
  metadata_text meta key = elim (get meta key) [ none ↦ none | some v ↦ view.as_str v ]

  abbrev pub metadata_flag : Map V → String → Option Bool
  metadata_flag meta key = elim (get meta key) [ none ↦ none | some v ↦ view.as_bool v ]

  unfoldable pub evaluate_event_based :
      {C : Type 0} → EventBasedGatewayCondition → Envelope C V → Result Bool
  unfolding metadata_is get
  evaluate_event_based c env = elim c.expected_kind [
    | timer timeout ↦ elim (metadata_text env.metadata "boundary_timer_fired") [
      | none ↦ ok false
      | some v ↦ ok (is_event c.event_id v)
    ]
    | error code ↦ ok (metadata_is view env.metadata "error_code" code)
    | signal name ↦ ok (metadata_is view env.metadata "signal_name" name)
    | message name ↦ ok (metadata_is view env.metadata "message_name" name)
    | escalation code ↦ ok (metadata_is view env.metadata "escalation_code" code)
    | compensation ↦ ok (or_default false (metadata_flag env.metadata "compensation_triggered"))
  ]

pub data ComparisonOperator : Type 0 where
  equals not_equals greater_than greater_than_or_equal less_than less_than_or_equal contains
        starts :
      ComparisonOperator

pub record SubCondition (V : Type 0) : Type 0 where
  pub variable : String
  pub operator : ComparisonOperator
  pub expected : V

-- The gateway has a `ConditionCombine` of its own, with the same two cases.
pub record ComplexGatewayCondition (V : Type 0) : Type 0 where
  pub combine : ConditionCombine
  pub sub_conditions : List (SubCondition V)

module _ {V : Type 0} where
  abbrev pub complex_all_of : List (SubCondition V) → ComplexGatewayCondition V
  complex_all_of subs = record { combine = all_of; sub_conditions = subs }

  abbrev pub complex_any_of : List (SubCondition V) → ComplexGatewayCondition V
  complex_any_of subs = record { combine = any_of; sub_conditions = subs }

module _ {V : Type 0} (view : JsonView V) where
  open view use {equal, as_f64, less, less_equal}

  unfoldable pub evaluate_sub : SubCondition V → V → Bool
  evaluate_sub c actual = elim c.operator [
    | equals ↦ equal actual c.expected
    | not_equals ↦ not (equal actual c.expected)
    | contains ↦ has_text (text_or_empty view actual) (text_or_empty view c.expected)
    | starts ↦ starts_with (text_or_empty view actual) (text_or_empty view c.expected)
    | greater_than ↦ both view (λ a e. less e a) (as_f64 actual) (as_f64 c.expected)
    | greater_than_or_equal ↦ both view (λ a e. less_equal e a) (as_f64 actual) (as_f64 c.expected)
    | less_than ↦ both view less (as_f64 actual) (as_f64 c.expected)
    | less_than_or_equal ↦ both view less_equal (as_f64 actual) (as_f64 c.expected)
  ]

  unfoldable pub evaluate_complex :
      {C : Type 0} → ComplexGatewayCondition V → Envelope C V → Result Bool
  unfolding evaluate_sub read_variable combined
  evaluate_complex c env = ok (
      combined c.combine (
        map (λ cond. evaluate_sub cond (read_variable view env.metadata cond.variable))
          c.sub_conditions))
