-- ===== src/Condition.antt =====
-- crates/workflow/src/graph/condition.rs: conditions of edges on the variables of a workflow.
-- What the code asks of a `serde_json::Value`, and the order of its floats, are the parameter
-- `JsonView`. A `state_reader` is the state map that it holds when it is asked.
pub mod Gateway
pub mod Correlation
pub mod Boundary
pub mod Agreement
pub mod Matching
pub mod Dead
mod Samples
use text.Mathlib.Text.{starts_with, find?}
use rust_agent_framework.Common.{
  String, Bool, true, false, not, is_some, Option, none, some, List, [], ◌∷◌, map, all, any, Map,
  get, or_default, Result, ok,
}
use rust_agent_framework.Envelope.{Envelope}

pub record JsonView (V : Type 0) : Type 1 where
  pub Float : Type 0
  pub null : V
  pub equal : V → V → Bool
  pub as_str : V → Option String
  pub as_bool : V → Option Bool
  pub as_f64 : V → Option Float
  pub less : Float → Float → Bool
  pub less_equal : Float → Float → Bool

pub data ComparisonOp : Type 0 where
  eq neq gt gte lt lte contains starts : ComparisonOp

pub data ConditionCombine : Type 0 where
  all_of any_of : ConditionCombine

pub record VariableCondition (V : Type 0) : Type 0 where
  pub variable : String
  pub operator : ComparisonOp
  pub expected : V

-- `str::contains`
abbrev pub has_text : String → String → Bool
has_text s part = is_some (find? s part)

module _ {V : Type 0} (view : JsonView V) where
  open view use {Float, null, equal, as_str, as_f64, less, less_equal}

  abbrev pub text_or_empty : V → String
  text_or_empty v = or_default "" (as_str v)

  -- An order holds between two numbers only.
  abbrev pub both : (Float → Float → Bool) → Option Float → Option Float → Bool
  both test (some a) (some e) = test a e
  both test (some a) none = false
  both test none e = false

  unfoldable pub evaluate_value : VariableCondition V → V → Bool
  evaluate_value c actual = elim c.operator [
    | eq ↦ equal actual c.expected
    | neq ↦ not (equal actual c.expected)
    | contains ↦ has_text (text_or_empty actual) (text_or_empty c.expected)
    | starts ↦ starts_with (text_or_empty actual) (text_or_empty c.expected)
    | gt ↦ both (λ a e. less e a) (as_f64 actual) (as_f64 c.expected)
    | gte ↦ both (λ a e. less_equal e a) (as_f64 actual) (as_f64 c.expected)
    | lt ↦ both less (as_f64 actual) (as_f64 c.expected)
    | lte ↦ both less_equal (as_f64 actual) (as_f64 c.expected)
  ]

  -- `state.get(&variable).cloned().unwrap_or(Null)`
  unfoldable pub read_variable : Map V → String → V
  unfolding get
  read_variable state variable = or_default null (get state variable)

pub record VariableEdgeCondition (V : Type 0) : Type 0 where
  pub condition : VariableCondition V
  pub state_reader : Option (Map V)

abbrev pub variable_edge_condition :
    {V : Type 0} → String → ComparisonOp → V → VariableEdgeCondition V
variable_edge_condition variable operator expected = record {
  condition = record { variable = variable; operator = operator; expected = expected };
  state_reader = none;
}

pub record ExpressionCondition (V : Type 0) : Type 0 where
  pub conditions : List (VariableCondition V)
  pub combine : ConditionCombine
  pub state_reader : Option (Map V)

module _ {V : Type 0} where
  abbrev pub expression_all_of : List (VariableCondition V) → ExpressionCondition V
  expression_all_of conditions = record {
    conditions = conditions;
    combine = all_of;
    state_reader = none;
  }

  abbrev pub expression_any_of : List (VariableCondition V) → ExpressionCondition V
  expression_any_of conditions = record {
    conditions = conditions;
    combine = any_of;
    state_reader = none;
  }

  abbrev pub with_state_reader : Map V → ExpressionCondition V → ExpressionCondition V
  with_state_reader reader c = record c { state_reader = some reader }

-- `results.iter().all(..)` or `.any(..)`
unfoldable pub combined : ConditionCombine → List Bool → Bool
combined all_of results = all (λ r. r) results
combined any_of results = any (λ r. r) results

module _ {C V : Type 0} (view : JsonView V) where
  unfoldable pub evaluate_variable_edge : VariableEdgeCondition V → Envelope C V → Result Bool
  unfolding evaluate_value read_variable
  evaluate_variable_edge c env = elim c.state_reader [
    | some state ↦
        ok (evaluate_value view c.condition (read_variable view state c.condition.variable))
    | none ↦ ok false
  ]

  unfoldable pub evaluate_expression : ExpressionCondition V → Envelope C V → Result Bool
  unfolding evaluate_value read_variable combined
  evaluate_expression c env = elim c.conditions [
    | [] ↦ ok true
    | first ∷ rest ↦ elim c.state_reader [
      | none ↦ ok false
      | some state ↦ ok (
          combined c.combine (
            map (λ cond. evaluate_value view cond (read_variable view state cond.variable))
              (first ∷ rest)))
    ]
  ]
