-- ===== src/Condition/Agreement.antt =====
-- Where the conditions of crates/workflow/src/graph/gateway.rs, of graph/condition.rs and of
-- engine/boundary_event.rs of the same crate agree.
use rust_agent_framework.Common.{
  Bool, true, false, some, List, [], ◌∷◌, map, ◌≡◌, ◌≢◌, ◌⊎◌, inl, inr, refl, arith, Map,
}
use rust_agent_framework.Envelope.{Envelope}
use rust_agent_framework.Condition.{
  JsonView, ComparisonOp, eq, neq, gt, gte, lt, lte, contains, starts, ConditionCombine, all_of,
  any_of, VariableCondition, ExpressionCondition, evaluate_value, read_variable, combined,
  evaluate_expression,
}
use rust_agent_framework.Condition.Boundary.{
  BoundaryEventKind, escalation, compensation, BoundaryEvent, evaluate_boundary,
}
use rust_agent_framework.Condition.Correlation.{metadata_is}
use rust_agent_framework.Condition.Gateway.{
  ComparisonOperator, equals, not_equals, greater_than, greater_than_or_equal, less_than,
  less_than_or_equal, contains as has, starts as begins, SubCondition, ComplexGatewayCondition,
  evaluate_sub, evaluate_complex, evaluate_event_based, new_event_based, with_event_id,
}

-- The kinds that the condition of a boundary event looks for.
abbrev pub listens : BoundaryEventKind → Bool
listens (escalation code) = false
listens compensation = false
listens _ = true

abbrev pub as_op : ComparisonOperator → ComparisonOp
as_op equals = eq
as_op not_equals = neq
as_op greater_than = gt
as_op greater_than_or_equal = gte
as_op less_than = lt
as_op less_than_or_equal = lte
as_op has = contains
as_op begins = starts

module _ {V : Type 0} where
  abbrev pub as_variable : SubCondition V → VariableCondition V
  as_variable c = record {
    variable = c.variable;
    operator = as_op c.operator;
    expected = c.expected;
  }

  -- The condition on variables with the same parts, reading the metadata of a message.
  abbrev pub as_expression : ComplexGatewayCondition V → Map V → ExpressionCondition V
  as_expression c meta = record {
    conditions = map as_variable c.sub_conditions;
    combine = c.combine;
    state_reader = some meta;
  }

module _ {V : Type 0} (view : JsonView V) where
  evaluate_sub-as_variable :
      (c : SubCondition V) (v : V) → evaluate_sub view c v ≡ evaluate_value view (as_variable c) v
  unfolding evaluate_sub evaluate_value
  evaluate_sub-as_variable c v = ground arith

  results-as_variable :
      (meta : Map V) (subs : List (SubCondition V))
      → map (λ c. evaluate_sub view c (read_variable view meta c.variable)) subs
        ≡ map
            (λ c. evaluate_value view c (read_variable view meta c.variable))
            (map as_variable subs)
  results-as_variable meta [] = refl
  results-as_variable meta (c ∷ subs) =
      rw
        (
          evaluate_sub-as_variable c (read_variable view meta c.variable),
          results-as_variable meta subs,
        )
        refl

module _ {C V : Type 0} (view : JsonView V) where
  agree :
      (combine : ConditionCombine) (subs : List (SubCondition V)) (env : Envelope C V)
      → (combine ≡ all_of) ⊎ (subs ≢ [])
      → evaluate_complex view (record { combine = combine; sub_conditions = subs }) env
        ≡ evaluate_expression view
            (as_expression (record { combine = combine; sub_conditions = subs }) env.metadata)
            env
  unfolding evaluate_complex evaluate_expression combined
  agree all_of [] env h = refl
  agree any_of [] env (inl e) = cc
  agree any_of [] env (inr ne) = absurd (ne refl)
  agree combine (c ∷ subs) env h = rw (results-as_variable view env.metadata (c ∷ subs)) refl

  -- A complex gateway decides as the condition on variables with the same parts does that reads the
  -- message's metadata as its variables, but for "any of" no conditions.
  pub evaluate_complex-eq-evaluate_expression :
      (c : ComplexGatewayCondition V) (env : Envelope C V)
      → (c.combine ≡ all_of) ⊎ (c.sub_conditions ≢ [])
      → evaluate_complex view c env ≡ evaluate_expression view (as_expression c env.metadata) env
  evaluate_complex-eq-evaluate_expression c env h = agree c.combine c.sub_conditions env h

  pub evaluate_boundary-eq-evaluate_event_based :
      (event : BoundaryEvent) (env : Envelope C V)
      → listens event.kind ≡ true
      → evaluate_boundary view event env
        ≡ evaluate_event_based view
            (with_event_id event.event_node_id (new_event_based event.kind))
            env
  unfolding evaluate_boundary evaluate_event_based metadata_is
  evaluate_boundary-eq-evaluate_event_based event env h = ground arith
