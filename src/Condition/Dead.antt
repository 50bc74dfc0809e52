-- ===== src/Condition/Dead.antt =====
-- Conditions on the edges of a running workflow: what crates/workflow/src/engine/engine.rs shows to
-- those of graph/condition.rs, graph/gateway.rs, engine/correlation.rs and
-- engine/boundary_event.rs of the same crate.
use rust_agent_framework.Common.{
  String, false, Option, some, [], ◌∷◌, ◌≡◌, ◌≢◌, subst, refl, arith, Map, get, All, ok, ap,
  Bool-cases, inl, inr,
}
use rust_agent_framework.Envelope.{Envelope, new_envelope}
use rust_agent_framework.Graph.Edges.{DirectEdgeData, direct, EdgeCondition}
use rust_agent_framework.Runner.{create_edge_runner, chase, chase_direct}
use rust_agent_framework.Engine.{Outside}
use rust_agent_framework.Engine.Route.{Routing, make_envelope}
use rust_agent_framework.Condition.{
  JsonView, ComparisonOp, variable_edge_condition, evaluate_variable_edge,
}
use rust_agent_framework.Condition.Boundary.{
  BoundaryEvent, BoundaryEventKind, timer, error, signal, message, escalation, compensation,
  evaluate_boundary,
}
use rust_agent_framework.Condition.Correlation.{
  MessageCorrelation, evaluate_correlation, metadata_is, matches,
}
use rust_agent_framework.Condition.Gateway.{EventBasedGatewayCondition, evaluate_event_based}
use rust_agent_framework.Condition.Matching.{wanted, matches_iff, Holds, text_at}

-- The conditions that read the metadata of a message, and a condition on a variable as its
-- constructor makes it.
pub data Guard (V : Type 0) : Type 0 where
  on_variable : String → ComparisonOp → V → Guard V
  on_boundary : BoundaryEvent → Guard V
  on_event : EventBasedGatewayCondition → Guard V
  on_correlation : (c : MessageCorrelation) → wanted c.key ≢ [] → Guard V

module _ {V : Type 0} (view : JsonView V) where
  metadata_is-empty :
      (meta : Map V) (key value : String) → meta ≡ [] → metadata_is view meta key value ≡ false
  unfolding metadata_is get
  metadata_is-empty meta key value e = rw e refl

  nothing_at : (k v : String) (meta : Map V) → meta ≡ [] → text_at view meta k ≢ some v
  unfolding get
  nothing_at k v meta e h = cc (subst (λ m. text_at view m k ≡ some v) e h)

module _ {C V : Type 0} (view : JsonView V) where
  abbrev pub guard_condition : Guard V → EdgeCondition C V
  guard_condition (on_variable variable op expected) =
      evaluate_variable_edge view (variable_edge_condition variable op expected)
  guard_condition (on_boundary event) = evaluate_boundary view event
  guard_condition (on_event c) = evaluate_event_based view c
  guard_condition (on_correlation c asks) = evaluate_correlation view c

  no_match :
      (pairs : Map String) (env : Envelope C V)
      → env.metadata ≡ []
      → pairs ≢ []
      → All (Holds view env.metadata) pairs
      → ⊥
  unfolding get
  no_match [] env e asks h = asks refl
  no_match ((k, v) ∷ pairs) env e asks h = absurd (nothing_at view k v env.metadata e h.0)

  boundary-false :
      (event : BoundaryEvent) (env : Envelope C V)
      → env.metadata ≡ []
      → evaluate_boundary view event env ≡ ok false
  unfolding evaluate_boundary
  boundary-false event env e = grind (arith, metadata_is-empty view)

  event-false :
      (kind : BoundaryEventKind) (id : Option String) (env : Envelope C V)
      → env.metadata ≡ []
      → evaluate_event_based view (record { expected_kind = kind; event_id = id }) env ≡ ok false
  unfolding evaluate_event_based metadata_is get
  event-false (timer timeout) id env e = rw e refl
  event-false (error code) id env e = rw e refl
  event-false (signal name) id env e = rw e refl
  event-false (message name) id env e = rw e refl
  event-false (escalation code) id env e = rw e refl
  event-false compensation id env e = rw e refl

  guard-false :
      (g : Guard V) (env : Envelope C V) → env.metadata ≡ [] → guard_condition g env ≡ ok false
  unfolding evaluate_variable_edge evaluate_correlation
  guard-false (on_variable variable op expected) env e = refl
  guard-false (on_boundary event) env e = boundary-false event env e
  guard-false (on_event c) env e = event-false c.expected_kind c.event_id env e
  guard-false (on_correlation c asks) env e = elim (Bool-cases (matches view c.key env)) [
    | inr apart ↦ ap (λ b. ok b) apart
    | inl fits ↦ absurd (no_match (wanted c.key) env e asks ((matches_iff view c.key env).0 fits))
  ]

  chase_direct_closed :
      {X : Type 0} (nodes : Map X) (d : DirectEdgeData C V) (env : Envelope C V)
      (condition : EdgeCondition C V)
      → d.condition ≡ some condition
      → condition env ≡ ok false
      → chase_direct nodes d env ≡ ok []
  unfolding chase_direct
  chase_direct_closed nodes d env condition e closed = rw (e, chase_direct) (rw closed refl)

  -- In a running workflow an edge with such a condition never delivers: the envelopes that the
  -- engine makes of what a node produced have no metadata, and a condition on a variable has
  -- nothing to read it from.
  pub guarded_edge-never_delivers :
      {X W : Type 0} (nodes : Map X) (outside : Outside C V W) (g : Guard V)
      (d : DirectEdgeData C V) (source : String) (msg : C) (r : Routing C V)
      → d.condition ≡ some (guard_condition g)
      → chase nodes (create_edge_runner (direct d)) (make_envelope outside source msg r)
        ≡ (ok [], create_edge_runner (direct d))
  unfolding chase create_edge_runner new_envelope
  guarded_edge-never_delivers nodes outside g d source msg r e =
      let env = make_envelope outside source msg r in
      rw (chase_direct_closed nodes d env (guard_condition g) e (guard-false g env refl)) refl
