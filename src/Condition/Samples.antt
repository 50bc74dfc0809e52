-- ===== src/Condition/Samples.antt =====
-- Messages about orders, and the conditions that they meet.
use rust_agent_framework.Common.{
  ℕ, String, Bool, true, false, Option, none, some, List, [], ◌∷◌, ◌≡◌, ◌≢◌, refl, inl, All, ltb,
  leb, nat_eq, ◌==◌, Map, ok, ◌↔◌,
}
use rust_agent_framework.Envelope.{Envelope}
use rust_agent_framework.Graph.Edges.{DirectEdgeData, direct}
use rust_agent_framework.Runner.{create_edge_runner, chase}
use rust_agent_framework.Engine.{Outside}
use rust_agent_framework.Engine.Route.{Routing, make_envelope}
use rust_agent_framework.Condition.{
  JsonView, evaluate_expression, expression_any_of, with_state_reader,
}
use rust_agent_framework.Condition.Gateway.{
  SubCondition, greater_than, equals, complex_any_of, complex_all_of, evaluate_complex,
  new_event_based,
}
use rust_agent_framework.Condition.Boundary.{escalation, evaluate_boundary, new_boundary_event}
use rust_agent_framework.Condition.Gateway.{evaluate_event_based}
use rust_agent_framework.Condition.Correlation.{CorrelationKey, matches, new_correlation}
use rust_agent_framework.Condition.Agreement.{
  as_expression, evaluate_complex-eq-evaluate_expression,
}
use rust_agent_framework.Condition.Matching.{wanted, Holds, matches_iff}
use rust_agent_framework.Condition.Dead.{
  on_correlation, guard_condition, guarded_edge-never_delivers,
}

data Json : Type 0 where
  nil : Json
  flag : Bool → Json
  num : ℕ → Json
  str : String → Json

abbrev same : Json → Json → Bool
same (num a) (num b) = nat_eq a b
same (str a) (str b) = a == b
same nil nil = true
same (flag true) (flag b) = b
same _ _ = false

abbrev str_of : Json → Option String
str_of (str s) = some s
str_of _ = none

abbrev flag_of : Json → Option Bool
flag_of (flag b) = some b
flag_of _ = none

abbrev num_of : Json → Option ℕ
num_of (num n) = some n
num_of _ = none

abbrev view : JsonView Json
view = record {
  Float = ℕ;
  null = nil;
  equal = same;
  as_str = str_of;
  as_bool = flag_of;
  as_f64 = num_of;
  less = ltb;
  less_equal = leb;
}

abbrev order : Envelope String Json
order = record {
  message_id = "m1";
  source_node_id = "shop";
  target_node_id = none;
  content = "order";
  tag = record { type_name = "String"; type_version = none };
  metadata =
      ("amount", num 200)
      ∷ ("approved", flag true)
      ∷ ("business_key", str "order-1")
      ∷ ("kind", str "payment")
      ∷ ("error_code", str "TIMEOUT")
      ∷ [];
  created_at = 0;
}

abbrev amount_and_approval : List (SubCondition Json)
amount_and_approval =
    record { variable = "amount"; operator = greater_than; expected = num 100 }
    ∷ record { variable = "approved"; operator = equals; expected = flag true }
    ∷ []

approves : evaluate_complex view (complex_all_of amount_and_approval) order ≡ ok true
unfolding evaluate_complex
approves = refl

-- "Any of" no conditions: the two kinds of conditions differ.
complex_none : evaluate_complex view (complex_any_of []) order ≡ ok false
unfolding evaluate_complex
complex_none = refl

expression_none :
    evaluate_expression view (with_state_reader [] (expression_any_of [])) order ≡ ok true
unfolding evaluate_expression
expression_none = refl

-- An escalation is seen by the event gateway and not by the boundary event.
abbrev escalated : Envelope String Json
escalated = record order { metadata = ("escalation_code", str "E1") ∷ [] }

escalation_seen : evaluate_event_based view (new_event_based (escalation "E1")) escalated ≡ ok true
unfolding evaluate_event_based
escalation_seen = refl

escalation_missed :
    evaluate_boundary view (new_boundary_event "n" (escalation "E1") "b") escalated ≡ ok false
unfolding evaluate_boundary
escalation_missed = refl

evaluate_complex-eq-evaluate_expression_example :
    evaluate_complex view (complex_all_of amount_and_approval) order
    ≡ evaluate_expression view
        (as_expression (complex_all_of amount_and_approval) order.metadata)
        order
evaluate_complex-eq-evaluate_expression_example =
    evaluate_complex-eq-evaluate_expression view (complex_all_of amount_and_approval) order
      (inl refl)

abbrev key : CorrelationKey
key = record {
  business_key = some "order-1";
  process_id = none;
  custom_keys = ("kind", "payment") ∷ [];
}

matches_iff_example : (matches view key order ≡ true) ↔ All (Holds view order.metadata) (wanted key)
matches_iff_example = matches_iff view key order

abbrev outside : Outside String Json ℕ
outside = record {
  of_text = λ s. s;
  type_name = λ c. "String";
  as_i64 = num_of;
  of_i32 = num;
  uuid = λ n. "u";
  clock = λ n. n;
  pass_clock = λ steps n. n;
  join_all = λ run tasks shared. ([], shared);
}

asks : wanted key ≢ []
asks e = cc e

abbrev edge : DirectEdgeData String Json
edge = record {
  edge_id = "e1";
  source_id = "shop";
  sink_id = "bank";
  label = none;
  condition = some (guard_condition view (on_correlation (new_correlation key) asks));
  is_loopback = false;
}

abbrev routing : Routing String Json
routing = record {
  runners = [];
  next_ctx = record { queued_messages = []; step_number = 0 };
  routed_total = 0;
  made = 0;
}

abbrev banks : Map ℕ
banks = ("bank", 0) ∷ []

guarded_edge-never_delivers_example :
    chase banks (create_edge_runner (direct edge)) (make_envelope outside "shop" "order" routing)
    ≡ (ok [], create_edge_runner (direct edge))
guarded_edge-never_delivers_example =
    guarded_edge-never_delivers view banks outside (on_correlation (new_correlation key) asks) edge
      "shop" "order" routing refl
