-- ===== src/Process/Definition/Samples.antt =====
-- A process with a gateway and a boundary event.

use rust_agent_framework.Common.{ℕ, none, some, [], ◌∷◌, ◌≡◌, refl, ok, ltb, leb, nat_eq}
use rust_agent_framework.Retry.{exponential, all_errors, fail}
use rust_agent_framework.Condition.{JsonView}
use rust_agent_framework.Process.Definition.{
  start_node, end_node, service_task, exclusive_gateway, RetryDef, EdgeConditionDef,
  ProcessDefinition, retry_options, validate,
}
use rust_agent_framework.Process.Definition.Compile.{Tables}
use rust_agent_framework.Process.Definition.Compile.Outcome.{IsCompiled, compile-IsCompiled}

-- JSON numbers alone.
abbrev view : JsonView ℕ
view = record {
  Float = ℕ;
  null = 0;
  equal = nat_eq;
  as_str = λ v. none;
  as_bool = λ v. none;
  as_f64 = λ v. some v;
  less = ltb;
  less_equal = leb;
}

abbrev tables : Tables ℕ
tables = record { which = λ s. 0; walk = λ m. m }

abbrev patient : RetryDef
patient = record { max_retries = 2; backoff_ms = 100; max_backoff_ms = 50 }

patient_options : retry_options patient ≡ record {
  max_retries = 2;
  backoff = exponential 100_000_000 1_000_000_000;
  retry_on = all_errors;
  on_exhausted = fail;
}
unfolding retry_options
patient_options = refl

abbrev score_is_high : EdgeConditionDef ℕ
score_is_high = record {
  condition_type = "variable";
  expression = none;
  variable = some "score";
  operator = some ">=";
  expected = some 80;
}

abbrev definition : ProcessDefinition ℕ
definition = record {
  id = "review";
  nodes =
      record { id = "start"; kind = start_node; retry = none; timeout_ms = none }
      ∷ record { id = "gate"; kind = exclusive_gateway; retry = none; timeout_ms = none }
      ∷ record { id = "a"; kind = service_task; retry = some patient; timeout_ms = some 5 }
      ∷ record { id = "end"; kind = end_node; retry = none; timeout_ms = none }
      ∷ [];
  edges =
      record { id = "e1"; source = "start"; target = "gate"; condition = none }
      ∷ record { id = "e2"; source = "gate"; target = "a"; condition = some score_is_high }
      ∷ record { id = "e3"; source = "gate"; target = "end"; condition = none }
      ∷ record { id = "e4"; source = "a"; target = "end"; condition = none }
      ∷ [];
  variables = [];
  events = record { attached_to = "a"; event_node_id = "late"; kind = "timer" } ∷ [];
}

passes : validate definition ≡ ok tt
unfolding validate
passes = refl

compile-IsCompiled_example : IsCompiled ℕ view tables (λ m x e. e) definition
compile-IsCompiled_example =
    compile-IsCompiled ℕ view tables (λ m x e. e) definition passes (refl, tt)
