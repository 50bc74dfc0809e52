-- ===== src/Saga/Samples.antt =====
-- An order with a payment that fails.
use rust_agent_framework.Common.{String, List, [], ◌∷◌, ◌≡◌, refl, tool_error, ok, err}
use rust_agent_framework.Engine.{output}
use rust_agent_framework.Saga.{
  SagaPolicy, backward_recovery, Action, SagaOrchestrator, new_step, with_compensation, execute,
}
use rust_agent_framework.Saga.Recovery.{IsRecovered, execute-IsRecovered}

-- The world is the list of what was done.
abbrev does : String → Action String (List String)
does what msg w = (ok (output what), what ∷ w)

abbrev fails : Action String (List String)
fails msg w = (err (tool_error "declined"), w)

abbrev order : SagaPolicy → SagaOrchestrator String (List String)
order policy = record {
  steps =
      with_compensation (does "cancel") (new_step "order" (does "ordered"))
      ∷ with_compensation (does "release") (new_step "stock" (does "reserved"))
      ∷ new_step "payment" fails
      ∷ [];
  policy = policy;
}

undone :
    (execute "undo" (order backward_recovery) "start" []).1
    ≡ "cancel" ∷ "release" ∷ "reserved" ∷ "ordered" ∷ []
unfolding execute
undone = refl

execute-IsRecovered_example :
    IsRecovered "start" "undo"
      (order backward_recovery).steps
      []
      []
      []
      (execute "undo" (order backward_recovery) "start" [])
execute-IsRecovered_example = execute-IsRecovered "start" "undo" (order backward_recovery) [] refl
