-- ===== src/Process/Samples.antt =====
-- A process that runs, pauses, goes on and completes.
use rust_agent_framework.Common.{ℕ, true, false, none, some, List, [], ◌∷◌, ◌≡◌, refl}
use rust_agent_framework.Process.{
  created, completed, VariableDef, ProcessInstance, new_instance, start, suspend, resume, complete,
}
use rust_agent_framework.Process.Lifecycle.{
  Operation, starting, suspending, resuming, completing, Ends, operate-Ends, history,
}

abbrev fields : List (VariableDef ℕ)
fields =
    record { name = "total"; default_value = none; required = true }
    ∷ record { name = "rate"; default_value = some 7; required = false }
    ∷ record { name = "note"; default_value = none; required = false }
    ∷ []

abbrev process : ProcessInstance ℕ
process = record {
  id = "p1";
  definition_id = "order";
  state = created;
  variables = ("total", 0) ∷ ("rate", 7) ∷ [];
  created_at = 3;
  updated_at = 3;
}

declares : new_instance 0 "p1" "order" fields 3 3 ≡ process
unfolding new_instance
declares = refl

abbrev days : List (Operation ℕ × ℕ)
days = (starting, 4) ∷ (suspending, 5) ∷ (completing, 6) ∷ (resuming, 7) ∷ (completing, 8) ∷ []

completes : history days process ≡ record process { state = completed; updated_at = 8 }
unfolding start suspend resume complete
completes = refl

operate-Ends_example : Ends completing 9 process
operate-Ends_example = operate-Ends completing 9 process tt

abbrev finished : ProcessInstance ℕ
finished = record process { state = completed; updated_at = 8 }
