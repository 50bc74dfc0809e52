-- ===== src/Runner/Samples.antt =====
-- A fan-in edge from two writers to an editor.
use mathlib.Core.List.{Perm}
use rust_agent_framework.Common.{
  ℕ, String, none, some, List, [], ◌∷◌, ◌++◌, here, there, ◌≡◌, refl, Map, ◌⊎◌, eq-false→≢,
  contains_key, update_entry,
}
use rust_agent_framework.Envelope.{Envelope, type_tag, new_envelope}
use rust_agent_framework.Graph.Edges.{FanInEdgeData}
use rust_agent_framework.Runner.Routes.{AllDeliverable, chase-AllDeliverable}
use rust_agent_framework.Runner.{
  EdgeRunner, fan_out_runner, chase, deliver_to, buffered, chase_fan_in, checkpoint_state,
  fan_in_runner,
}
use rust_agent_framework.Runner.Barrier.{
  envelopes, run_barrier, run_barrier-perm, run_barrier_starves,
}
use rust_agent_framework.Runner.Opening.{IsOpen, IsShut, chase_fan_in_opens}

abbrev from : String → String → Envelope String String
from source text = new_envelope "id" 0 source text (type_tag "String")

abbrev both : FanInEdgeData
both = record {
  edge_id = "edge_0";
  source_ids = "anna" ∷ "ben" ∷ [];
  sink_id = "editor";
  label = none;
}

abbrev staff : Map ℕ
staff = ("anna", 0) ∷ ("ben", 1) ∷ ("editor", 2) ∷ []

abbrev letters : List (Envelope String String)
letters = from "anna" "one" ∷ from "anna" "two" ∷ from "ben" "three" ∷ from "ben" "four" ∷ []

-- The third letter opens the barrier, and the fourth waits for the next round.
letters_pass : run_barrier staff both [] letters ≡ (
  deliver_to (from "anna" "one") "editor"
      ∷ deliver_to (from "anna" "two") "editor"
      ∷ deliver_to (from "ben" "three") "editor"
      ∷ [],
  ("ben", from "ben" "four" ∷ []) ∷ [],
)
unfolding chase_fan_in new_envelope
letters_pass = refl

run_barrier-perm_example :
    Perm
      (envelopes (run_barrier staff both [] letters).0
        ++ buffered (run_barrier staff both [] letters).1)
      letters
run_barrier-perm_example = run_barrier-perm staff both [] letters

abbrev held : Map (List (Envelope String String))
held = ("anna", from "anna" "one" ∷ []) ∷ []

chase_fan_in_opens_example :
    let message = from "ben" "two" in
    IsOpen staff both held message (chase_fan_in staff both held message)
    ⊎ IsShut staff both held message (chase_fan_in staff both held message)
chase_fan_in_opens_example = chase_fan_in_opens staff both held (from "ben" "two")

run_barrier_starves_example :
    (run_barrier staff both held (from "anna" "two" ∷ from "anna" "three" ∷ [])).0 ≡ []
unfolding new_envelope contains_key update_entry
run_barrier_starves_example =
    run_barrier_starves staff both "ben" held (from "anna" "two" ∷ from "anna" "three" ∷ [])
      (there (here refl)) refl (eq-false→≢ "anna" "ben" refl, (eq-false→≢ "anna" "ben" refl, tt))

-- An assigner that names a stranger.
abbrev careless : EdgeRunner String String
careless = fan_out_runner (record {
  edge_id = "edge_1";
  source_id = "editor";
  sink_ids = "anna" ∷ [];
  label = none;
  assigner = some (λ env. "stranger" ∷ "ben" ∷ []);
})

chase-AllDeliverable_example : AllDeliverable staff (chase staff careless (from "editor" "back")).0
chase-AllDeliverable_example = chase-AllDeliverable staff careless (from "editor" "back")

-- Two barriers with as many messages of each source are saved as the same.
saves_no_message :
    (object_of : Map ℕ → String)
    → checkpoint_state object_of (fan_in_runner both (("anna", from "anna" "one" ∷ []) ∷ []))
      ≡ checkpoint_state object_of (fan_in_runner both (("anna", from "anna" "two" ∷ []) ∷ []))
unfolding checkpoint_state
saves_no_message object_of = refl
