-- ===== src/Step/Samples.antt =====
-- A step with messages for two nodes.
use rust_agent_framework.Common.{String, List, [], ◌∷◌, ◌≡◌, refl, ok, get}
use rust_agent_framework.Envelope.{Envelope, type_tag, new_envelope, with_target}
use rust_agent_framework.Codec.{Content}
use rust_agent_framework.Codec.Samples.{sample_serde, chat_envelope}
use rust_agent_framework.Step.{
  StepContext, new_step, enqueue, enqueue_batch, serialize_pending, from_serialized,
}
use rust_agent_framework.Step.Queues.{pending, pending-enqueue_batch}
use rust_agent_framework.Step.Restore.{from_serialized-serialize_pending}

abbrev to : String → String → Envelope String String
to target text = with_target (new_envelope "id" 0 "anna" text (type_tag "String")) target

abbrev mail : List (Envelope String String)
mail = to "ben" "one" ∷ to "carl" "two" ∷ to "ben" "three" ∷ []

abbrev waiting : StepContext String String
waiting = enqueue (to "ben" "zero") (new_step 4)

pending-enqueue_batch_example :
    pending (enqueue_batch mail waiting) "ben"
    ≡ to "ben" "zero" ∷ to "ben" "one" ∷ to "ben" "three" ∷ []
unfolding new_step enqueue with_target new_envelope
pending-enqueue_batch_example = pending-enqueue_batch mail waiting "ben"

abbrev chat_step : StepContext (Content sample_serde) (List String)
chat_step = record {
  queued_messages =
      ("planner", with_target chat_envelope "planner" ∷ [])
      ∷ ("broadcast", chat_envelope ∷ [])
      ∷ [];
  step_number = 2;
}

from_serialized-serialize_pending_example :
    (restored : StepContext (Content sample_serde) (List String)) × (from_serialized sample_serde 5
        (serialize_pending sample_serde chat_step)
      ≡ ok restored)
    × (restored.step_number ≡ 5)
    × ((id : String) → pending restored id ≡ pending chat_step id)
unfolding new_envelope with_target type_tag get
from_serialized-serialize_pending_example =
    from_serialized-serialize_pending sample_serde 5 chat_step
      (λ e. cc, (refl, tt), refl, (λ e. cc, (refl, tt), refl, tt))
      (
        (refl, ("message" ∷ "hello" ∷ [], refl, refl)),
        ((refl, ("message" ∷ "hello" ∷ [], refl, refl)), tt),
      )
