-- ===== src/Step.antt =====
-- crates/workflow/src/engine/step_context.rs: the messages that wait for one superstep, in a
-- queue for each target.
pub mod Queues
pub mod Restore
mod Samples
use rust_agent_framework.Common.{
  ℕ, zero, suc, ◌+◌, String, Bool, true, false, not, Option, none, some, List, [], ◌∷◌, ◌++◌, map,
  length, Map, get, remove, update_entry, or_default, ◌>>=◌, Result, ok, err, if◌then◌else◌,
}
use rust_agent_framework.Envelope.{Envelope}
use rust_agent_framework.Codec.{Serde, Content, to_serializable, deserialize_envelopes}

pub record StepContext (C V : Type 0) : Type 0 where
  pub queued_messages : Map (List (Envelope C V))
  pub step_number : ℕ  -- i32, by its bit pattern

-- `unwrap_or_else(|| "broadcast")`
module _ {C V : Type 0} where
  abbrev pub target_of : Envelope C V → String
  target_of env = or_default "broadcast" env.target_node_id

  unfoldable pub new_step : ℕ → StepContext C V
  new_step n = record { queued_messages = []; step_number = n }

  unfoldable pub enqueue : Envelope C V → StepContext C V → StepContext C V
  unfolding update_entry
  enqueue env ctx = record ctx {
    queued_messages =
        update_entry (target_of env) [] (λ queue. queue ++ env ∷ []) ctx.queued_messages;
  }

  unfoldable pub enqueue_batch : List (Envelope C V) → StepContext C V → StepContext C V
  unfolding enqueue
  enqueue_batch [] ctx = ctx
  enqueue_batch (env ∷ envs) ctx = enqueue_batch envs (enqueue env ctx)

  unfoldable pub dequeue_for :
      String → StepContext C V → Option (List (Envelope C V)) × StepContext C V
  unfolding get remove
  dequeue_for id ctx =
      (get ctx.queued_messages id, record ctx { queued_messages = remove id ctx.queued_messages })

  unfoldable pub has_messages : StepContext C V → Bool
  has_messages ctx = elim ctx.queued_messages [ [] ↦ false | entry ∷ rest ↦ true ]

  abbrev pub keys : Map (List (Envelope C V)) → List String
  keys [] = []
  keys ((k, queue) ∷ m) = k ∷ keys m

  unfoldable pub active_nodes : StepContext C V → List String
  active_nodes ctx = keys ctx.queued_messages

  abbrev pub queue_lengths : Map (List (Envelope C V)) → ℕ
  queue_lengths [] = 0
  queue_lengths ((k, queue) ∷ m) = length queue + queue_lengths m

  unfoldable pub message_count : StepContext C V → ℕ
  message_count ctx = queue_lengths ctx.queued_messages

  -- All queues, one after the other: what `serialize_pending` walks through.
  abbrev pub all_messages : Map (List (Envelope C V)) → List (Envelope C V)
  all_messages [] = []
  all_messages ((k, queue) ∷ m) = queue ++ all_messages m

module _ (serde : Serde) where
  open serde use {Value}

  unfoldable pub serialize_pending : StepContext (Content serde) Value → List (Envelope Value Value)
  serialize_pending ctx = map (to_serializable serde) (all_messages ctx.queued_messages)

  unfoldable pub from_serialized :
      ℕ → List (Envelope Value Value) → Result (StepContext (Content serde) Value)
  unfolding enqueue_batch new_step
  from_serialized n ss = do
    envs ← deserialize_envelopes serde ss
    ok (enqueue_batch envs (new_step n))
