-- ===== src/Step/Queues.antt =====
-- A step context as a first-in first-out queue for each target
-- (crates/workflow/src/engine/step_context.rs).
use rust_agent_framework.Common.{
  ◌+◌, String, Bool, List, [], ◌∷◌, ◌++◌, keep, keep-append, sym, length, length-append,
  if◌then◌else◌, ◌==◌, eq_iff, Map, get, insert, update_entry, get-update_entry, get-remove,
  or_default, append-nil, append_assoc, ◌≡◌, ap, arith,
}
use rust_agent_framework.Envelope.{Envelope}
use rust_agent_framework.Step.{
  StepContext, target_of, enqueue, enqueue_batch, dequeue_for, message_count, queue_lengths,
}

module _ {C V : Type 0} where
  -- The messages that wait for a target, oldest first.
  abbrev pub pending : StepContext C V → String → List (Envelope C V)
  pending ctx id = or_default [] (get ctx.queued_messages id)

  abbrev pub is_for : String → Envelope C V → Bool
  is_for id env = target_of env == id

  pending-enqueue :
      (env : Envelope C V) (ctx : StepContext C V) (id : String)
      → pending (enqueue env ctx) id ≡ pending ctx id ++ keep (is_for id) (env ∷ [])
  unfolding enqueue
  pending-enqueue env ctx id = ground (
    arith,
    get-update_entry (target_of env) id [] (λ q. q ++ env ∷ []) ctx.queued_messages,
    eq_iff (target_of env) id,
    append-nil (pending ctx id),
  )

  -- However the targets interleave, each target's queue is what it was, followed by the new
  -- messages for that target in the order in which they came.
  pub pending-enqueue_batch :
      (envs : List (Envelope C V)) (ctx : StepContext C V) (id : String)
      → pending (enqueue_batch envs ctx) id ≡ pending ctx id ++ keep (is_for id) envs
  unfolding enqueue_batch
  pending-enqueue_batch [] ctx id = rw append-nil
  pending-enqueue_batch (env ∷ envs) ctx id =
      rw (pending-enqueue_batch envs (enqueue env ctx) id, pending-enqueue env ctx id, append_assoc)
        (ap (λ l. pending ctx id ++ l) (sym (keep-append (is_for id) (env ∷ []) envs)))

  queue_lengths-insert :
      (k : String) (q : List (Envelope C V)) (m : Map (List (Envelope C V)))
      → queue_lengths (insert k q m) + length (or_default [] (get m k)) ≡ queue_lengths m + length q
  unfolding insert get
  queue_lengths-insert k q [] = omega arith
  queue_lengths-insert k q ((j, r) ∷ m) = ground (arith, queue_lengths-insert k q m)

  message_count-enqueue :
      (env : Envelope C V) (ctx : StepContext C V)
      → message_count (enqueue env ctx) ≡ message_count ctx + 1
  unfolding message_count enqueue update_entry
  message_count-enqueue env ctx =
      let queue = pending ctx (target_of env) in
      omega (
        arith,
        queue_lengths-insert (target_of env) (queue ++ env ∷ []) ctx.queued_messages,
        length-append queue (env ∷ []),
      )

  -- No message is lost or doubled on the way in.
  pub message_count-enqueue_batch :
      (envs : List (Envelope C V)) (ctx : StepContext C V)
      → message_count (enqueue_batch envs ctx) ≡ message_count ctx + length envs
  unfolding enqueue_batch
  message_count-enqueue_batch [] ctx = omega arith
  message_count-enqueue_batch (env ∷ envs) ctx =
      omega
        (arith, message_count-enqueue_batch envs (enqueue env ctx), message_count-enqueue env ctx)

  -- Taking a target's queue empties that target and leaves every other queue as it was.
  pub pending-dequeue_for :
      (id j : String) (ctx : StepContext C V)
      → (or_default [] (dequeue_for id ctx).0 ≡ pending ctx id)
        × (pending (dequeue_for id ctx).1 j ≡ (if id == j then [] else pending ctx j))
  unfolding dequeue_for
  pending-dequeue_for id j ctx = ground (arith, get-remove id j ctx.queued_messages)
