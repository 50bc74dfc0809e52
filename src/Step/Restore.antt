-- ===== src/Step/Restore.antt =====
-- Writing the waiting messages to a checkpoint and reading them back
-- (`serialize_pending` and `from_serialized` of crates/workflow/src/engine/step_context.rs).
use rust_agent_framework.Common.{
  ℕ, String, false, none, List, [], ◌∷◌, ◌++◌, map, keep, keep-append, All, All-append, ◌==◌,
  eq_iff, Bool-cases, Map, get, insert, update_entry, get-insert, or_default, append-nil, ◌≡◌, ◌≢◌,
  ◌∙◌, refl, inl, inr, arith, ok,
}
use rust_agent_framework.Envelope.{Envelope}
use rust_agent_framework.Codec.{Serde, Content, to_serializable, deserialize_envelopes}
use rust_agent_framework.Codec.RoundTrip.{IsTagged, into_message_envelope-to_serializable}
use rust_agent_framework.Step.{
  StepContext, target_of, new_step, enqueue, enqueue_batch, all_messages, serialize_pending,
  from_serialized,
}
use rust_agent_framework.Step.Queues.{pending, is_for, pending-enqueue_batch}

module _ {C V : Type 0} where
  -- No key twice, no empty queue, and each message under its own target.
  abbrev pub Tidy : Map (List (Envelope C V)) → Type 0
  Tidy [] = Unit
  Tidy ((k, queue) ∷ m) =
      (queue ≢ []) × All (λ env. target_of env ≡ k) queue × (get m k ≡ none) × Tidy m

  abbrev pub IsTidy : StepContext C V → Type 0
  IsTidy ctx = Tidy ctx.queued_messages

  Tidy-insert :
      (k : String) (queue : List (Envelope C V)) (m : Map (List (Envelope C V)))
      → queue ≢ []
      → All (λ env. target_of env ≡ k) queue
      → Tidy m
      → Tidy (insert k queue m)
  unfolding insert get
  Tidy-insert k queue [] ne own t = (ne, own, refl, tt)
  Tidy-insert k queue ((j, r) ∷ m) ne own t = elim (Bool-cases (j == k)) [
    | inl e ↦ rw e (ne, rw ((eq_iff j k).0 e) own, t.2, t.3)
    | inr d ↦ rw d (
      t.0,
      t.1,
      ground (arith, get-insert k j queue m, eq_iff j k, eq_iff k j),
      Tidy-insert k queue m ne own t.3,
    )
  ]

  queue-All :
      (k : String) (m : Map (List (Envelope C V)))
      → Tidy m
      → All (λ env. target_of env ≡ k) (or_default [] (get m k))
  unfolding get
  queue-All k [] t = tt
  queue-All k ((j, r) ∷ m) t = elim (Bool-cases (j == k)) [
    | inl e ↦ rw e (rw (← (eq_iff j k).0 e) t.1)
    | inr d ↦ rw d (queue-All k m t.3)
  ]

  snoc-ne-nil : (xs : List (Envelope C V)) (x : Envelope C V) → xs ++ x ∷ [] ≢ []
  snoc-ne-nil [] x e = cc
  snoc-ne-nil (y ∷ ys) x e = cc

  -- The queues stay tidy, so no step has an active node without a message.
  pub enqueue-IsTidy :
      (env : Envelope C V) (ctx : StepContext C V) → IsTidy ctx → IsTidy (enqueue env ctx)
  unfolding enqueue update_entry
  enqueue-IsTidy env ctx t =
      Tidy-insert (target_of env) (pending ctx (target_of env) ++ env ∷ []) ctx.queued_messages
        (snoc-ne-nil _ env)
        (All-append (λ e. target_of e ≡ target_of env) (pending ctx (target_of env)) (env ∷ [])
          (queue-All (target_of env) ctx.queued_messages t) (refl, tt))
        t

  keep-own :
      (k : String) (queue : List (Envelope C V))
      → All (λ env. target_of env ≡ k) queue
      → keep (is_for k) queue ≡ queue
  keep-own k [] own = refl
  keep-own k (env ∷ queue) own = ground (arith, keep-own k queue own.1, eq_iff (target_of env) k)

  keep-other :
      (k id : String) (queue : List (Envelope C V))
      → (k == id) ≡ false
      → All (λ env. target_of env ≡ k) queue
      → keep (is_for id) queue ≡ []
  keep-other k id [] d own = refl
  keep-other k id (env ∷ queue) d own =
      ground (arith, keep-other k id queue d own.1, eq_iff (target_of env) id, eq_iff k id)

  keep-all_messages :
      (id : String) (m : Map (List (Envelope C V)))
      → Tidy m
      → keep (is_for id) (all_messages m) ≡ or_default [] (get m id)
  unfolding get
  keep-all_messages id [] t = refl
  keep-all_messages id ((k, queue) ∷ m) t = elim (Bool-cases (k == id)) [
    | inl e ↦
        let same = (eq_iff k id).0 e in
        rw (e, keep-append, keep-all_messages id m t.3, ← same, t.2, keep-own k queue t.1)
          (append-nil queue)
    | inr d ↦ rw (d, keep-append, keep-other k id queue d t.1) (keep-all_messages id m t.3)
  ]

  pub step_number-enqueue_batch :
      (envs : List (Envelope C V)) (ctx : StepContext C V)
      → (enqueue_batch envs ctx).step_number ≡ ctx.step_number
  unfolding enqueue_batch enqueue
  step_number-enqueue_batch [] ctx = refl
  step_number-enqueue_batch (env ∷ envs) ctx = step_number-enqueue_batch envs (enqueue env ctx)

module _ (serde : Serde) where
  open serde use {Value}

  abbrev pub AllTagged : List (Envelope (Content serde) Value) → Type 0
  AllTagged envs = All (λ env. IsTagged serde env.tag env.content) envs

  deserialize-map :
      (envs : List (Envelope (Content serde) Value))
      → AllTagged envs
      → deserialize_envelopes serde (map (to_serializable serde) envs) ≡ ok envs
  unfolding deserialize_envelopes
  deserialize-map [] t = refl
  deserialize-map (env ∷ envs) t =
      rw (into_message_envelope-to_serializable serde env t.0, deserialize-map envs t.1)

  -- Where each waiting message is tagged with the type of its payload, a checkpoint gives back
  -- every queue in its order, under the step number that is asked for.
  pub from_serialized-serialize_pending :
      (n : ℕ) (ctx : StepContext (Content serde) Value)
      → IsTidy ctx
      → AllTagged (all_messages ctx.queued_messages)
      → (restored : StepContext (Content serde) Value) × (from_serialized serde n
            (serialize_pending serde ctx)
          ≡ ok restored)
        × (restored.step_number ≡ n)
        × ((id : String) → pending restored id ≡ pending ctx id)
  unfolding from_serialized serialize_pending
  from_serialized-serialize_pending n ctx tidy tagged = (
    enqueue_batch (all_messages ctx.queued_messages) (new_step n),
    rw (deserialize-map (all_messages ctx.queued_messages) tagged),
    step_number-enqueue_batch (all_messages ctx.queued_messages) (new_step n),
    λ id.
        pending-enqueue_batch (all_messages ctx.queued_messages) (new_step n) id
        ∙ keep-all_messages id ctx.queued_messages tidy,
  )
