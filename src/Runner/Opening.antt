-- ===== src/Runner/Opening.antt =====
-- What one message does to the barrier of a fan-in edge (`FanInEdgeRunner::chase` of
-- crates/workflow/src/engine/edge_runner.rs).
use mathlib.Core.List.{Perm}
use rust_agent_framework.Common.{
  String, true, false, List, [], ◌∷◌, ◌++◌, map, all, All, Elem, here, there, append-nil,
  if◌then◌else◌, ◌==◌, eq_iff, Bool-cases, Map, get, contains_key, get-update_entry, or_default,
  ◌≡◌, ◌≢◌, refl, sym, subst, inl, inr, ◌⊎◌, arith,
}
use rust_agent_framework.Envelope.{Envelope}
use rust_agent_framework.Graph.Edges.{FanInEdgeData}
use rust_agent_framework.Runner.{MessageDelivery, buffered, deliver_to, chase_fan_in}
use rust_agent_framework.Runner.Barrier.{
  envelopes, envelopes-map, record_message, buffered-record, contains_key-record,
}

module _ {C V : Type 0} where
  -- What waits of one source, oldest first.
  abbrev pub waiting : Map (List (Envelope C V)) → String → List (Envelope C V)
  waiting received source = or_default [] (get received source)

  -- The barrier holds one message more, behind the others of its source.
  abbrev pub IsHeld : Map (List (Envelope C V)) → Envelope C V → Map (List (Envelope C V)) → Type 0
  IsHeld received env held =
      Perm (buffered held) (buffered received ++ env ∷ [])
      × ((source : String)
          → waiting held source
            ≡ waiting received source ++ (if env.source_node_id == source then env ∷ [] else []))

  -- Something of the source was held, or the new message is from it.
  abbrev pub IsPresent : Map (List (Envelope C V)) → Envelope C V → String → Type 0
  IsPresent received env source =
      (contains_key received source ≡ true) ⊎ (env.source_node_id ≡ source)

  -- No message of the source was held, and the new one is of another.
  abbrev pub IsAbsent : Map (List (Envelope C V)) → Envelope C V → String → Type 0
  IsAbsent received env source =
      (contains_key received source ≡ false) × (env.source_node_id ≢ source)

  record_message-IsHeld :
      (received : Map (List (Envelope C V))) (env : Envelope C V)
      → IsHeld received env (record_message env received)
  record_message-IsHeld received env = (
    buffered-record env received,
    λ source.
        rw (get-update_entry env.source_node_id source [] (λ envs. envs ++ env ∷ []) received)
          (elim (Bool-cases (env.source_node_id == source)) [
            | inl own ↦ rw (own, (eq_iff env.source_node_id source).0 own) refl
            | inr other ↦ rw (other, append-nil)
          ]),
  )

  All-target :
      (target : String) (envs : List (Envelope C V))
      → All
          (λ (d : MessageDelivery C V). d.target_node_id ≡ target)
          (map (λ m. deliver_to m target) envs)
  All-target target [] = tt
  All-target target (env ∷ envs) = (refl, All-target target envs)

module _ {X C V : Type 0} (nodes : Map X) (d : FanInEdgeData) where
  -- Either every source of a list is present, or one is absent.
  all-cases :
      (received : Map (List (Envelope C V))) (env : Envelope C V) (sources : List String)
      → (All (IsPresent received env) sources
          × (all (contains_key (record_message env received)) sources ≡ true))
        ⊎ ((source : String) × Elem source sources
            × IsAbsent received env source
            × (all (contains_key (record_message env received)) sources ≡ false))
  all-cases received env [] = inl (tt, refl)
  all-cases received env (s ∷ ss) =
      let recorded = contains_key-record nodes d received env s in
      elim (Bool-cases (env.source_node_id == s)) [
        | inl own ↦ elim (all-cases received env ss) [
          | inl (present, ready) ↦
              inl ((inr ((eq_iff env.source_node_id s).0 own), present), ground (arith, recorded))
          | inr (t, m, absent, wait) ↦ inr (t, there m, absent, ground (arith, recorded))
        ]
        | inr other ↦ elim (Bool-cases (contains_key received s)) [
          | inr no_key ↦ inr (
            s,
            here refl,
            (no_key, λ same. ground (arith, (eq_iff env.source_node_id s).1 same)),
            ground (arith, recorded),
          )
          | inl key ↦ elim (all-cases received env ss) [
            | inl (present, ready) ↦ inl ((inl key, present), ground (arith, recorded))
            | inr (t, m, absent, wait) ↦ inr (t, there m, absent, ground (arith, recorded))
          ]
        ]
      ]

  -- The barrier is open: everything goes to the sink, source by source, and nothing stays.
  abbrev pub IsOpen :
      Map (List (Envelope C V))
      → Envelope C V
      → List (MessageDelivery C V) × Map (List (Envelope C V))
      → Type 0
  IsOpen received env (out, after) =
      All (IsPresent received env) d.source_ids
      × (contains_key nodes d.sink_id ≡ true)
      × ((held : Map (List (Envelope C V))) × IsHeld received env held
          × (envelopes out ≡ buffered held))
      × All (λ delivery. delivery.target_node_id ≡ d.sink_id) out
      × (after ≡ [])

  -- The barrier is shut: nothing is delivered, and the message is held.
  abbrev pub IsShut :
      Map (List (Envelope C V))
      → Envelope C V
      → List (MessageDelivery C V) × Map (List (Envelope C V))
      → Type 0
  IsShut received env (out, after) =
      (((source : String) × Elem source d.source_ids × IsAbsent received env source)
        ⊎ (contains_key nodes d.sink_id ≡ false))
      × (out ≡ [])
      × IsHeld received env after

  -- A message opens the barrier exactly where every source of the edge has now sent something and
  -- the sink is registered. Then all that the barrier holds, the message included, is delivered,
  -- to the sink alone, each source's messages in the order in which they came, and the barrier is
  -- empty. Otherwise nothing is delivered, and the message is held behind those of its source.
  pub chase_fan_in_opens :
      (received : Map (List (Envelope C V))) (env : Envelope C V)
      → IsOpen received env (chase_fan_in nodes d received env)
        ⊎ IsShut received env (chase_fan_in nodes d received env)
  unfolding chase_fan_in
  chase_fan_in_opens received env =
      let held = record_message env received in
      let holds = record_message-IsHeld received env in
      elim (all-cases received env d.source_ids) [
        | inr (source, m, absent, wait) ↦ inr (rw wait (inl (source, m, absent), refl, holds))
        | inl (present, ready) ↦ elim (Bool-cases (contains_key nodes d.sink_id)) [
          | inr no_sink ↦
              let shut : chase_fan_in nodes d received env ≡ ([], held) =
                rw (chase_fan_in, ready, no_sink) refl in
              inr (subst (IsShut received env) (sym shut) (inr no_sink, refl, holds))
          | inl sink ↦
              let opened : chase_fan_in nodes d received env
                  ≡ (map (λ m. deliver_to m d.sink_id) (buffered held), []) =
                rw (chase_fan_in, ready, sink) refl in
              inl (
                subst (IsOpen received env) (sym opened) (
                  present,
                  sink,
                  (held, holds, envelopes-map d.sink_id (buffered held)),
                  All-target d.sink_id (buffered held),
                  refl,
                ))
        ]
      ]
