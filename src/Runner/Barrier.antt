-- ===== src/Runner/Barrier.antt =====
-- The barrier of a fan-in edge (`FanInEdgeRunner` of crates/workflow/src/engine/edge_runner.rs):
-- what it hands on and holds over any sequence of messages, and when it waits.
use mathlib.Core.List.{Perm, perm_append_comm}
use mathlib.Core.List.Perm
use rust_agent_framework.Common.{
  String, true, false, List, [], ◌∷◌, ◌++◌, map, all, All, Elem, here, there, append_assoc,
  append-nil, if◌then◌else◌, ◌==◌, eq_iff, Bool-cases, Map, get, insert, contains_key, update_entry,
  get-update_entry, or_default, ◌≡◌, ◌≢◌, refl, ap, inl, inr, ◌⊎◌, arith, subst,
}
use rust_agent_framework.Envelope.{Envelope}
use rust_agent_framework.Graph.Edges.{FanInEdgeData}
use rust_agent_framework.Runner.{MessageDelivery, buffered, deliver_to, chase_fan_in}

module _ {C V : Type 0} where
  abbrev pub envelopes : List (MessageDelivery C V) → List (Envelope C V)
  envelopes [] = []
  envelopes (d ∷ ds) = d.envelope ∷ envelopes ds

  envelopes-append :
      (xs ys : List (MessageDelivery C V)) → envelopes (xs ++ ys) ≡ envelopes xs ++ envelopes ys
  envelopes-append [] ys = refl
  envelopes-append (x ∷ xs) ys =
      ap (λ (l : List (Envelope C V)). x.envelope ∷ l) (envelopes-append xs ys)

  pub envelopes-map :
      (target : String) (envs : List (Envelope C V))
      → envelopes (map (λ m. deliver_to m target) envs) ≡ envs
  envelopes-map target [] = refl
  envelopes-map target (env ∷ envs) =
      ap (λ (l : List (Envelope C V)). env ∷ l) (envelopes-map target envs)

  abbrev pub record_message : Envelope C V → Map (List (Envelope C V)) → Map (List (Envelope C V))
  record_message env = update_entry env.source_node_id [] (λ envs. envs ++ env ∷ [])

  buffered-insert :
      (k : String) (env : Envelope C V) (q : List (Envelope C V)) (m : Map (List (Envelope C V)))
      → or_default [] (get m k) ≡ q
      → Perm (buffered (insert k (q ++ env ∷ []) m)) (buffered m ++ env ∷ [])
  unfolding insert get
  buffered-insert k env q [] e = rw (← e) (Perm.refl (env ∷ []))
  buffered-insert k env q ((j, w) ∷ m) e = elim (Bool-cases (j == k)) [
    | inl same ↦
        let e' : w ≡ q = ground arith in
        rw (same, ← e', append_assoc, append_assoc)
          (Perm.append_left w (perm_append_comm (env ∷ []) (buffered m)))
    | inr differ ↦
        rw (differ, append_assoc) (Perm.append_left w (buffered-insert k env q m (ground arith)))
  ]

  pub buffered-record :
      (env : Envelope C V) (m : Map (List (Envelope C V)))
      → Perm (buffered (record_message env m)) (buffered m ++ env ∷ [])
  unfolding update_entry
  buffered-record env m = buffered-insert env.source_node_id env _ m refl

module _ {X C V : Type 0} (nodes : Map X) (d : FanInEdgeData) where
  -- Any sequence of messages, one after the other through the same barrier.
  abbrev pub run_barrier :
      Map (List (Envelope C V))
      → List (Envelope C V)
      → List (MessageDelivery C V) × Map (List (Envelope C V))
  run_barrier received [] = ([], received)
  run_barrier received (env ∷ envs) =
      let (out, received') = chase_fan_in nodes d received env in
      let (rest, after) = run_barrier received' envs in (out ++ rest, after)

  chase_fan_in-perm :
      (received : Map (List (Envelope C V))) (env : Envelope C V)
      → Perm
          (envelopes (chase_fan_in nodes d received env).0
            ++ buffered (chase_fan_in nodes d received env).1)
          (buffered received ++ env ∷ [])
  unfolding chase_fan_in
  chase_fan_in-perm received env =
      let received' = record_message env received in
      elim (Bool-cases (all (contains_key received') d.source_ids)) [
        | inr wait ↦ rw wait (buffered-record env received)
        | inl ready ↦ elim (Bool-cases (contains_key nodes d.sink_id)) [
          | inr absent ↦ rw (ready, absent) (buffered-record env received)
          | inl there_is ↦
              rw (ready, there_is, envelopes-map d.sink_id (buffered received'), append-nil)
                (buffered-record env received)
        ]
      ]

  -- What goes into a barrier comes out of it or is still held by it: the messages delivered,
  -- together with those that wait, are those that waited before and those that came, each as
  -- often. The order between sources may change.
  pub run_barrier-perm :
      (received : Map (List (Envelope C V))) (envs : List (Envelope C V))
      → Perm
          (envelopes (run_barrier received envs).0 ++ buffered (run_barrier received envs).1)
          (buffered received ++ envs)
  run_barrier-perm received [] = rw append-nil (Perm.refl (buffered received))
  run_barrier-perm received (env ∷ envs) =
      let (out, received') = chase_fan_in nodes d received env in
      let (rest, after) = run_barrier received' envs in
      rw (envelopes-append, append_assoc)
        (Perm.trans (Perm.append_left (envelopes out) (run_barrier-perm received' envs)) (
          subst (λ l. Perm l (buffered received ++ env ∷ envs))
            (append_assoc (envelopes out) (buffered received') envs)
            (subst (λ l. Perm ((envelopes out ++ buffered received') ++ envs) l)
              (append_assoc (buffered received) (env ∷ []) envs)
              (Perm.append_right envs (chase_fan_in-perm received env)))))

  pub contains_key-record :
      (received : Map (List (Envelope C V))) (env : Envelope C V) (s : String)
      → contains_key (record_message env received) s
        ≡ (if env.source_node_id == s then true else contains_key received s)
  unfolding contains_key
  contains_key-record received env s =
      ground (arith, get-update_entry env.source_node_id s [] (λ q. q ++ env ∷ []) received)

  all-absent :
      (received : Map (List (Envelope C V))) (env : Envelope C V) {s : String} {ss : List String}
      → Elem s ss
      → contains_key received s ≡ false
      → env.source_node_id ≢ s
      → all (contains_key (record_message env received)) ss ≡ false
  all-absent received env {s} (here {x = x} {xs = xs} e) no_key ne =
      rw (← e) (ground (arith, contains_key-record received env s, eq_iff env.source_node_id s))
  all-absent received env (there {x = x} {xs = xs} m) no_key ne =
      ground (arith, all-absent received env m no_key ne)

  -- While one source of the edge is absent, nothing is delivered and the message is kept.
  pub chase_fan_in_waits :
      (received : Map (List (Envelope C V))) (env : Envelope C V) (source : String)
      → Elem source d.source_ids
      → contains_key received source ≡ false
      → env.source_node_id ≢ source
      → chase_fan_in nodes d received env ≡ ([], record_message env received)
  unfolding chase_fan_in
  chase_fan_in_waits received env source m no_key ne = rw (all-absent received env m no_key ne)

  -- A barrier that never hears from one of its sources delivers nothing at all.
  pub run_barrier_starves :
      (source : String) (received : Map (List (Envelope C V))) (envs : List (Envelope C V))
      → Elem source d.source_ids
      → contains_key received source ≡ false
      → All (λ env. env.source_node_id ≢ source) envs
      → (run_barrier received envs).0 ≡ []
  run_barrier_starves source received [] m no_key others = refl
  run_barrier_starves source received (env ∷ envs) m no_key others =
      rw (chase_fan_in_waits received env source m no_key others.0) (
        run_barrier_starves source (record_message env received) envs m
          (ground
            (arith, contains_key-record received env source, eq_iff env.source_node_id source))
          others.1)

  -- After a message the barrier holds either nothing or one message more.
  pub chase_fan_in_held :
      (received : Map (List (Envelope C V))) (env : Envelope C V)
      → ((chase_fan_in nodes d received env).1 ≡ [])
        ⊎ ((chase_fan_in nodes d received env).1 ≡ record_message env received)
  unfolding chase_fan_in
  chase_fan_in_held received env =
      let received' = record_message env received in
      elim (Bool-cases (all (contains_key received') d.source_ids)) [
        | inr wait ↦ inr (rw wait)
        | inl ready ↦ elim (Bool-cases (contains_key nodes d.sink_id)) [
          | inr absent ↦ inr (rw (ready, absent))
          | inl there_is ↦ inl (rw (ready, there_is))
        ]
      ]
