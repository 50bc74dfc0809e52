-- ===== src/Runner/Routes.antt =====
-- Where deliveries go: to registered nodes alone
-- (crates/workflow/src/engine/edge_runner.rs).
use rust_agent_framework.Common.{
  String, Bool, true, false, List, [], ◌∷◌, ◌++◌, map, keep, all, All, Map, contains_key,
  update_entry, or_default, ◌≡◌, inl, inr, if◌then◌else◌, Bool-cases, Result, ok, err,
}
use mathlib.Core.Option
use rust_agent_framework.Envelope.{Envelope}
use rust_agent_framework.Graph.Edges.{DirectEdgeData, FanInEdgeData}
use rust_agent_framework.Runner.{
  MessageDelivery, EdgeRunner, direct_runner, fan_out_runner, fan_in_runner, deliver_to, buffered,
  chase_direct, chase_fan_out, chase_fan_in, chase,
}

module _ {X C V : Type 0} (nodes : Map X) where
  abbrev pub IsDeliverable : MessageDelivery C V → Type 0
  IsDeliverable d = contains_key nodes d.target_node_id ≡ true

  -- What a call of `chase` hands back, if it does not fail.
  abbrev pub AllDeliverable : Result (List (MessageDelivery C V)) → Type 0
  AllDeliverable (ok ds) = All IsDeliverable ds
  AllDeliverable (err e) = Unit

  deliver-one :
      (env : Envelope C V) (target : String)
      → AllDeliverable
          (if contains_key nodes target then ok (deliver_to env target ∷ []) else ok [])
  deliver-one env target = elim (Bool-cases (contains_key nodes target)) [
    | inl known ↦ rw known (known, tt)
    | inr unknown ↦ rw unknown tt
  ]

  chase_direct-AllDeliverable :
      (d : DirectEdgeData C V) (env : Envelope C V) → AllDeliverable (chase_direct nodes d env)
  unfolding chase_direct
  chase_direct-AllDeliverable d env =
      go (or_default (ok true) (Option.map (λ f. f env) d.condition))
    where
      go :
          (r : Result Bool)
          → AllDeliverable (elim r [
            | err e ↦ err e
            | ok false ↦ ok []
            | ok true ↦
                if contains_key nodes d.sink_id then ok (deliver_to env d.sink_id ∷ []) else ok []
          ])
      go (err e) = tt
      go (ok false) = tt
      go (ok true) = deliver-one env d.sink_id

  deliver-kept :
      (env : Envelope C V) (targets : List String)
      → All IsDeliverable (map (deliver_to env) (keep (contains_key nodes) targets))
  deliver-kept env [] = tt
  deliver-kept env (t ∷ ts) = elim (Bool-cases (contains_key nodes t)) [
    | inl known ↦ rw known (known, deliver-kept env ts)
    | inr unknown ↦ rw unknown (deliver-kept env ts)
  ]

  deliver-All :
      (target : String) (envs : List (Envelope C V))
      → contains_key nodes target ≡ true
      → All IsDeliverable (map (λ m. deliver_to m target) envs)
  deliver-All target [] known = tt
  deliver-All target (env ∷ envs) known = (known, deliver-All target envs known)

  chase_fan_in-AllDeliverable :
      (d : FanInEdgeData) (received : Map (List (Envelope C V))) (env : Envelope C V)
      → All IsDeliverable (chase_fan_in nodes d received env).0
  unfolding chase_fan_in
  chase_fan_in-AllDeliverable d received env =
      let received' = update_entry env.source_node_id [] (λ envs. envs ++ env ∷ []) received in
      elim (Bool-cases (all (contains_key received') d.source_ids)) [
        | inr wait ↦ rw wait tt
        | inl ready ↦ elim (Bool-cases (contains_key nodes d.sink_id)) [
          | inr absent ↦ rw (ready, absent) tt
          | inl known ↦ rw (ready, known) (deliver-All d.sink_id (buffered received') known)
        ]
      ]

  -- Whatever the conditions and the assigner of an edge return, no runner delivers to a node that
  -- is not registered.
  pub chase-AllDeliverable :
      (runner : EdgeRunner C V) (env : Envelope C V) → AllDeliverable (chase nodes runner env).0
  unfolding chase chase_fan_out
  chase-AllDeliverable (direct_runner d) env = chase_direct-AllDeliverable d env
  chase-AllDeliverable (fan_out_runner d) env = deliver-kept env _
  chase-AllDeliverable (fan_in_runner d received) env = chase_fan_in-AllDeliverable d received env
