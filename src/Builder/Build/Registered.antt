-- ===== src/Builder/Build/Registered.antt =====
-- The checks of `build` (crates/workflow/src/builder/workflow_builder.rs) hold exactly where every
-- id that the builder names is registered.
use mathlib.Core.Option.{some-injective, none-ne-some}
use rust_agent_framework.Common.{
  String, true, some, List, [], ◌∷◌, All, Map, contains_key, ◌≡◌, ◌↔◌, refl, sym, ap, ◌∙◌, subst,
  Option-cases, inl, inr, AgentError, ok, ◌>>◌, >>=-eq-ok, err≢ok, guard_iff, >>_iff,
}
use rust_agent_framework.Graph.{
  Node, check_sinks, entry_not_registered, source_not_registered, sink_not_registered,
}
use rust_agent_framework.Graph.Registered.{AllRegistered}
use rust_agent_framework.Graph.Edges.{Edge, source_ids, sink_ids}
use rust_agent_framework.Builder.{WorkflowBuilder}
use rust_agent_framework.Builder.Build.{
  check_ids, check_builder_edges, check_entry, check_builder, output_not_registered,
}

module _ {X : Type 0} (nodes : Map (Node X)) where
  check_ids_iff :
      (error : String → AgentError) (ids : List String)
      → (check_ids error nodes ids ≡ ok tt) ↔ AllRegistered nodes ids
  unfolding check_ids
  check_ids_iff error [] = (λ e. tt, λ r. refl)
  check_ids_iff error (s ∷ ss) =
      let guard = guard_iff (contains_key nodes s) (check_ids error nodes ss) (error s) tt in
      let rest = check_ids_iff error ss in
      (λ e. let (known, e') = guard.0 e in (known, rest.0 e'), λ r. guard.1 (r.0, rest.1 r.1))

  pub check_sinks_iff :
      (ids : List String) → (check_sinks nodes ids ≡ ok tt) ↔ AllRegistered nodes ids
  unfolding check_sinks
  check_sinks_iff [] = (λ e. tt, λ r. refl)
  check_sinks_iff (s ∷ ss) =
      let guard =
        guard_iff (contains_key nodes s) (check_sinks nodes ss) (sink_not_registered s) tt in
      let rest = check_sinks_iff ss in
      (λ e. let (known, e') = guard.0 e in (known, rest.0 e'), λ r. guard.1 (r.0, rest.1 r.1))

module _ {X C V : Type 0} where
  abbrev pub IsJoined : Map (Node X) → Edge C V → Type 0
  IsJoined nodes e = AllRegistered nodes (source_ids e) × AllRegistered nodes (sink_ids e)

  check_builder_edges_iff :
      (nodes : Map (Node X)) (es : List (Edge C V))
      → (check_builder_edges nodes es ≡ ok tt) ↔ All (IsJoined nodes) es
  unfolding check_builder_edges
  check_builder_edges_iff nodes [] = (λ e. tt, λ r. refl)
  check_builder_edges_iff nodes (e ∷ es) =
      let sources = check_ids_iff nodes source_not_registered (source_ids e) in
      let sinks = check_sinks_iff nodes (sink_ids e) in
      let rest = check_builder_edges_iff nodes es in
      let outer =
        >>_iff (check_ids source_not_registered nodes (source_ids e))
          (check_sinks nodes (sink_ids e) >> check_builder_edges nodes es) tt in
      let inner = >>_iff (check_sinks nodes (sink_ids e)) (check_builder_edges nodes es) tt in
      (
        λ h.
            let (a, h') = outer.0 h in
            let (b, h'') = inner.0 h' in ((sources.0 a, sinks.0 b), rest.0 h''),
        λ r. outer.1 (sources.1 r.0.0, inner.1 (sinks.1 r.0.1, rest.1 r.1)),
      )

  -- What a builder must name for `build` to go on: a start, and registered ids alone.
  abbrev pub IsRegistered : WorkflowBuilder X C V → String → Type 0
  IsRegistered b start =
      (b.start_node_id ≡ some start)
      × (contains_key b.nodes start ≡ true)
      × All (IsJoined b.nodes) b.edges
      × AllRegistered b.nodes b.output_node_ids

  check_entry_iff :
      (b : WorkflowBuilder X C V) (start : String)
      → (check_entry b ≡ ok start)
        ↔ ((b.start_node_id ≡ some start) × (contains_key b.nodes start ≡ true))
  unfolding check_entry
  check_entry_iff b start = elim (Option-cases b.start_node_id) [
    | inl unset ↦
        rw (check_entry, unset) (λ h. absurd (err≢ok h), λ r. absurd (none-ne-some start r.0))
    | inr (id, set) ↦
        let guard = guard_iff (contains_key b.nodes id) (ok id) (entry_not_registered id) start in
        rw (check_entry, set)
          (
            λ h.
                let (known, same) = guard.0 h in
                let e : id ≡ start = cc in
                (ap some e, subst (λ s. contains_key b.nodes s ≡ true) e known),
            λ r.
                let e : id ≡ start = some-injective _ _ r.0 in
                guard.1 (subst (λ s. contains_key b.nodes s ≡ true) (sym e) r.1, ap ok e),
          )
  ]

  -- The checks before the graph is made pass, with a start, exactly where that node is the one
  -- that was set and it, both ends of every edge and every output are registered.
  pub check_builder_iff :
      (b : WorkflowBuilder X C V) (start : String)
      → (check_builder b ≡ ok start) ↔ IsRegistered b start
  unfolding check_builder
  check_builder_iff b start =
      let edges = check_builder_edges_iff b.nodes b.edges in
      let outputs = check_ids_iff b.nodes output_not_registered b.output_node_ids in
      (
        λ h.
            let (id, entered, h1) = >>=-eq-ok (check_entry b) _ h in
            let (joined, h2) = (>>_iff (check_builder_edges b.nodes b.edges) _ start).0 h1 in
            let (known, same) =
              (>>_iff (check_ids output_not_registered b.nodes b.output_node_ids) (ok id) start).0
                h2 in
            let e : id ≡ start = cc in
            let (set, registered) = (check_entry_iff b start).0 (entered ∙ ap ok e) in
            (set, registered, edges.0 joined, outputs.0 known),
        λ (set, registered, joined, known).
            rw ((check_entry_iff b start).1 (set, registered), edges.1 joined, outputs.1 known),
      )
