-- ===== src/Builder/Build/Refused.antt =====
-- The errors of the checks of `build` (crates/workflow/src/builder/workflow_builder.rs).
use rust_agent_framework.Common.{
  String, false, none, some, List, [], ◌∷◌, Elem, here, there, Bool-cases, Option-cases, Map,
  contains_key, ◌≡◌, ◌⊎◌, refl, ap, sym, ◌∙◌, subst, inl, inr, AgentError, Result, ok, err, err≢ok,
}
use rust_agent_framework.Graph.{
  Node, entry_not_registered, source_not_registered, sink_not_registered,
}
use rust_agent_framework.Graph.Registered.{HasMissing, check_sinks-cases}
use rust_agent_framework.Graph.Edges.{Edge, source_ids, sink_ids}
use rust_agent_framework.Builder.{WorkflowBuilder}
use rust_agent_framework.Builder.Build.{
  check_ids, check_builder_edges, check_entry, check_builder, output_not_registered, start_not_set,
}

module _ {X : Type 0} (nodes : Map (Node X)) where
  check_ids-cases :
      (error : String → AgentError) (ids : List String)
      → (check_ids error nodes ids ≡ ok tt)
        ⊎ ((s : String) × HasMissing nodes ids s × (check_ids error nodes ids ≡ err (error s)))
  unfolding check_ids
  check_ids-cases error [] = inl refl
  check_ids-cases error (s ∷ ss) = elim (Bool-cases (contains_key nodes s)) [
    | inr missing ↦ inr (s, (here refl, missing), rw missing refl)
    | inl known ↦ elim (check_ids-cases error ss) [
      | inl fine ↦ inl (rw known fine)
      | inr (t, (m, missing), found) ↦ inr (t, (there m, missing), rw known found)
    ]
  ]

abbrev error_or {ℓ} : {A : Type ℓ} → AgentError → Result A → AgentError
error_or x (err e) = e
error_or x (ok a) = x

module _ {X C V : Type 0} where
  -- The error names a source or a sink of an edge that is not registered.
  abbrev IsMissingEnd : Map (Node X) → Edge C V → AgentError → Type 0
  IsMissingEnd nodes e x =
      (s : String) × ((HasMissing nodes (source_ids e) s × (x ≡ source_not_registered s))
        ⊎ (HasMissing nodes (sink_ids e) s × (x ≡ sink_not_registered s)))

  -- The error names the start, which is not registered, or says that none was set.
  abbrev IsMissingStart : WorkflowBuilder X C V → AgentError → Type 0
  IsMissingStart b x =
      ((b.start_node_id ≡ none) × (x ≡ start_not_set))
      ⊎ ((start : String) × (b.start_node_id ≡ some start)
          × (contains_key b.nodes start ≡ false)
          × (x ≡ entry_not_registered start))

  -- What the error says of the builder is true.
  abbrev pub IsRefused : WorkflowBuilder X C V → AgentError → Type 0
  IsRefused b x =
      IsMissingStart b x
      ⊎ (((e : Edge C V) × Elem e b.edges × IsMissingEnd b.nodes e x)
          ⊎ ((s : String) × HasMissing b.nodes b.output_node_ids s × (x ≡ output_not_registered s)))

  check_builder_edges-cases :
      (nodes : Map (Node X)) (es : List (Edge C V))
      → (check_builder_edges nodes es ≡ ok tt)
        ⊎ ((x : AgentError) × ((e : Edge C V) × Elem e es × IsMissingEnd nodes e x)
            × (check_builder_edges nodes es ≡ err x))
  unfolding check_builder_edges
  check_builder_edges-cases nodes [] = inl refl
  check_builder_edges-cases nodes (e ∷ es) =
      elim (check_ids-cases nodes source_not_registered (source_ids e)) [
        | inr (s, missing, found) ↦
            inr (source_not_registered s, (e, here refl, (s, inl (missing, refl))), rw found refl)
        | inl fine ↦ elim (check_sinks-cases nodes (sink_ids e)) [
          | inr (s, missing, found) ↦ inr (
            sink_not_registered s,
            (e, here refl, (s, inr (missing, refl))),
            rw (fine, found) refl,
          )
          | inl (fine', known) ↦ elim (check_builder_edges-cases nodes es) [
            | inl fine'' ↦ inl (rw (fine, fine') fine'')
            | inr (x, (f, m, missing), found) ↦
                inr (x, (f, there m, missing), rw (fine, fine') found)
          ]
        ]
      ]

  check_entry-cases :
      (b : WorkflowBuilder X C V)
      → ((start : String) × (check_entry b ≡ ok start))
        ⊎ ((x : AgentError) × IsMissingStart b x × (check_entry b ≡ err x))
  unfolding check_entry
  check_entry-cases b = elim (Option-cases b.start_node_id) [
    | inl unset ↦ inr (start_not_set, inl (unset, refl), rw (check_entry, unset) refl)
    | inr (id, set) ↦ elim (Bool-cases (contains_key b.nodes id)) [
      | inl known ↦ inl (id, rw (check_entry, set, known) refl)
      | inr missing ↦ inr (
        entry_not_registered id,
        inr (id, set, missing, refl),
        rw (check_entry, set, missing) refl,
      )
    ]
  ]

  check_builder-cases :
      (b : WorkflowBuilder X C V)
      → ((start : String) × (check_builder b ≡ ok start))
        ⊎ ((x : AgentError) × IsRefused b x × (check_builder b ≡ err x))
  unfolding check_builder
  check_builder-cases b = elim (check_entry-cases b) [
    | inr (x, missing, found) ↦ inr (x, inl missing, rw found refl)
    | inl (start, entered) ↦ elim (check_builder_edges-cases b.nodes b.edges) [
      | inr (x, missing, found) ↦ inr (x, inr (inl missing), rw (entered, found) refl)
      | inl joined ↦ elim (check_ids-cases b.nodes output_not_registered b.output_node_ids) [
        | inl known ↦ inl (start, rw (entered, joined, known) refl)
        | inr (s, missing, found) ↦ inr (
          output_not_registered s,
          inr (inr (s, missing, refl)),
          rw (entered, joined, found) refl,
        )
      ]
    ]
  ]

  pub check_builder-IsRefused :
      (b : WorkflowBuilder X C V) (x : AgentError) → check_builder b ≡ err x → IsRefused b x
  check_builder-IsRefused b x h = elim (check_builder-cases b) [
    | inl (start, fine) ↦ absurd (err≢ok (sym h ∙ fine))
    | inr (y, refused, found) ↦ subst (IsRefused b) (ap (error_or x) (sym found ∙ h)) refused
  ]
