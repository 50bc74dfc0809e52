-- ===== src/Graph/Registered.antt =====
-- The ids that `validate` wants to be registered, and all that it says of a graph
-- (crates/workflow/src/graph/workflow_graph.rs).
use rust_agent_framework.Common.{
  String, true, false, Option, some, List, [], ◌∷◌, All, Elem, here, there, Bool-cases, Map,
  contains_key, ◌≡◌, ◌⊎◌, refl, inl, inr, AgentError, Result, ok, err, ◌>>◌, err≢ok, sym, ◌∙◌, ap,
}
use rust_agent_framework.Graph.{
  Node, WorkflowGraph, check_sinks, check_edges, check_index, check_start, entry_not_registered,
  source_not_registered, sink_not_registered, validate,
}
use rust_agent_framework.Graph.Edges.{Edge, sink_ids}
use rust_agent_framework.Graph.Verdict.{Searched, validate-Searched}

module _ {X : Type 0} (nodes : Map (Node X)) where
  abbrev pub AllRegistered : List String → Type 0
  AllRegistered ids = All (λ s. contains_key nodes s ≡ true) ids

  -- An id of a list that is not registered.
  abbrev pub HasMissing : List String → String → Type 0
  HasMissing ids s = Elem s ids × (contains_key nodes s ≡ false)

  pub check_sinks-cases :
      (ids : List String)
      → ((check_sinks nodes ids ≡ ok tt) × AllRegistered ids)
        ⊎ ((s : String) × HasMissing ids s × (check_sinks nodes ids ≡ err (sink_not_registered s)))
  unfolding check_sinks
  check_sinks-cases [] = inl (refl, tt)
  check_sinks-cases (s ∷ ss) = elim (Bool-cases (contains_key nodes s)) [
    | inr missing ↦ inr (s, (here refl, missing), rw missing refl)
    | inl known ↦ elim (check_sinks-cases ss) [
      | inl (fine, rest) ↦ inl (rw known fine, (known, rest))
      | inr (t, (m, missing), found) ↦ inr (t, (there m, missing), rw known found)
    ]
  ]

module _ {X C V : Type 0} (nodes : Map (Node X)) where
  -- A set of edges, under its source, all of whose ids are registered.
  abbrev pub IsKnownEntry : String × List (Edge C V) → Type 0
  IsKnownEntry (source, es) =
      (contains_key nodes source ≡ true) × All (λ e. AllRegistered nodes (sink_ids e)) es

  -- The error names a sink of an edge that is not registered.
  abbrev IsMissingSink : List (Edge C V) → AgentError → Type 0
  IsMissingSink es x =
      (e : Edge C V) × (s : String) × Elem e es
      × HasMissing nodes (sink_ids e) s
      × (x ≡ sink_not_registered s)

  -- The error names the source of a set of edges, or a sink of one, that is not registered.
  abbrev pub IsMissingEntry : String × List (Edge C V) → AgentError → Type 0
  IsMissingEntry (source, es) x =
      ((contains_key nodes source ≡ false) × (x ≡ source_not_registered source))
      ⊎ IsMissingSink es x

  check_edges-cases :
      (es : List (Edge C V))
      → ((check_edges nodes es ≡ ok tt) × All (λ e. AllRegistered nodes (sink_ids e)) es)
        ⊎ ((x : AgentError) × IsMissingSink es x × (check_edges nodes es ≡ err x))
  unfolding check_edges
  check_edges-cases [] = inl (refl, tt)
  check_edges-cases (e ∷ es) = elim (check_sinks-cases nodes (sink_ids e)) [
    | inr (s, missing, found) ↦
        inr (sink_not_registered s, (e, s, here refl, missing, refl), rw found refl)
    | inl (fine, known) ↦ elim (check_edges-cases es) [
      | inl (fine', rest) ↦ inl (rw (fine, fine') refl, (known, rest))
      | inr (x, (f, s, m, missing, named), found) ↦
          inr (x, (f, s, there m, missing, named), rw (fine, found) refl)
    ]
  ]

  check_index-cases :
      (index : Map (List (Edge C V)))
      → ((check_index nodes index ≡ ok tt) × All IsKnownEntry index)
        ⊎ ((x : AgentError) × (entry : String × List (Edge C V)) × Elem entry index
            × IsMissingEntry entry x
            × (check_index nodes index ≡ err x))
  unfolding check_index
  check_index-cases [] = inl (refl, tt)
  check_index-cases ((source, es) ∷ index) = elim (Bool-cases (contains_key nodes source)) [
    | inr missing ↦ inr (
      source_not_registered source,
      (source, es),
      here refl,
      inl (missing, refl),
      rw missing refl,
    )
    | inl known ↦ elim (check_edges-cases es) [
      | inr (x, missing, found) ↦
          inr (x, (source, es), here refl, inr missing, rw (known, found) refl)
      | inl (fine, joined) ↦ elim (check_index-cases index) [
        | inl (fine', rest) ↦ inl (rw (known, fine) fine', ((known, joined), rest))
        | inr (x, entry, m, missing, found) ↦
            inr (x, entry, there m, missing, rw (known, fine) found)
      ]
    ]
  ]

module _ {X C V : Type 0} where
  -- The start is registered, and so is every id of every edge.
  abbrev pub IsRegisteredGraph : WorkflowGraph X C V → Type 0
  IsRegisteredGraph g =
      (contains_key g.nodes g.start_node_id ≡ true) × All (IsKnownEntry g.nodes) g.edges

  -- The error names the start, the source of an edge or a sink of one, which is not registered.
  abbrev pub IsUnregistered : WorkflowGraph X C V → AgentError → Type 0
  IsUnregistered g x =
      ((contains_key g.nodes g.start_node_id ≡ false) × (x ≡ entry_not_registered g.start_node_id))
      ⊎ ((entry : String × List (Edge C V)) × Elem entry g.edges × IsMissingEntry g.nodes entry x)

  checks-cases :
      (g : WorkflowGraph X C V)
      → (((check_start g >> check_index g.nodes g.edges) ≡ ok tt) × IsRegisteredGraph g)
        ⊎ ((x : AgentError) × IsUnregistered g x
            × ((check_start g >> check_index g.nodes g.edges) ≡ err x))
  unfolding check_start
  checks-cases g = elim (Bool-cases (contains_key g.nodes g.start_node_id)) [
    | inr missing ↦ inr (entry_not_registered g.start_node_id, inl (missing, refl), rw missing refl)
    | inl known ↦ elim (check_index-cases g.nodes g.edges) [
      | inl (fine, entries) ↦ inl (rw (known, fine) refl, (known, entries))
      | inr (x, entry, m, missing, found) ↦ inr (x, inr (entry, m, missing), rw (known, found) refl)
    ]
  ]

  -- What `validate` says of a graph.
  abbrev pub IsValidated : WorkflowGraph X C V → Option (Result (Unit {0})) → Type 0
  IsValidated g r =
      ((x : AgentError) × IsUnregistered g x × (r ≡ some (err x)))
      ⊎ (IsRegisteredGraph g × Searched g r)

  -- `validate` always returns. Where the start, the source of an edge or a sink of one is not
  -- registered, it returns an error that names such an id. Where all of them are registered, it
  -- says `Ok` only if no walk from the start along edges that are not loopback edges ever comes
  -- back (each such edge goes down in some numbering), and names an edge with a way back if not.
  pub validate-IsValidated : (g : WorkflowGraph X C V) → IsValidated g (validate g)
  validate-IsValidated g = elim (checks-cases g) [
    | inl (fine, registered) ↦ elim (validate-Searched g) [
      | inl (x, found, said) ↦ absurd (err≢ok (sym found ∙ fine))
      | inr (fine', searched) ↦ inr (registered, searched)
    ]
    | inr (x, missing, found) ↦ elim (validate-Searched g) [
      | inl (y, found', said) ↦ inl (x, missing, said ∙ ap (λ r. some r) (sym found' ∙ found))
      | inr (fine, searched) ↦ absurd (err≢ok (sym found ∙ fine))
    ]
  ]
