-- ===== src/Process/Definition/Compile/Linked.antt =====
-- The edges that a compiled process has
-- (`ProcessDefinition::compile` of crates/workflow-pro/src/process/definition.rs).
use mathlib.Core.Option.{some-injective}
use rust_agent_framework.Common.{
  ◌%◌, ◌^◌, ℕ, ◌+◌, String, ◌&&◌, ◌==◌, Option, none, some, List, [], ◌∷◌, map, any, All,
  All-append, Map, get, update_entry, insert, or_default, ◌≡◌, inl, inr, refl, ◌∙◌, subst,
  Bool-cases, Option-cases,
}
use rust_agent_framework.Graph.Edges.{Edge, source_ids, sink_ids, EdgeCondition}
use rust_agent_framework.Builder.Links.{add_edge, add_edge_with_condition}
use rust_agent_framework.Builder.Gateways.{
  branch_edges, push_default, exclusive_gateway as add_exclusive, parallel_gateway as add_parallel,
  inclusive_gateway as add_inclusive,
}
use rust_agent_framework.Condition.{JsonView, evaluate_variable_edge}
use rust_agent_framework.Process.Definition.{
  NodeKind, parallel_gateway, exclusive_gateway, inclusive_gateway, NodeDef, EdgeDef,
  BoundaryEventDef,
}
use rust_agent_framework.Process.Definition.Compile.{
  Tasks, group_edges, condition_of, branches, default_branch, add_plain, kind_of, link_kind,
  link_sources, link_events,
}

module _ (P : String → Type 0) where
  module _ {C V : Type 0} where
    -- Both ends of an edge are as `P` says.
    abbrev pub Ends : Edge C V → Type 0
    Ends e = All P (source_ids e) × All P (sink_ids e)

    -- What stays and what holds while edges are added.
    pub record Links (b b' : Tasks C V) : Type 0 where
      pub nodes : b'.nodes ≡ b.nodes
      pub outputs : b'.output_node_ids ≡ b.output_node_ids
      pub ends : All Ends b.edges → All Ends b'.edges

    Links-refl : (b : Tasks C V) → Links b b
    Links-refl b = record { nodes = refl; outputs = refl; ends = λ h. h }

    Links-trans : {a b c : Tasks C V} → Links a b → Links b c → Links a c
    Links-trans g h = record {
      nodes = h.nodes ∙ g.nodes;
      outputs = h.outputs ∙ g.outputs;
      ends = λ k. h.ends (g.ends k);
    }

    add_edge-Links : (s t : String) (b : Tasks C V) → P s → P t → Links b (add_edge s t b)
    unfolding add_edge source_ids sink_ids
    add_edge-Links s t b p q = record {
      nodes = refl;
      outputs = refl;
      ends = λ h. All-append Ends b.edges _ h (((p, tt), (q, tt)), tt);
    }

    add_edge_with_condition-Links :
        (s t : String) (c : EdgeCondition C V) (b : Tasks C V)
        → P s
        → P t
        → Links b (add_edge_with_condition s t c b)
    unfolding add_edge_with_condition source_ids sink_ids
    add_edge_with_condition-Links s t c b p q = record {
      nodes = refl;
      outputs = refl;
      ends = λ h. All-append Ends b.edges _ h (((p, tt), (q, tt)), tt);
    }

    branch_edges-Ends :
        (id : ℕ → String) (label s : String) (n : ℕ) (bs : List (String × EdgeCondition C V))
        → P s
        → All (λ (x : String × EdgeCondition C V). P x.0) bs
        → All Ends (branch_edges id label s n bs)
    unfolding source_ids sink_ids
    branch_edges-Ends id label s n [] p h = tt
    branch_edges-Ends id label s n ((t, c) ∷ bs) p h =
        (((p, tt), (h.0, tt)), branch_edges-Ends id label s ((n + 1) % 2 ^ 64) bs p h.1)

    push_default-Links :
        (s : String) (d : Option String) (b : Tasks C V)
        → P s
        → ((t : String) → d ≡ some t → P t)
        → Links b (push_default s d b)
    unfolding source_ids sink_ids
    push_default-Links s none b p q = Links-refl b
    push_default-Links s (some t) b p q = record {
      nodes = refl;
      outputs = refl;
      ends = λ h. All-append Ends b.edges _ h (((p, tt), (q t refl, tt)), tt);
    }

  module _ {V : Type 0} where
    -- An edge of the definition, and a source with its edges.
    abbrev pub IsEdge : EdgeDef V → Type 0
    IsEdge e = P e.source × P e.target

    abbrev pub IsGroup : String × List (EdgeDef V) → Type 0
    IsGroup (s, es) = P s × All IsEdge es

    insert-All :
        (s : String) (es : List (EdgeDef V)) (m : Map (List (EdgeDef V)))
        → IsGroup (s, es)
        → All IsGroup m
        → All IsGroup (insert s es m)
    unfolding insert
    insert-All s es [] g h = (g, tt)
    insert-All s es ((j, old) ∷ m) g h = elim (Bool-cases (j == s)) [
      | inl same ↦ rw same ((h.0.0, g.1), h.1)
      | inr other ↦ rw other (h.0, insert-All s es m g h.1)
    ]

    get-All :
        (s : String) (m : Map (List (EdgeDef V)))
        → All IsGroup m
        → All IsEdge (or_default [] (get m s))
    unfolding get
    get-All s [] h = tt
    get-All s ((j, es) ∷ m) h = elim (Bool-cases (j == s)) [
      | inl same ↦ rw same h.0.1
      | inr other ↦ rw other (get-All s m h.1)
    ]

    pub group_edges-All :
        (es : List (EdgeDef V)) (m : Map (List (EdgeDef V)))
        → All IsEdge es
        → All IsGroup m
        → All IsGroup (group_edges es m)
    unfolding group_edges update_entry
    group_edges-All [] m h k = k
    group_edges-All (e ∷ es) m h k = group_edges-All es _ h.1 (
        insert-All e.source _ m
          (
            h.0.0,
            All-append IsEdge (or_default [] (get m e.source)) _ (get-All e.source m k) (h.0, tt),
          )
          k)

    targets : (es : List (EdgeDef V)) → All IsEdge es → All P (map (λ (e : EdgeDef V). e.target) es)
    targets [] h = tt
    targets (e ∷ es) h = (h.0.1, targets es h.1)

    default_branch-target :
        (null : V) (found : Option String) (es : List (EdgeDef V))
        → ((t : String) → found ≡ some t → P t)
        → All IsEdge es
        → (t : String) → default_branch null found es ≡ some t
        → P t
    default_branch-target null found [] h k t e = h t e
    default_branch-target null found (x ∷ es) h k t e = elim (Option-cases (condition_of null x)) [
      | inl open_end ↦
          let step : default_branch null (some x.target) es ≡ default_branch null found (x ∷ es) =
            rw (default_branch, open_end) refl in
          default_branch-target null (some x.target) es
            (λ u f. subst P (some-injective _ _ f) k.0.1) k.1 t (step ∙ e)
      | inr (c, closed) ↦
          let step : default_branch null found es ≡ default_branch null found (x ∷ es) =
            rw (default_branch, closed) refl in
          default_branch-target null found es h k.1 t (step ∙ e)
    ]

  module _ {V : Type 0} (view : JsonView V) where
    branches-targets :
        (C : Type 0) (es : List (EdgeDef V))
        → All IsEdge es
        → All (λ (x : String × EdgeCondition C V). P x.0) (branches {C = C} view es)
    branches-targets C [] h = tt
    branches-targets C (e ∷ es) h = elim (Option-cases (condition_of view.null e)) [
      | inl open_end ↦ rw (branches, open_end) (branches-targets C es h.1)
      | inr (c, closed) ↦ rw (branches, closed) (h.0.1, branches-targets C es h.1)
    ]

  module _ {C V : Type 0} (view : JsonView V) where
    add_plain-Links :
        (es : List (EdgeDef V)) (b : Tasks C V) → All IsEdge es → Links b (add_plain view es b)
    add_plain-Links [] b h = Links-refl b
    add_plain-Links (e ∷ es) b h = elim (Option-cases (condition_of view.null e)) [
      | inl open_end ↦
          rw (add_plain, open_end)
            (Links-trans (add_edge-Links e.source e.target b h.0.0 h.0.1)
              (add_plain-Links es (add_edge e.source e.target b) h.1))
      | inr (c, closed) ↦
          let f = evaluate_variable_edge view c in
          rw (add_plain, closed)
            (Links-trans (add_edge_with_condition-Links e.source e.target f b h.0.0 h.0.1)
              (add_plain-Links es (add_edge_with_condition e.source e.target f b) h.1))
    ]

    add_exclusive-Links :
        (s : String) (es : List (EdgeDef V)) (b : Tasks C V)
        → P s
        → All IsEdge es
        → Links b (add_exclusive s (branches view es) (default_branch view.null none es) b)
    unfolding add_exclusive
    add_exclusive-Links s es b p h =
        Links-trans
          (record {
            nodes = refl;
            outputs = refl;
            ends = λ k. All-append Ends b.edges _ k (
                branch_edges-Ends _ _ s b.edge_count (branches view es) p
                  (branches-targets view C es h));
          })
          (push_default-Links s (default_branch view.null none es) _ p
            (default_branch-target view.null none es (λ t e. cc) h))

    add_parallel-Links :
        (s : String) (es : List (EdgeDef V)) (b : Tasks C V)
        → P s
        → All IsEdge es
        → Links b (add_parallel s (map (λ (e : EdgeDef V). e.target) es) b)
    unfolding add_parallel source_ids sink_ids
    add_parallel-Links s es b p h = record {
      nodes = refl;
      outputs = refl;
      ends = λ k. All-append Ends b.edges _ k (((p, tt), targets es h), tt);
    }

    add_inclusive-Links :
        (s : String) (es : List (EdgeDef V)) (b : Tasks C V)
        → P s
        → All IsEdge es
        → Links b (add_inclusive s (branches view es) b)
    unfolding add_inclusive
    add_inclusive-Links s es b p h = record {
      nodes = refl;
      outputs = refl;
      ends = λ k. All-append Ends b.edges _ k (
          branch_edges-Ends _ _ s b.edge_count (branches view es) p (branches-targets view C es h));
    }

    link_kind-Links :
        (kind : Option NodeKind) (s : String) (es : List (EdgeDef V)) (b : Tasks C V)
        → P s
        → All IsEdge es
        → Links b (link_kind view kind s es b)
    link_kind-Links (some exclusive_gateway) s es b p h = add_exclusive-Links s es b p h
    link_kind-Links (some parallel_gateway) s es b p h = add_parallel-Links s es b p h
    link_kind-Links (some inclusive_gateway) s es b p h = add_inclusive-Links s es b p h
    link_kind-Links _ s es b p h = add_plain-Links es b h

    pub link_sources-Links :
        (nodes : List NodeDef) (m : Map (List (EdgeDef V))) (b : Tasks C V)
        → All IsGroup m
        → Links b (link_sources view nodes m b)
    unfolding link_sources
    link_sources-Links nodes [] b h = Links-refl b
    link_sources-Links nodes ((s, es) ∷ m) b h =
        let b' = link_kind view (kind_of nodes s) s es b in
        Links-trans (link_kind-Links (kind_of nodes s) s es b h.0.0 h.0.1)
          (link_sources-Links nodes m b' h.1)

  abbrev pub IsEvent : BoundaryEventDef → Type 0
  IsEvent ev = P ev.attached_to × P ev.event_node_id

  module _ {C V : Type 0} where
    pub link_events-Links :
        (edges : List (EdgeDef V)) (evs : List BoundaryEventDef) (b : Tasks C V)
        → All IsEvent evs
        → Links b (link_events edges evs b)
    unfolding link_events
    link_events-Links edges [] b h = Links-refl b
    link_events-Links edges (ev ∷ evs) b h =
        elim (Bool-cases (
          any (λ (e : EdgeDef V). e.source == ev.attached_to && e.target == ev.event_node_id)
            edges)) [
              | inl linked ↦ rw (link_events, linked) (link_events-Links edges evs b h.1)
              | inr unlinked ↦
                  rw (link_events, unlinked)
                    (Links-trans (add_edge-Links ev.attached_to ev.event_node_id b h.0.0 h.0.1) (
                      link_events-Links edges evs (add_edge ev.attached_to ev.event_node_id b) h.1))
            ]
