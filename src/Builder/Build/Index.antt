-- ===== src/Builder/Build/Index.antt =====
-- The edges by source that `build` makes (crates/workflow/src/builder/workflow_builder.rs).
use rust_agent_framework.Common.{
  String, Bool, true, List, [], ◌∷◌, ◌++◌, All, All-append, Elem, here, there, ◌||◌, Map, get,
  insert, update_entry, get-update_entry, ◌≡◌, refl, sym, subst, Bool-cases, inl, inr, arith, ◌==◌,
  eq_iff, eq_refl,
}
use rust_agent_framework.Graph.{edges_from}
use rust_agent_framework.Graph.Edges.{Edge, edge_id, source_ids, has_edge, insert_edge}
use rust_agent_framework.Builder.Build.{index_edge, index_edges}

module _ {C V : Type 0} where
  -- The entries of an index: known sources, each with edges of its own from a list.
  abbrev pub IsEntry : (String → Type 0) → List (Edge C V) → String × List (Edge C V) → Type 0
  IsEntry K all (s, es) = K s × All (λ e. Elem e all × Elem s (source_ids e)) es

  abbrev pub AllEntries : (String → Type 0) → List (Edge C V) → Map (List (Edge C V)) → Type 0
  AllEntries K all index = All (IsEntry K all) index

  All-insert_edge :
      (P : Edge C V → Type 0) (e : Edge C V) (es : List (Edge C V))
      → P e
      → All P es
      → All P (insert_edge e es)
  unfolding insert_edge
  All-insert_edge P e es p h = elim (Bool-cases (has_edge (edge_id e) es)) [
    | inl dup ↦ rw dup h
    | inr fresh ↦ rw fresh (All-append P es (e ∷ []) h (p, tt))
  ]

  All-insert :
      (K : String → Type 0) (all : List (Edge C V)) (k : String) (es : List (Edge C V))
      (index : Map (List (Edge C V)))
      → IsEntry K all (k, es)
      → AllEntries K all index
      → AllEntries K all (insert k es index)
  unfolding insert
  All-insert K all k es [] entry h = (entry, tt)
  All-insert K all k es ((j, fs) ∷ index) entry h = elim (Bool-cases (j == k)) [
    | inl same ↦ rw same (subst (λ x. IsEntry K all (x, es)) (sym ((eq_iff j k).0 same)) entry, h.1)
    | inr ne ↦ rw ne (h.0, All-insert K all k es index entry h.1)
  ]

  edges_from-All :
      (K : String → Type 0) (all : List (Edge C V)) (index : Map (List (Edge C V))) (s : String)
      → AllEntries K all index
      → All (λ e. Elem e all × Elem s (source_ids e)) (edges_from index s)
  unfolding get
  edges_from-All K all [] s h = tt
  edges_from-All K all ((j, fs) ∷ index) s h = elim (Bool-cases (j == s)) [
    | inl same ↦ rw same (rw (← (eq_iff j s).0 same) h.0.1)
    | inr ne ↦ rw ne (edges_from-All K all index s h.1)
  ]

  index_edge-AllEntries :
      (K : String → Type 0) (all : List (Edge C V)) (e : Edge C V) (ss : List String)
      (index : Map (List (Edge C V)))
      → Elem e all
      → ((s : String) → Elem s ss → K s × Elem s (source_ids e))
      → AllEntries K all index
      → AllEntries K all (index_edge e ss index)
  unfolding index_edge update_entry
  index_edge-AllEntries K all e [] index m own h = h
  index_edge-AllEntries K all e (s ∷ ss) index m own h =
      let (known, from) = own s (here refl) in
      index_edge-AllEntries K all e ss (update_entry s [] (insert_edge e) index) m
        (λ t n. own t (there n))
        (All-insert K all s (insert_edge e (edges_from index s)) index
          (
            known,
            All-insert_edge (λ f. Elem f all × Elem s (source_ids f)) e (edges_from index s)
                (m, from) (edges_from-All K all index s h),
          )
          h)

  -- Every edge in the index stands under one of its own sources.
  pub index_edges-AllEntries :
      (K : String → Type 0) (all es : List (Edge C V)) (index : Map (List (Edge C V)))
      → ((e : Edge C V) → Elem e es → Elem e all)
      → ((e : Edge C V) (s : String) → Elem e es → Elem s (source_ids e) → K s)
      → AllEntries K all index
      → AllEntries K all (index_edges es index)
  unfolding index_edges
  index_edges-AllEntries K all [] index sub known h = h
  index_edges-AllEntries K all (e ∷ es) index sub known h =
      index_edges-AllEntries K all es (index_edge e (source_ids e) index) (λ f m. sub f (there m))
        (λ f s m. known f s (there m))
        (index_edge-AllEntries K all e (source_ids e) index (sub e (here refl))
          (λ s m. (known e s (here refl) m, m)) h)

  has_edge-snoc :
      (id : String) (e : Edge C V) (es : List (Edge C V))
      → has_edge id (es ++ e ∷ []) ≡ (has_edge id es || edge_id e == id)
  has_edge-snoc id e [] = ground arith
  has_edge-snoc id e (f ∷ es) = ground (arith, has_edge-snoc id e es)

  has_edge-insert_edge :
      (id : String) (e : Edge C V) (es : List (Edge C V))
      → has_edge id (insert_edge e es) ≡ (has_edge id es || edge_id e == id)
  unfolding insert_edge
  has_edge-insert_edge id e es = elim (Bool-cases (has_edge (edge_id e) es)) [
    | inr fresh ↦ rw fresh (has_edge-snoc id e es)
    | inl dup ↦ rw dup (elim (Bool-cases (edge_id e == id)) [
      | inl same ↦
          let there_is : has_edge id es ≡ true = rw (← (eq_iff (edge_id e) id).0 same) dup in
          rw there_is
      | inr ne ↦ ground arith
    ])
  ]

  -- The id of an edge, among those that leave a source.
  abbrev pub lists : Map (List (Edge C V)) → String → String → Bool
  lists index s id = has_edge id (edges_from index s)

  lists-update :
      (e : Edge C V) (k : String) (index : Map (List (Edge C V))) (s id : String)
      → lists index s id ≡ true
      → lists (update_entry k [] (insert_edge e) index) s id ≡ true
  lists-update e k index s id h =
      rw (get-update_entry k s [] (insert_edge e) index) (elim (Bool-cases (k == s)) [
        | inl same ↦ rw (same, has_edge-insert_edge, (eq_iff k s).0 same, h) refl
        | inr ne ↦ rw ne h
      ])

  lists-update_own :
      (e : Edge C V) (k : String) (index : Map (List (Edge C V))) (s : String)
      → s ≡ k
      → lists (update_entry k [] (insert_edge e) index) s (edge_id e) ≡ true
  lists-update_own e k index s q =
      rw
        (
          get-update_entry k s [] (insert_edge e) index,
          q,
          eq_refl k,
          has_edge-insert_edge,
          eq_refl (edge_id e),
        )
        (ground arith)

  lists-index_edge :
      (e : Edge C V) (ss : List String) (index : Map (List (Edge C V))) (s id : String)
      → lists index s id ≡ true
      → lists (index_edge e ss index) s id ≡ true
  unfolding index_edge
  lists-index_edge e [] index s id h = h
  lists-index_edge e (k ∷ ss) index s id h =
      lists-index_edge e ss (update_entry k [] (insert_edge e) index) s id
        (lists-update e k index s id h)

  lists-index_edge_own :
      (e : Edge C V) (ss : List String) (index : Map (List (Edge C V))) (s : String)
      → Elem s ss
      → lists (index_edge e ss index) s (edge_id e) ≡ true
  unfolding index_edge
  lists-index_edge_own e [] index s m = elim m [ ]
  lists-index_edge_own e (k ∷ ss) index s (here q) =
      lists-index_edge e ss (update_entry k [] (insert_edge e) index) s (edge_id e)
        (lists-update_own e k index s q)
  lists-index_edge_own e (k ∷ ss) index s (there m) =
      lists-index_edge_own e ss (update_entry k [] (insert_edge e) index) s m

  lists-index_edges :
      (es : List (Edge C V)) (index : Map (List (Edge C V))) (s id : String)
      → lists index s id ≡ true
      → lists (index_edges es index) s id ≡ true
  unfolding index_edges
  lists-index_edges [] index s id h = h
  lists-index_edges (e ∷ es) index s id h =
      lists-index_edges es (index_edge e (source_ids e) index) s id
        (lists-index_edge e (source_ids e) index s id h)

  pub index_edges-lists :
      (es : List (Edge C V)) (index : Map (List (Edge C V))) (e : Edge C V) (s : String)
      → Elem e es
      → Elem s (source_ids e)
      → lists (index_edges es index) s (edge_id e) ≡ true
  unfolding index_edges
  index_edges-lists [] index e s m n = elim m [ ]
  index_edges-lists (f ∷ es) index e s (here q) n =
      subst (λ x. lists (index_edges es (index_edge f (source_ids f) index)) s (edge_id x) ≡ true)
        (sym q)
        (lists-index_edges es (index_edge f (source_ids f) index) s (edge_id f)
          (lists-index_edge_own f (source_ids f) index s (subst (λ x. Elem s (source_ids x)) q n)))
  index_edges-lists (f ∷ es) index e s (there m) n =
      index_edges-lists es (index_edge f (source_ids f) index) e s m n

  -- An index of a list of edges: an edge stands in it under its own sources only, and under each
  -- of them, as far as its id goes (of two edges with one id and one source, one is kept).
  abbrev pub IsIndex : List (Edge C V) → Map (List (Edge C V)) → Type 0
  IsIndex es index =
      AllEntries (λ s. Unit {0}) es index
      × ((e : Edge C V) (s : String)
          → Elem e es
          → Elem s (source_ids e)
          → lists index s (edge_id e) ≡ true)

  pub index_edges-IsIndex : (es : List (Edge C V)) → IsIndex es (index_edges es [])
  index_edges-IsIndex es = (
    index_edges-AllEntries (λ s. Unit {0}) es es [] (λ e m. m) (λ e s m n. tt) tt,
    λ e s m n. index_edges-lists es [] e s m n,
  )
