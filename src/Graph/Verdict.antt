-- ===== src/Graph/Verdict.antt =====
-- What `validate` says of a graph (crates/workflow/src/graph/workflow_graph.rs).
use mathlib.Core.Bool.{false≢true}
use rust_agent_framework.Common.{
  ℕ, suc, ◌≤◌, ◌<◌, String, true, false, Option, none, some, List, [], ◌∷◌, ◌++◌, Elem, here, there,
  Elem-append_left, Elem-append_right, Elem-append_cases, length, Map, get, ◌≡◌, ◌⊎◌, refl, sym,
  ◌∙◌, subst, Bool-cases, inl, inr, if◌then◌else◌, ◌==◌, eq_iff, arith, AgentError, Result, ok, err,
  ◌>>◌,
}
use rust_agent_framework.Graph.{
  Color, white, gray, black, Walk, done, cycle, stuck, WorkflowGraph, dfs, all_white, all_sinks,
  edges_from, detect_cycles, cycle_found, cycle_result, check_start, check_index, reachable,
  walk_result, after_checks, validate,
}
use rust_agent_framework.Graph.Edges.{Edge, sink_ids, is_loopback_edge}
use rust_agent_framework.Graph.Walks.{
  none≢black, none≢gray, white≢gray, white≢black, some≢none, forward_sinks, forward, Reach, begin,
  step, whites,
}
use rust_agent_framework.Graph.Cycles.{IsOrder, IsCycle, Good, Entered}
use rust_agent_framework.Graph.Acyclic.{dfs-Good}
use rust_agent_framework.Graph.Reachable.{reachable-closed}

-- The place of an id in an order: later in the list is lower.
abbrev pub rank : List String → String → ℕ
rank [] id = 0
rank (x ∷ xs) id = let rest = rank xs id in if x == id then suc (length xs) else rest

rank-le : (xs : List String) (id : String) → rank xs id ≤ length xs
rank-le [] id = omega arith
rank-le (x ∷ xs) id = ground (arith, rank-le xs id)

get-all_white :
    (ids : List String) (id : String)
    → (get (all_white ids) id ≡ none) ⊎ (get (all_white ids) id ≡ some white)
unfolding get
get-all_white [] id = inl refl
get-all_white (x ∷ xs) id = elim (Bool-cases (x == id)) [
  | inl same ↦ inr (rw same)
  | inr ne ↦ rw ne (get-all_white xs id)
]

get-all_white_of :
    (ids : List String) (id : String) → Elem id ids → get (all_white ids) id ≡ some white
unfolding get
get-all_white_of [] id m = elim m [ ]
get-all_white_of (x ∷ xs) id (here e) = ground (arith, eq_iff x id)
get-all_white_of (x ∷ xs) id (there m) = ground (arith, get-all_white_of xs id m)

whites-all_white : (ids : List String) → whites (all_white ids) ≡ length ids
whites-all_white [] = omega arith
whites-all_white (x ∷ xs) = omega (arith, whites-all_white xs)

module _ {C V : Type 0} (edges : Map (List (Edge C V))) where
  rank-lt :
      (order : List String) (u v : String)
      → IsOrder edges order
      → Elem u order
      → Elem v (forward edges u)
      → (rank order v < rank order u) × Elem v order
  rank-lt [] u v o m e = elim m [ ]
  rank-lt (x ∷ xs) u v (sinks, once, o) m e = elim (Bool-cases (x == u)) [
    | inl same ↦
        let same' = (eq_iff x u).0 same in
        let below = sinks v (subst (λ y. Elem v (forward edges y)) (sym same') e) in
        let apart : (x == v) ≡ false =
          apart_of x v (λ q. once (subst (λ y. Elem y xs) (sym q) below)) in
        (rw (rank, same, apart) (omega (arith, rank-le xs v)), there below)
    | inr ne ↦
        let m' = not_head m (λ q. false≢true (sym ne ∙ (eq_iff x u).1 (sym q))) in
        let (lt, below) = rank-lt xs u v o m' e in
        let apart : (x == v) ≡ false =
          apart_of x v (λ q. once (subst (λ y. Elem y xs) (sym q) below)) in
        (rw (rank, ne, apart) lt, there below)
  ]
    where
      apart_of : (a b : String) → (a ≡ b → ⊥) → (a == b) ≡ false
      apart_of a b ne = elim (Bool-cases (a == b)) [
        | inl e ↦ absurd (ne ((eq_iff a b).0 e))
        | inr d ↦ d
      ]

      not_head : Elem u (x ∷ xs) → (u ≡ x → ⊥) → Elem u xs
      not_head (here q) ne = absurd (ne q)
      not_head (there q) ne = q

  Reach-Elem :
      (order : List String) (start u : String)
      → IsOrder edges order
      → Elem start order
      → Reach edges start u
      → Elem u order
  Reach-Elem order start u o m begin = m
  Reach-Elem order start u o m (step {b = b} r e) =
      (rank-lt order b u o (Reach-Elem order start b o m r) e).1

  -- Every edge that is not a loopback edge, from a node to which such edges lead, goes down.
  abbrev pub IsAcyclic : String → Type 0
  IsAcyclic start =
      (height : String → ℕ) × ((u v : String)
        → Reach edges start u
        → Elem v (forward edges u)
        → height v < height u)

  abbrev pub WalkVerdict : String → Walk → Type 0
  WalkVerdict start (done colors) = IsAcyclic start
  WalkVerdict start (cycle source sink) = IsCycle edges source sink
  WalkVerdict start stuck = ⊥

  Entered-Verdict :
      (ids : List String)
      (closed : (u v : String) → Elem u ids → Elem v (forward edges u) → Elem v ids)
      (start : String) (colors : Map Color) (w : Walk)
      → Good edges (Entered edges ids closed start colors) w
      → WalkVerdict start w
  Entered-Verdict ids closed start colors (done c)
        (((order, (blacks, listed, is_order)), g, k, d, room), finished) =
      (
        rank order,
        λ u v r e.
            (rank-lt order u v is_order
              (Reach-Elem order start u is_order (blacks start finished) r) e).0,
      )
  Entered-Verdict ids closed start colors (cycle a b) is_cycle = is_cycle
  Entered-Verdict ids closed start colors stuck bad = bad

  detect_cycles-Verdict :
      (ids : List String) (start : String)
      → ((u v : String) → Elem u ids → Elem v (forward edges u) → Elem v ids)
      → Elem start ids
      → WalkVerdict start (detect_cycles edges start ids)
  unfolding detect_cycles
  detect_cycles-Verdict ids start closed m =
      let fresh = get-all_white_of ids start m in
      Entered-Verdict ids closed start (all_white ids)
        (dfs edges (suc (length ids)) start (all_white ids))
        (dfs-Good edges ids closed (suc (length ids)) start (all_white ids)
          (
            m,
            λ id i e. absurd (some≢none (sym (get-all_white_of ids id i) ∙ e)),
            ([], (λ id e. absurd (not_black id e), λ id i. elim i [ ], tt)),
            λ id e. absurd (not_gray id e),
          )
          fresh (omega (arith, whites-all_white ids)))
    where
      not_black : (id : String) → get (all_white ids) id ≡ some black → ⊥
      not_black id e = elim (get-all_white ids id) [
        | inl q ↦ none≢black (sym q ∙ e)
        | inr q ↦ white≢black (sym q ∙ e)
      ]

      not_gray : (id : String) → get (all_white ids) id ≡ some gray → ⊥
      not_gray id e = elim (get-all_white ids id) [
        | inl q ↦ none≢gray (sym q ∙ e)
        | inr q ↦ white≢gray (sym q ∙ e)
      ]

  forward-all_sinks :
      (es : List (Edge C V)) (v : String) → Elem v (forward_sinks es) → Elem v (all_sinks es)
  forward-all_sinks [] v m = m
  forward-all_sinks (e ∷ es) v m = elim (Bool-cases (is_loopback_edge e)) [
    | inl back ↦ Elem-append_right (sink_ids e) (
        forward-all_sinks es v (
          subst
            (λ b.
              Elem v (elim b [ true ↦ forward_sinks es | false ↦ sink_ids e ++ forward_sinks es ]))
            back m))
    | inr plain ↦
        elim (Elem-append_cases (sink_ids e) (
          subst
            (λ b.
              Elem v (elim b [ true ↦ forward_sinks es | false ↦ sink_ids e ++ forward_sinks es ]))
            plain m)) [
              | inl own ↦ Elem-append_left (all_sinks es) own
              | inr other ↦ Elem-append_right (sink_ids e) (forward-all_sinks es v other)
            ]
  ]

module _ {X C V : Type 0} where
  -- The search for cycles, after the checks of the ids: it always ends, and either finds no cycle
  -- or names an edge with a way back.
  abbrev pub Searched : WorkflowGraph X C V → Option (Result (Unit {0})) → Type 0
  Searched g r =
      ((r ≡ some (ok tt)) × IsAcyclic g.edges g.start_node_id)
      ⊎ ((source : String) × (sink : String) × (r ≡ some (err (cycle_found source sink)))
          × IsCycle g.edges source sink)

  walk-Searched :
      (g : WorkflowGraph X C V) (w : Walk)
      → WalkVerdict g.edges g.start_node_id w
      → Searched g (cycle_result w)
  walk-Searched g (done c) acyclic = inl (refl, acyclic)
  walk-Searched g (cycle a b) is_cycle = inr (a, b, refl, is_cycle)
  walk-Searched g stuck bad = absurd bad

  walk_result-Searched : (g : WorkflowGraph X C V) → Searched g (walk_result g (reachable g))
  walk_result-Searched g =
      let (ids, found, start, closed) = reachable-closed g.edges g refl in
      rw found (
        walk-Searched g (detect_cycles g.edges g.start_node_id ids) (
          detect_cycles-Verdict g.edges ids g.start_node_id
            (λ u v i m. closed u v i (forward-all_sinks g.edges (edges_from g.edges u) v m)) start))

  -- Where its own checks of the ids find an error, `validate` returns it; otherwise it searches.
  pub validate-Searched :
      (g : WorkflowGraph X C V)
      → ((e : AgentError) × ((check_start g >> check_index g.nodes g.edges) ≡ err e)
          × (validate g ≡ some (err e)))
        ⊎ (((check_start g >> check_index g.nodes g.edges) ≡ ok tt) × Searched g (validate g))
  unfolding validate
  validate-Searched g = go (check_start g >> check_index g.nodes g.edges)
    where
      go :
          (r : Result (Unit {0}))
          → ((e : AgentError) × (r ≡ err e) × (after_checks g r ≡ some (err e)))
            ⊎ ((r ≡ ok tt) × Searched g (after_checks g r))
      go (err e) = inl (e, refl, refl)
      go (ok u) = inr (refl, walk_result-Searched g)
