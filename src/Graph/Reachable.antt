-- ===== src/Graph/Reachable.antt =====
-- The breadth-first search of `validate` (crates/workflow/src/graph/workflow_graph.rs): it ends,
-- and what it finds is closed under every edge.
use rust_agent_framework.Common.{
  ℕ, zero, suc, ◌+◌, ◌≤◌, String, false, some, List, [], ◌∷◌, ◌++◌, Elem, here, there,
  Elem-append_left, Elem-append_right, mem, mem→Elem, length, length-append, ◌||◌, Map, get,
  or_default, ◌≡◌, ◌⊎◌, refl, sym, subst, Bool-cases, inl, inr, if◌then◌else◌, ◌==◌, eq_refl, arith,
}
use rust_agent_framework.Graph.{
  WorkflowGraph, push_new, bfs, all_sinks, edges_from, index_sinks, reachable,
}
use rust_agent_framework.Graph.Edges.{Edge}

-- How many of the ids were not visited yet.
abbrev unseen : List String → List String → ℕ
unseen [] visited = 0
unseen (x ∷ xs) visited = (if mem x visited then 0 else 1) + unseen xs visited

unseen-length : (xs visited : List String) → unseen xs visited ≤ length xs
unseen-length [] visited = omega arith
unseen-length (x ∷ xs) visited = ground (arith, unseen-length xs visited)

mem-snoc :
    (x s : String) (visited : List String) → mem x (visited ++ s ∷ []) ≡ (mem x visited || x == s)
mem-snoc x s [] = ground arith
mem-snoc x s (v ∷ visited) = ground (arith, mem-snoc x s visited)

unseen-snoc_le :
    (xs : List String) (s : String) (visited : List String)
    → unseen xs (visited ++ s ∷ []) ≤ unseen xs visited
unseen-snoc_le [] s visited = omega arith
unseen-snoc_le (x ∷ xs) s visited =
    ground (arith, unseen-snoc_le xs s visited, mem-snoc x s visited)

unseen-snoc :
    (xs : List String) (s : String) (visited : List String)
    → Elem s xs
    → mem s visited ≡ false
    → unseen xs (visited ++ s ∷ []) + 1 ≤ unseen xs visited
unseen-snoc [] s visited m new = elim m [ ]
unseen-snoc (x ∷ xs) s visited (here e) new =
    rw (← e) (ground (arith, unseen-snoc_le xs s visited, mem-snoc s s visited, eq_refl s))
unseen-snoc (x ∷ xs) s visited (there m) new =
    ground (arith, unseen-snoc xs s visited m new, mem-snoc x s visited)

uncons : {u x : String} {xs : List String} → Elem u (x ∷ xs) → (u ≡ x) ⊎ Elem u xs
uncons (here e) = inl e
uncons (there m) = inr m

unsnoc : {u s : String} (xs : List String) → Elem u (xs ++ s ∷ []) → Elem u xs ⊎ (u ≡ s)
unsnoc [] (here e) = inr e
unsnoc [] (there m) = elim m [ ]
unsnoc (x ∷ xs) (here e) = inl (here e)
unsnoc (x ∷ xs) (there m) = elim (unsnoc xs m) [ inl l ↦ inl (there l) | inr r ↦ inr r ]

last : (s : String) (xs : List String) → Elem s (xs ++ s ∷ [])
last s xs = Elem-append_right xs (here refl)

-- What one round of pushing does.
record IsPushed (all ss : List String) (before after : List String × List String) : Type 0 where
  kept : (u : String) → Elem u before.0 → Elem u after.0
  queued : (u : String) → Elem u before.1 → Elem u after.1
  pushed : (u : String) → Elem u ss → Elem u after.0
  new : (u : String) → Elem u after.0 → Elem u before.0 ⊎ Elem u after.1
  shrinks : length after.1 + unseen all after.0 ≤ length before.1 + unseen all before.0

push_new-IsPushed :
    (all ss visited queue : List String)
    → ((s : String) → Elem s ss → Elem s all)
    → IsPushed all ss (visited, queue) (push_new ss (visited, queue))
unfolding push_new
push_new-IsPushed all [] visited queue sub = record {
  kept = λ u m. m;
  queued = λ u m. m;
  pushed = λ u m. elim m [ ];
  new = λ u m. inl m;
  shrinks = omega arith;
}
push_new-IsPushed all (s ∷ ss) visited queue sub = elim (Bool-cases (mem s visited)) [
  | inl seen ↦
      let rest = push_new-IsPushed all ss visited queue (λ u m. sub u (there m)) in
      rw (push_new, seen)
        (record {
          kept = rest.kept;
          queued = rest.queued;
          pushed = λ u m. elim (uncons m) [
            | inl e ↦ rest.kept u (subst (λ x. Elem x visited) (sym e) (mem→Elem s visited seen))
            | inr m' ↦ rest.pushed u m'
          ];
          new = rest.new;
          shrinks = rest.shrinks;
        })
  | inr fresh ↦
      let rest =
        push_new-IsPushed all ss (visited ++ s ∷ []) (queue ++ s ∷ []) (λ u m. sub u (there m)) in
      rw (push_new, fresh)
        (record {
          kept = λ u m. rest.kept u (Elem-append_left (s ∷ []) m);
          queued = λ u m. rest.queued u (Elem-append_left (s ∷ []) m);
          pushed = λ u m. elim (uncons m) [
            | inl e ↦ rest.kept u (subst (λ x. Elem x (visited ++ s ∷ [])) (sym e) (last s visited))
            | inr m' ↦ rest.pushed u m'
          ];
          new = λ u m. elim (rest.new u m) [
            | inr q ↦ inr q
            | inl v ↦ elim (unsnoc visited v) [
              | inl old ↦ inl old
              | inr e ↦
                  inr (rest.queued u (subst (λ x. Elem x (queue ++ s ∷ [])) (sym e) (last s queue)))
            ]
          ];
          shrinks = omega (
            arith,
            rest.shrinks,
            unseen-snoc all s visited (sub s (here refl)) fresh,
            length-append queue (s ∷ []),
          );
        })
]

module _ {C V : Type 0} (edges : Map (List (Edge C V))) where
  sink-index_sinks :
      (index : Map (List (Edge C V))) (u s : String)
      → Elem s (all_sinks (or_default [] (get index u)))
      → Elem s (index_sinks index)
  unfolding get
  sink-index_sinks [] u s m = elim m [ ]
  sink-index_sinks ((k, es) ∷ index) u s m = elim (Bool-cases (k == u)) [
    | inl same ↦ Elem-append_left (index_sinks index) (
        subst (λ b. Elem s (all_sinks (or_default [] (if b then some es else get index u)))) same m)
    | inr ne ↦ Elem-append_right (all_sinks es) (
        sink-index_sinks index u s (
          subst (λ b. Elem s (all_sinks (or_default [] (if b then some es else get index u)))) ne
            m))
  ]

  -- Every visited id is still queued, or its sinks were visited.
  abbrev Explores : List String → List String → Type 0
  Explores visited queue =
      (u : String)
      → Elem u visited
      → Elem u queue ⊎ ((v : String) → Elem v (all_sinks (edges_from edges u)) → Elem v visited)

  bfs-nil : (fuel : ℕ) (visited : List String) → bfs edges fuel (visited, []) ≡ some visited
  unfolding bfs
  bfs-nil zero visited = refl
  bfs-nil (suc fuel) visited = refl

  bfs-closed :
      (fuel : ℕ) (visited queue : List String)
      → Explores visited queue
      → length queue + unseen (index_sinks edges) visited ≤ fuel
      → (ids : List String) × (bfs edges fuel (visited, queue) ≡ some ids)
        × ((u : String) → Elem u visited → Elem u ids)
        × ((u v : String) → Elem u ids → Elem v (all_sinks (edges_from edges u)) → Elem v ids)
  unfolding bfs
  bfs-closed fuel visited [] ex room = (
    visited,
    bfs-nil fuel visited,
    λ u m. m,
    λ u v m e. elim (ex u m) [ inl q ↦ elim q [ ] | inr f ↦ f v e ],
  )
  bfs-closed zero visited (current ∷ queue) ex room = absurd (omega arith)
  bfs-closed (suc fuel) visited (current ∷ queue) ex room =
      let sinks = all_sinks (edges_from edges current) in
      let after = push_new sinks (visited, queue) in
      let p =
        push_new-IsPushed (index_sinks edges) sinks visited queue
          (λ s m. sink-index_sinks edges current s m) in
      let explores : Explores after.0 after.1 = λ u m. elim (p.new u m) [
        | inr q ↦ inl q
        | inl old ↦ elim (ex u old) [
          | inr f ↦ inr (λ v e. p.kept v (f v e))
          | inl q ↦ elim (uncons q) [
            | inr q' ↦ inl (p.queued u q')
            | inl same ↦
                inr
                  (λ v e. p.pushed v (subst (λ x. Elem v (all_sinks (edges_from edges x))) same e))
          ]
        ]
      ] in
      let (ids, found, kept, closed) =
        bfs-closed fuel after.0 after.1 explores (omega (arith, p.shrinks)) in
      (ids, found, λ u m. kept u (p.kept u m), closed)

  -- The search of `validate` ends with a set of ids that holds the start and every sink of an edge
  -- that leaves one of them.
  pub reachable-closed :
      {X : Type 0} (g : WorkflowGraph X C V)
      → g.edges ≡ edges
      → (ids : List String) × (reachable g ≡ some ids)
        × Elem g.start_node_id ids
        × ((u v : String) → Elem u ids → Elem v (all_sinks (edges_from edges u)) → Elem v ids)
  unfolding reachable
  reachable-closed g e =
      let start = g.start_node_id ∷ [] in
      let (ids, found, kept, closed) =
        bfs-closed (suc (length (index_sinks edges))) start start (λ u m. inl m)
          (omega (arith, unseen-length (index_sinks edges) start)) in
      (ids, rw e found, kept g.start_node_id (here refl), closed)
