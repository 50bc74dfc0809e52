-- ===== src/Graph/Cycles.antt =====
-- The depth-first search of `detect_cycles` (crates/workflow/src/graph/workflow_graph.rs): the
-- order in which it finishes the nodes, and the cycle that it reports.
use rust_agent_framework.Common.{
  ℕ, ◌≤◌, String, none, some, List, [], ◌∷◌, ◌++◌, Elem, here, there, Elem-append_right, All, Map,
  get, ◌≡◌, ◌≢◌, ◌↔◌, refl, Bool-cases, inl, inr, arith,
}
use rust_agent_framework.Graph.{
  Color, white, gray, black, Walk, done, cycle, stuck, and_then, scan_sinks, scan_edges,
}
use rust_agent_framework.Graph.Edges.{Edge, sink_ids, is_loopback_edge}
use rust_agent_framework.Graph.Walks.{
  forward_sinks, forward, Reach, step, sink-forward_sinks, Color-cases, whites,
}

module _ {C V : Type 0} (edges : Map (List (Edge C V))) where
  -- Later nodes first: each node's sinks come after it in the list, and it does not come again.
  abbrev pub IsOrder : List String → Type 0
  IsOrder [] = Unit
  IsOrder (u ∷ order) =
      ((v : String) → Elem v (forward edges u) → Elem v order) × (Elem u order → ⊥) × IsOrder order

  -- The black nodes are those of the order.
  abbrev pub IsFinished : Map Color → List String → Type 0
  IsFinished colors order =
      ((id : String) → get colors id ≡ some black → Elem id order)
      × ((id : String) → Elem id order → get colors id ≡ some black)
      × IsOrder order

  -- What a part of the walk leaves unchanged or finishes.
  abbrev pub After : Map Color → Map Color → Type 0
  After colors colors' =
      ((order : List String) × IsFinished colors' order)
      × ((id : String) → (get colors id ≡ some gray) ↔ (get colors' id ≡ some gray))
      × ((id : String) → get colors id ≡ some black → get colors' id ≡ some black)
      × ((id : String) → get colors id ≢ none → get colors' id ≢ none)
      × (whites colors' ≤ whites colors)

  -- An edge and a way back.
  abbrev pub IsCycle : String → String → Type 0
  IsCycle source sink = Elem sink (forward edges source) × Reach edges sink source

  abbrev pub Good : (Map Color → Type 0) → Walk → Type 0
  Good P (done colors) = P colors
  Good P (cycle source sink) = IsCycle source sink
  Good P stuck = ⊥

  pub Good-and_then :
      (P Q : Map Color → Type 0) (w : Walk) (f : Map Color → Walk)
      → Good P w
      → ((c : Map Color) → P c → Good Q (f c))
      → Good Q (and_then w f)
  Good-and_then P Q (done c) f p k = k c p
  Good-and_then P Q (cycle a b) f p k = p
  Good-and_then P Q stuck f p k = absurd p

  Good-map :
      (P Q : Map Color → Type 0) (w : Walk) → Good P w → ((c : Map Color) → P c → Q c) → Good Q w
  Good-map P Q (done c) p k = k c p
  Good-map P Q (cycle a b) p k = p
  Good-map P Q stuck p k = p

  After-trans : (a b c : Map Color) → After a b → After b c → After a c
  After-trans a b c (o, g, k, d, w) (o', g', k', d', w') = (
    o',
    λ id. (λ e. (g' id).0 ((g id).0 e), λ e. (g id).1 ((g' id).1 e)),
    λ id e. k' id (k id e),
    λ id e. d' id (d id e),
    omega arith,
  )

  -- The gray nodes lead to the node at hand.
  abbrev pub Leads : Map Color → String → Type 0
  Leads colors node = (id : String) → get colors id ≡ some gray → Reach edges id node

  module _ (ids : List String)
      (closed : (u v : String) → Elem u ids → Elem v (forward edges u) → Elem v ids) where
    abbrev pub Known : Map Color → Type 0
    Known colors = (id : String) → Elem id ids → get colors id ≢ none

    -- Where the walk stands when it enters a white node.
    abbrev pub Enters : String → Map Color → Type 0
    Enters node colors =
        Elem node ids
        × Known colors
        × ((order : List String) × IsFinished colors order)
        × Leads colors node

    abbrev pub Entered : String → Map Color → Map Color → Type 0
    Entered node colors colors' = After colors colors' × (get colors' node ≡ some black)

    abbrev pub IsVisit : ℕ → (String → Map Color → Walk) → Type 0
    IsVisit room visit =
        (node : String) (colors : Map Color)
        → Enters node colors
        → get colors node ≡ some white
        → whites colors ≤ room
        → Good (Entered node colors) (visit node colors)

    abbrev pub Scanned : List String → Map Color → Map Color → Type 0
    Scanned sinks colors colors' =
        After colors colors' × All (λ s. get colors' s ≡ some black) sinks

    -- Where a scan of a node's sinks stands.
    abbrev pub Scans : ℕ → String → Map Color → Type 0
    Scans room node colors =
        Known colors
        × ((order : List String) × IsFinished colors order)
        × Leads colors node
        × (whites colors ≤ room)

    Scans-After :
        (room : ℕ) (node : String) (colors colors' : Map Color)
        → Scans room node colors
        → After colors colors'
        → Scans room node colors'
    Scans-After room node colors colors' (known, o, leads, w) (o', g, k, d, w') =
        (λ id m. d id (known id m), o', λ id e. leads id ((g id).1 e), omega arith)

    After-refl :
        (room : ℕ) (node : String) (colors : Map Color)
        → Scans room node colors
        → After colors colors
    After-refl room node colors (known, o, leads, w) =
        (o, λ id. (λ e. e, λ e. e), λ id e. e, λ id e. e, omega arith)

    scan_sinks-Good :
        (room : ℕ) (visit : String → Map Color → Walk) (node : String)
        → IsVisit room visit
        → Elem node ids
        → (sinks : List String) (colors : Map Color)
        → ((s : String) → Elem s sinks → Elem s (forward edges node))
        → Scans room node colors
        → Good (Scanned sinks colors) (scan_sinks visit node sinks colors)
    unfolding scan_sinks
    scan_sinks-Good room visit node good here_it [] colors sub scans =
        (After-refl room node colors scans, tt)
    scan_sinks-Good room visit node good here_it (sink ∷ sinks) colors sub scans =
        let (known, order, leads, w) = scans in
        let edge = sub sink (here refl) in
        let rest = scan_sinks-Good room visit node good here_it sinks in
        let sub' : (s : String) → Elem s sinks → Elem s (forward edges node) =
          λ s m. sub s (there m) in
        elim (Color-cases (get colors sink)) [
          | inl absent ↦ absurd (known sink (closed node sink here_it edge) absent)
          | inr (inl fresh) ↦
              rw (scan_sinks, fresh)
                (Good-and_then (Entered sink colors) (Scanned (sink ∷ sinks) colors)
                  (visit sink colors) (scan_sinks visit node sinks)
                  (good sink colors
                    (closed node sink here_it edge, known, order, λ id e. step (leads id e) edge)
                    fresh w)
                  (λ c (after, finished).
                    Good-map (Scanned sinks c) (Scanned (sink ∷ sinks) colors)
                      (scan_sinks visit node sinks c)
                      (rest c sub' (Scans-After room node colors c scans after))
                      (λ c' (after', all').
                        (After-trans colors c c' after after', (after'.2 sink finished, all')))))
          | inr (inr (inl open_it)) ↦ rw (scan_sinks, open_it) (edge, leads sink open_it)
          | inr (inr (inr finished)) ↦
              rw (scan_sinks, finished)
                (Good-map (Scanned sinks colors) (Scanned (sink ∷ sinks) colors)
                  (scan_sinks visit node sinks colors) (rest colors sub' scans)
                  (λ c' (after', all'). (after', (after'.2 sink finished, all'))))
        ]

    All-black :
        (xs ys : List String) (c c' : Map Color)
        → All (λ s. get c s ≡ some black) xs
        → All (λ s. get c' s ≡ some black) ys
        → After c c'
        → All (λ s. get c' s ≡ some black) (xs ++ ys)
    All-black [] ys c c' p q after = q
    All-black (x ∷ xs) ys c c' p q after = (after.2 x p.0, All-black xs ys c c' p.1 q after)

    pub scan_edges-Good :
        (room : ℕ) (visit : String → Map Color → Walk) (node : String)
        → IsVisit room visit
        → Elem node ids
        → (es : List (Edge C V)) (colors : Map Color)
        → ((s : String) → Elem s (forward_sinks es) → Elem s (forward edges node))
        → Scans room node colors
        → Good (Scanned (forward_sinks es) colors) (scan_edges visit node es colors)
    unfolding scan_edges
    scan_edges-Good room visit node good here_it [] colors sub scans =
        (After-refl room node colors scans, tt)
    scan_edges-Good room visit node good here_it (e ∷ es) colors sub scans =
        elim (Bool-cases (is_loopback_edge e)) [
          | inl back ↦
              rw (scan_edges, forward_sinks, back)
                (scan_edges-Good room visit node good here_it es colors
                  (λ s m. sub s (rw (forward_sinks, back) m)) scans)
          | inr plain ↦
              let sub1 : (s : String) → Elem s (sink_ids e) → Elem s (forward edges node) =
                λ s m. sub s (sink-forward_sinks e es plain s m) in
              let sub2 : (s : String) → Elem s (forward_sinks es) → Elem s (forward edges node) =
                λ s m. sub s (rw (forward_sinks, plain) (Elem-append_right (sink_ids e) m)) in
              rw (scan_edges, forward_sinks, plain)
                (Good-and_then (Scanned (sink_ids e) colors)
                  (Scanned (sink_ids e ++ forward_sinks es) colors)
                  (scan_sinks visit node (sink_ids e) colors) (scan_edges visit node es)
                  (scan_sinks-Good room visit node good here_it (sink_ids e) colors sub1 scans)
                  (λ c (after, blacks).
                    Good-map (Scanned (forward_sinks es) c)
                      (Scanned (sink_ids e ++ forward_sinks es) colors) (scan_edges visit node es c)
                      (scan_edges-Good room visit node good here_it es c sub2
                        (Scans-After room node colors c scans after))
                      (λ c' (after', blacks'). (
                        After-trans colors c c' after after',
                        All-black (sink_ids e) (forward_sinks es) c c' blacks blacks' after',
                      ))))
        ]
