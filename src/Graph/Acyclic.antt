-- ===== src/Graph/Acyclic.antt =====
-- What `detect_cycles` shows of the graph when it succeeds, and when it reports a cycle
-- (crates/workflow/src/graph/workflow_graph.rs).
use rust_agent_framework.Common.{
  ℕ, zero, suc, ◌≤◌, String, some, List, ◌∷◌, Elem, here, there, All-at, Map, get, insert,
  get-insert, ◌≡◌, ◌≢◌, ◌⊎◌, refl, sym, ap, ◌∙◌, subst, Bool-cases, inl, inr, ◌==◌, eq_iff, eq_refl,
  arith,
}
use rust_agent_framework.Graph.{Color, white, gray, black, done, scan_edges, dfs, edges_from}
use rust_agent_framework.Graph.Edges.{Edge}
use rust_agent_framework.Graph.Walks.{
  gray≢black, white≢gray, white≢black, some≢none, forward, Reach, begin, whites, white_at,
  whites-insert,
}
use rust_agent_framework.Graph.Cycles.{
  Good-and_then, Enters, Entered, IsVisit, Scanned, Scans, scan_edges-Good,
}

-- Reading a colour after a write.
get-insert_same : (k : String) (c : Color) (m : Map Color) → get (insert k c m) k ≡ some c
get-insert_same k c m = rw (get-insert k k c m, eq_refl k) refl

get-insert_cases :
    (k j : String) (c : Color) (m : Map Color)
    → ((k ≡ j) × (get (insert k c m) j ≡ some c)) ⊎ ((k ≢ j) × (get (insert k c m) j ≡ get m j))
get-insert_cases k j c m = elim (Bool-cases (k == j)) [
  | inl same ↦ inl ((eq_iff k j).0 same, rw (get-insert k j c m, same) refl)
  | inr ne ↦ inr (λ e. ground (arith, eq_iff k j), rw (get-insert k j c m, ne) refl)
]

not_here : (x y : String) (xs : List String) → y ≢ x → Elem y (x ∷ xs) → Elem y xs
not_here x y xs ne (here e) = absurd (ne e)
not_here x y xs ne (there m) = m

module _ {C V : Type 0} (edges : Map (List (Edge C V))) (ids : List String)
    (closed : (u v : String) → Elem u ids → Elem v (forward edges u) → Elem v ids) where
  entered-Scans :
      (room : ℕ) (node : String) (colors : Map Color)
      → Enters edges ids closed node colors
      → get colors node ≡ some white
      → whites colors ≤ suc room
      → Scans edges ids closed room node (insert node gray colors)
  entered-Scans room node colors (m, known, (order, (blacks, listed, is_order)), leads) fresh w = (
    λ id i e. elim (get-insert_cases node id gray colors) [
      | inl (same, at) ↦ absurd (some≢none (sym at ∙ e))
      | inr (ne, at) ↦ known id i (sym at ∙ e)
    ],
    (
      order,
      (
        λ id e. elim (get-insert_cases node id gray colors) [
          | inl (same, at) ↦ absurd (gray≢black (sym at ∙ e))
          | inr (ne, at) ↦ blacks id (sym at ∙ e)
        ],
        λ id i. elim (get-insert_cases node id gray colors) [
          | inl (same, at) ↦ absurd (white≢black (sym fresh ∙ ap (get colors) same ∙ listed id i))
          | inr (ne, at) ↦ at ∙ listed id i
        ],
        is_order,
      ),
    ),
    λ id e. elim (get-insert_cases node id gray colors) [
      | inl (same, at) ↦ subst (λ x. Reach edges x node) same begin
      | inr (ne, at) ↦ leads id (sym at ∙ e)
    ],
    omega
        (arith, whites-insert node gray colors (λ e. some≢none (sym fresh ∙ e)), ap white_at fresh),
  )

  -- After a node's sinks were scanned, the node itself is finished.
  left-Entered :
      (node : String) (colors c : Map Color)
      → get colors node ≡ some white
      → Scanned edges ids closed (forward edges node) (insert node gray colors) c
      → Entered edges ids closed node colors (insert node black c)
  left-Entered node colors c fresh (((order, (blacks, listed, is_order)), g, k, d, w), finished) =
      let open_it = (g node).0 (get-insert_same node gray colors) in
      (
        (
          (
            node ∷ order,
            (
              λ id e. elim (get-insert_cases node id black c) [
                | inl (same, at) ↦ here (sym same)
                | inr (ne, at) ↦ there (blacks id (sym at ∙ e))
              ],
              λ id i. elim (get-insert_cases node id black c) [
                | inl (same, at) ↦ at
                | inr (ne, at) ↦ at ∙ listed id (not_here node id order (λ e. ne (sym e)) i)
              ],
              (
                λ v m.
                    blacks v (All-at (λ s. get c s ≡ some black) (forward edges node) finished m),
                λ i. gray≢black (sym open_it ∙ listed node i),
                is_order,
              ),
            ),
          ),
          λ id. (
            λ e. elim (get-insert_cases node id black c) [
              | inl (same, at) ↦ absurd (white≢gray (sym fresh ∙ ap (get colors) same ∙ e))
              | inr (ne, at) ↦ at ∙ (g id).0 (gray_before id ne e)
            ],
            λ e. elim (get-insert_cases node id black c) [
              | inl (same, at) ↦ absurd (gray≢black (sym e ∙ at))
              | inr (ne, at) ↦ gray_after id ne ((g id).1 (sym at ∙ e))
            ],
          ),
          λ id e. elim (get-insert_cases node id black c) [
            | inl (same, at) ↦ at
            | inr (ne, at) ↦ at ∙ k id (other_at id ne ∙ e)
          ],
          λ id e. elim (get-insert_cases node id black c) [
            | inl (same, at) ↦ λ q. some≢none (sym at ∙ q)
            | inr (ne, at) ↦ λ q. d id (λ r. e (sym (other_at id ne) ∙ r)) (sym at ∙ q)
          ],
          omega (
            arith,
            whites-insert node black c (λ e. some≢none (sym open_it ∙ e)),
            ap white_at open_it,
            whites-insert node gray colors (λ e. some≢none (sym fresh ∙ e)),
            ap white_at fresh,
            w,
          ),
        ),
        get-insert_same node black c,
      )
    where
      other_at : (id : String) → node ≢ id → get (insert node gray colors) id ≡ get colors id
      other_at id ne = elim (get-insert_cases node id gray colors) [
        | inl (same, at) ↦ absurd (ne same)
        | inr (ne', at) ↦ at
      ]

      gray_before :
          (id : String)
          → node ≢ id
          → get colors id ≡ some gray
          → get (insert node gray colors) id ≡ some gray
      gray_before id ne e = other_at id ne ∙ e

      gray_after :
          (id : String)
          → node ≢ id
          → get (insert node gray colors) id ≡ some gray
          → get colors id ≡ some gray
      gray_after id ne e = sym (other_at id ne) ∙ e

  pub dfs-Good : (fuel : ℕ) → IsVisit edges ids closed fuel (dfs edges fuel)
  unfolding dfs
  dfs-Good zero node colors enters fresh w = absurd (
      omega
        (arith, whites-insert node gray colors (λ e. some≢none (sym fresh ∙ e)), ap white_at fresh))
  dfs-Good (suc fuel) node colors enters fresh w =
      Good-and_then edges (Scanned edges ids closed (forward edges node) (insert node gray colors))
        (Entered edges ids closed node colors)
        (scan_edges (dfs edges fuel) node (edges_from edges node) (insert node gray colors))
        (λ after. done (insert node black after))
        (scan_edges-Good edges ids closed fuel (dfs edges fuel) node (dfs-Good fuel) enters.0
          (edges_from edges node) (insert node gray colors) (λ s m. m)
          (entered-Scans fuel node colors enters fresh w))
        (λ c scanned. left-Entered node colors c fresh scanned)
