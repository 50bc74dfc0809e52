-- ===== src/Graph/Walks.antt =====
-- The edges along which `validate` walks (crates/workflow/src/graph/workflow_graph.rs), and how a
-- scan over edges is a scan over their sinks.
use mathlib.Core.Bool.{false≢true}
use rust_agent_framework.Common.{
  String, Bool, true, false, Option, none, some, ℕ, ◌+◌, ◌⊎◌, ◌≢◌, insert, List, [], ◌∷◌, ◌++◌,
  Elem, Elem-append_left, Map, get, ◌≡◌, refl, sym, ap, Bool-cases, inl, inr, ◌==◌, arith,
}
use rust_agent_framework.Graph.{Color, white, gray, black, edges_from}
use rust_agent_framework.Graph.Edges.{Edge, sink_ids, is_loopback_edge}

module _ {C V : Type 0} where
  -- The sinks of the edges that are not loopback edges.
  abbrev pub forward_sinks : List (Edge C V) → List String
  forward_sinks [] = []
  forward_sinks (e ∷ es) = elim (is_loopback_edge e) [
    | true ↦ forward_sinks es
    | false ↦ sink_ids e ++ forward_sinks es
  ]

  abbrev pub forward : Map (List (Edge C V)) → String → List String
  forward edges u = forward_sinks (edges_from edges u)

  -- A walk of any length along edges that are not loopback edges.
  pub data Reach (edges : Map (List (Edge C V))) (a : String) : String → Type 0 where
    begin : Reach edges a a
    step : {b c : String} → Reach edges a b → Elem c (forward edges b) → Reach edges a c

  pub sink-forward_sinks :
      (e : Edge C V) (es : List (Edge C V))
      → is_loopback_edge e ≡ false
      → (s : String) → Elem s (sink_ids e)
      → Elem s (forward_sinks (e ∷ es))
  sink-forward_sinks e es plain s m =
      rw (plain, forward_sinks) (Elem-append_left (forward_sinks es) m)

-- What `get` finds in the table of colours.
pub Color-cases :
    (o : Option Color) → (o ≡ none) ⊎ (o ≡ some white) ⊎ (o ≡ some gray) ⊎ (o ≡ some black)
Color-cases none = inl refl
Color-cases (some white) = inr (inl refl)
Color-cases (some gray) = inr (inr (inl refl))
Color-cases (some black) = inr (inr (inr refl))

abbrev is_white : Color → ℕ
is_white white = 1
is_white gray = 0
is_white black = 0

-- The number of nodes that are still white.
abbrev pub whites : Map Color → ℕ
whites [] = 0
whites ((k, c) ∷ m) = is_white c + whites m

abbrev pub white_at : Option Color → ℕ
white_at none = 0
white_at (some c) = is_white c

pub whites-insert :
    (k : String) (c : Color) (m : Map Color)
    → get m k ≢ none
    → whites (insert k c m) + white_at (get m k) ≡ whites m + is_white c
unfolding insert get
whites-insert k c [] known = absurd (known refl)
whites-insert k c ((j, d) ∷ m) known = elim (Bool-cases (j == k)) [
  | inl same ↦ rw same (omega arith)
  | inr ne ↦ rw ne (omega (arith, whites-insert k c m (λ e. known (rw (ne, e) refl))))
]

-- Different colours are apart.
abbrev is_black : Option Color → Bool
is_black (some black) = true
is_black _ = false

abbrev is_gray : Option Color → Bool
is_gray (some gray) = true
is_gray _ = false

abbrev is_known : Option Color → Bool
is_known none = false
is_known (some c) = true

pub gray≢black : some gray ≢ some black
gray≢black e = false≢true (ap is_black e)

pub white≢gray : some white ≢ some gray
white≢gray e = false≢true (ap is_gray e)

pub white≢black : some white ≢ some black
white≢black e = false≢true (ap is_black e)

pub some≢none : {c : Color} → some c ≢ none
some≢none e = false≢true (sym (ap is_known e))

pub none≢black : none ≢ some black
none≢black e = false≢true (ap is_black e)

pub none≢gray : none ≢ some gray
none≢gray e = false≢true (ap is_gray e)
