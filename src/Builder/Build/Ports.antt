-- ===== src/Builder/Build/Ports.antt =====
-- The ports by id that `build` makes (crates/workflow/src/builder/workflow_builder.rs).
use rust_agent_framework.Common.{
  String, Option, none, some, List, [], ◌∷◌, if◌then◌else◌, ◌==◌, Map, get, insert, get-insert, ◌≡◌,
  refl, ◌∙◌, Bool-cases, Option-cases, inl, inr,
}
use rust_agent_framework.Graph.{RequestPort}
use rust_agent_framework.Builder.Build.{index_ports}

-- The last port of a list with an id.
abbrev pub last_port : List RequestPort → String → Option RequestPort
last_port [] id = none
last_port (p ∷ ps) id = elim (last_port ps id) [
  | some q ↦ some q
  | none ↦ if p.id == id then some p else none
]

-- A later port takes the place of an earlier one with its id.
get-index_ports_or :
    (ps : List RequestPort) (index : Map RequestPort) (id : String)
    → get (index_ports ps index) id
      ≡ elim (last_port ps id) [ some q ↦ some q | none ↦ get index id ]
get-index_ports_or [] index id = refl
get-index_ports_or (p ∷ ps) index id =
    get-index_ports_or ps (insert p.id p index) id ∙ elim (Option-cases (last_port ps id)) [
      | inr (q, later) ↦ rw later refl
      | inl no_later ↦
          rw (no_later, get-insert p.id id p index)
            (elim (Bool-cases (p.id == id)) [ inl same ↦ rw same refl | inr other ↦ rw other refl ])
    ]

pub get-index_ports :
    (ps : List RequestPort) (index : Map RequestPort) (id : String)
    → get index id ≡ none
    → get (index_ports ps index) id ≡ last_port ps id
get-index_ports ps index id e =
    get-index_ports_or ps index id ∙ elim (Option-cases (last_port ps id)) [
      | inr (q, found) ↦ rw found refl
      | inl no_port ↦ rw (no_port, e) refl
    ]
