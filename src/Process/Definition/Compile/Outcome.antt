-- ===== src/Process/Definition/Compile/Outcome.antt =====
-- What `ProcessDefinition::compile` returns for a definition that passes `validate`
-- (crates/workflow-pro/src/process/definition.rs).
use rust_agent_framework.Common.{
  String, true, false, ◌||◌, ◌==◌, eq_iff, List, [], ◌∷◌, mem, any, All, All-at, All-of_Elem,
  All-mono, All-keep, any→find, any→keep, Elem, Map, contains_key, ◌≡◌, inl, inr, refl, sym, ◌∙◌,
  subst, Bool-cases, ok, err≢ok, guard_iff, >>_iff, or_iff, All-append,
}
use rust_agent_framework.Graph.Edges.{source_ids, sink_ids}
use rust_agent_framework.Builder.{new_builder, set_start, with_output_from}
use rust_agent_framework.Builder.Build.Registered.{IsRegistered, IsJoined}
use rust_agent_framework.Builder.Build.Outcome.{IsBuilt, build_registered-IsBuilt}
use rust_agent_framework.Condition.{JsonView}
use rust_agent_framework.Process.Definition.{
  NodeDef, EdgeDef, BoundaryEventDef, ProcessDefinition, ProcessTaskExecutor, node_ids,
  event_node_ids, is_start, is_end, validate_edges, validate_events, validate, unknown_end,
  unknown_node,
}
use rust_agent_framework.Process.Definition.Compile.{
  Tasks, Tables, add_nodes, group_edges, link_sources, link_events, add_outputs, compile_builder,
  compile,
}
use rust_agent_framework.Process.Definition.Compile.Registered.{
  Has, IsKnown, add_nodes-Has, add_nodes-Grows, add_events-Has,
}
use rust_agent_framework.Process.Definition.Compile.Linked.{
  Ends, IsEdge, IsGroup, IsEvent, group_edges-All, link_sources-Links, link_events-Links,
}

-- An id that a definition declares.
abbrev IsDeclared : List String → List String → String → Type 0
IsDeclared ids event_ids s = (mem s ids || mem s event_ids) ≡ true

module _ {V : Type 0} where
  validate_edges-All :
      (ids event_ids : List String) (es : List (EdgeDef V))
      → validate_edges ids event_ids es ≡ ok tt
      → All (IsEdge (IsDeclared ids event_ids)) es
  unfolding validate_edges
  validate_edges-All ids event_ids [] h = tt
  validate_edges-All ids event_ids (e ∷ es) h =
      let (source, h') =
        (guard_iff (mem e.source ids || mem e.source event_ids) _ (unknown_end "source" e e.source)
            tt).0
          h in
      let (target, h'') =
        (guard_iff (mem e.target ids || mem e.target event_ids) _ (unknown_end "target" e e.target)
            tt).0
          h' in
      ((source, target), validate_edges-All ids event_ids es h'')

validate_events-All :
    (ids : List String) (evs : List BoundaryEventDef)
    → validate_events ids evs ≡ ok tt
    → All (λ (ev : BoundaryEventDef). mem ev.attached_to ids ≡ true) evs
unfolding validate_events
validate_events-All ids [] h = tt
validate_events-All ids (ev ∷ evs) h =
    let (known, h') = (guard_iff (mem ev.attached_to ids) _ (unknown_node ev) tt).0 h in
    (known, validate_events-All ids evs h')

node_ids-All :
    (ids : List String) (ns : List NodeDef)
    → ((s : String) → mem s (node_ids ns) ≡ true → mem s ids ≡ true)
    → All (λ (n : NodeDef). mem n.id ids ≡ true) ns
node_ids-All ids [] h = tt
node_ids-All ids (n ∷ ns) h = (
  h n.id ((or_iff (n.id == n.id) _).1 (inl ((eq_iff n.id n.id).1 refl))),
  node_ids-All ids ns (λ s m. h s ((or_iff (s == n.id) _).1 (inr m))),
)

IsEvent-event_node_ids :
    (ids event_ids : List String) (evs : List BoundaryEventDef)
    → ((s : String) → mem s (event_node_ids evs) ≡ true → mem s event_ids ≡ true)
    → All (λ (ev : BoundaryEventDef). mem ev.attached_to ids ≡ true) evs
    → All (IsEvent (IsDeclared ids event_ids)) evs
IsEvent-event_node_ids ids event_ids [] h k = tt
IsEvent-event_node_ids ids event_ids (ev ∷ evs) h k =
    let id = ev.event_node_id in
    (
      (
        (or_iff _ _).1 (inl k.0),
        (or_iff (mem id ids) _).1
            (inr (h id ((or_iff (id == id) _).1 (inl ((eq_iff id id).1 refl))))),
      ),
      IsEvent-event_node_ids ids event_ids evs (λ s m. h s ((or_iff (s == id) _).1 (inr m))) k.1,
    )

module _ {C V : Type 0} where
  -- What setting the outputs leaves, and what it does.
  record Marks (b b' : Tasks C V) : Type 0 where
    nodes : b'.nodes ≡ b.nodes
    edges : b'.edges ≡ b.edges
    start : b'.start_node_id ≡ b.start_node_id

  add_outputs-Marks : (ns : List NodeDef) (b : Tasks C V) → Marks b (add_outputs ns b)
  unfolding add_outputs with_output_from
  add_outputs-Marks [] b = record { nodes = refl; edges = refl; start = refl }
  add_outputs-Marks (n ∷ ns) b =
      let m = add_outputs-Marks ns (with_output_from n.id b) in
      record { nodes = m.nodes; edges = m.edges; start = m.start }

  add_outputs-All :
      (P : String → Type 0) (ns : List NodeDef) (b : Tasks C V)
      → All P b.output_node_ids
      → All (λ (n : NodeDef). P n.id) ns
      → All P (add_outputs ns b).output_node_ids
  unfolding add_outputs with_output_from
  add_outputs-All P [] b h k = h
  add_outputs-All P (n ∷ ns) b h k = elim (Bool-cases (mem n.id b.output_node_ids)) [
    | inl old ↦ add_outputs-All P ns (with_output_from n.id b) (rw (with_output_from, old) h) k.1
    | inr new ↦
        add_outputs-All P ns (with_output_from n.id b)
          (rw (with_output_from, new) (All-append P b.output_node_ids _ h (k.0, tt))) k.1
  ]

module _ (C : Type 0) {V : Type 0} (view : JsonView V) (tables : Tables V)
    (walks : (m : Map (List (EdgeDef V))) (x : String × List (EdgeDef V))
      → Elem x (tables.walk m)
      → Elem x m) where
  -- The builder that `compile` hands to `build`, and what that returns.
  abbrev pub IsCompiled : ProcessDefinition V → Type 0
  IsCompiled d =
      (b : Tasks C V) × (start : String) × (compile_builder view tables d ≡ ok b)
      × IsBuilt b start (compile view tables d)

  -- With every id registered `build` does not fail for want of one.
  compile-IsBuilt :
      (d : ProcessDefinition V) (b : Tasks C V) (start : String)
      → compile_builder view tables d ≡ ok b
      → IsRegistered b start
      → IsCompiled d
  unfolding compile
  compile-IsBuilt d b start done registered =
      (b, start, done, rw (done, compile) (build_registered-IsBuilt b start registered))

  -- An id that is declared is registered, by a node or by an event.
  IsDeclared-Has :
      (ns : List NodeDef) (event_ids : List String) (b0 b : Tasks C V) (s : String)
      → IsDeclared (node_ids ns) event_ids s
      → (mem s (node_ids ns) ≡ true → mem s event_ids ≡ false → Has b0 s)
      → (Has b0 s → Has b s)
      → (mem s event_ids ≡ true → Has b s)
      → Has b s
  IsDeclared-Has ns event_ids b0 b s p by_node keeps by_event =
      elim (Bool-cases (mem s event_ids)) [
        | inl e ↦ by_event e
        | inr e ↦ elim ((or_iff (mem s (node_ids ns)) (mem s event_ids)).0 p) [
          | inl k ↦ keeps (by_node k e)
          | inr k ↦ by_event k
        ]
      ]

  -- The last part of `compile`, on what the nodes and events gave.
  finished-IsRegistered :
      (ns ends : List NodeDef) (d : ProcessDefinition V) (start : String) (b : Tasks C V)
      (P : String → Type 0)
      → ((s : String) → P s → Has b s)
      → b.edges ≡ []
      → b.output_node_ids ≡ []
      → All (IsEdge P) d.edges
      → All (IsEvent P) d.events
      → P start
      → All (λ (n : NodeDef). P n.id) ends
      → IsRegistered
          (add_outputs ends (
            set_start start (
              link_events d.edges d.events
                (link_sources view ns (tables.walk (group_edges d.edges [])) b))))
          start
  unfolding set_start
  finished-IsRegistered ns ends d start b P has no_edges no_outputs edges events starts outputs =
      let groups = group_edges-All P d.edges [] edges tt in
      let walked =
        All-of_Elem (IsGroup P) (tables.walk (group_edges d.edges []))
          (λ x m. All-at (IsGroup P) (group_edges d.edges []) groups (walks _ x m)) in
      let b1 = link_sources view ns (tables.walk (group_edges d.edges [])) b in
      let b2 = link_events d.edges d.events b1 in
      let l1 = link_sources-Links P view ns (tables.walk (group_edges d.edges [])) b walked in
      let l2 = link_events-Links P d.edges d.events b1 events in
      let marks = add_outputs-Marks ends (set_start start b2) in
      let same = marks.nodes ∙ l2.nodes ∙ l1.nodes in
      let has' = λ (s : String) (p : P s).
        subst (λ nodes. contains_key nodes s ≡ true) (sym same) (has s p) in
      let none_yet = subst (All (Ends P)) (sym no_edges) tt in
      (
        marks.start,
        has' start starts,
        All-mono (Ends P) (IsJoined (add_outputs ends (set_start start b2)).nodes)
            (add_outputs ends (set_start start b2)).edges
            (λ e k. (All-mono P _ (source_ids e) has' k.0, All-mono P _ (sink_ids e) has' k.1))
            (subst (All (Ends P)) (sym marks.edges) (l2.ends (l1.ends none_yet))),
        All-mono P (λ s. contains_key (add_outputs ends (set_start start b2)).nodes s ≡ true)
            (add_outputs ends (set_start start b2)).output_node_ids has'
            (add_outputs-All P ends (set_start start b2)
              (subst (All P) (sym (l2.outputs ∙ l1.outputs ∙ no_outputs)) tt) outputs),
      )

  compile_nodes :
      (nodes : List NodeDef) (d : ProcessDefinition V)
      → validate (record d { nodes = nodes }) ≡ ok tt
      → All IsKnown d.events
      → IsCompiled (record d { nodes = nodes })
  unfolding validate compile_builder
  compile_nodes [] d h known = absurd (err≢ok h)
  compile_nodes (n ∷ ns) d h known =
      let ids = node_ids (n ∷ ns) in
      let event_ids = event_node_ids d.events in
      let P = IsDeclared ids event_ids in
      let (has_start, h1) =
        (guard_iff (any (λ (n : NodeDef). is_start n.kind) (n ∷ ns)) _ _ tt).0 h in
      let (has_end, h2) = (guard_iff (any (λ (n : NodeDef). is_end n.kind) (n ∷ ns)) _ _ tt).0 h1 in
      let (edges_ok, events_ok) =
        (>>_iff (validate_edges ids event_ids d.edges) (validate_events ids d.events) tt).0 h2 in
      let (start, found, m) = any→find (λ (n : NodeDef). is_start n.kind) (n ∷ ns) has_start in
      let (end, ends, kept) = any→keep (λ (n : NodeDef). is_end n.kind) (n ∷ ns) has_end in
      let declared =
        All-mono (λ (n : NodeDef). mem n.id ids ≡ true) (λ (n : NodeDef). P n.id) (n ∷ ns)
          (λ n k. (or_iff (mem n.id ids) (mem n.id event_ids)).1 (inl k))
          (node_ids-All ids (n ∷ ns) (λ s k. k)) in
      let b0 = add_nodes tables.which event_ids (n ∷ ns) (new_builder ProcessTaskExecutor C V) in
      let g0 =
        add_nodes-Grows tables.which event_ids (n ∷ ns) (new_builder ProcessTaskExecutor C V) in
      let (b, added, grows, all) = add_events-Has d.events b0 known in
      compile-IsBuilt (record d { nodes = n ∷ ns })
        (add_outputs (end ∷ ends) (
          set_start start.id (
            link_events d.edges d.events
              (link_sources view (n ∷ ns) (tables.walk (group_edges d.edges [])) b))))
        start.id (rw (compile_builder, found) (rw kept (rw added refl)))
        (finished-IsRegistered (n ∷ ns) (end ∷ ends) (record d { nodes = n ∷ ns }) start.id b P
          (λ s p.
            IsDeclared-Has (n ∷ ns) event_ids b0 b s p
              (λ k e. add_nodes-Has tables.which event_ids (n ∷ ns) _ s k e) (grows.keeps s)
              (all s))
          (grows.edges ∙ g0.edges) (grows.outputs ∙ g0.outputs)
          (validate_edges-All ids event_ids d.edges edges_ok)
          (IsEvent-event_node_ids ids event_ids d.events (λ s k. k)
            (validate_events-All ids d.events events_ok))
          (All-at (λ (n : NodeDef). P n.id) (n ∷ ns) declared m)
          (subst (All (λ (n : NodeDef). P n.id)) kept (
            All-keep (λ (n : NodeDef). P n.id) (λ (n : NodeDef). is_end n.kind) (n ∷ ns) declared)))

  -- A definition that passes `validate`, its boundary events being timers or errors, compiles to
  -- the graph of a builder without further complaint, but for a cycle among its edges, which is
  -- then named; whatever the hash tables decide (they hand out only what was put into them).
  pub compile-IsCompiled :
      (d : ProcessDefinition V) → validate d ≡ ok tt → All IsKnown d.events → IsCompiled d
  compile-IsCompiled d h known = compile_nodes d.nodes d h known
