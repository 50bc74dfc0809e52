-- ===== src/Process/Definition/Compile/Registered.antt =====
-- The nodes that a compiled process registers
-- (`ProcessDefinition::compile` of crates/workflow-pro/src/process/definition.rs).
use rust_agent_framework.Common.{
  ℕ, String, true, false, ◌||◌, ◌==◌, eq_iff, Option, none, some, List, [], ◌∷◌, mem, All, Map,
  contains_key, get, ◌≡◌, inl, inr, refl, sym, ◌∙◌, subst, arith, Bool-cases, Option-cases, Result,
  ok, or_iff, contains-insert,
}
use rust_agent_framework.Graph.{Node}
use rust_agent_framework.Builder.{
  add_node, with_retry, with_node_timeout, change_node, visited_last,
}
use rust_agent_framework.Process.Definition.{
  NodeKind, NodeDef, BoundaryEventDef, node_ids, event_node_ids, timer_boundary, error_boundary,
}
use rust_agent_framework.Process.Definition.Compile.{
  Tasks, add_task, set_retry, set_timeout, add_nodes, add_events,
}

module _ {X : Type 0} where
  change_node-keeps :
      (f : Node X → Node X) (key : Option String) (nodes : Map (Node X)) (s : String)
      → contains_key nodes s ≡ true
      → contains_key (change_node f key nodes) s ≡ true
  change_node-keeps f none nodes s h = h
  change_node-keeps f (some key) nodes s h = elim (Option-cases (get nodes key)) [
    | inl e ↦ rw (e, change_node) h
    | inr (node, e) ↦
        rw (e, change_node) (rw (contains-insert key s (f node) nodes) ((or_iff _ _).1 (inr h)))
  ]

abbrev pub IsKnown : BoundaryEventDef → Type 0
IsKnown ev = (ev.kind == "timer" || ev.kind == "error") ≡ true

module _ {C V : Type 0} where
  abbrev pub Has : Tasks C V → String → Type 0
  Has b s = contains_key b.nodes s ≡ true

  add_task-Has_self : (id : String) (kind : NodeKind) (b : Tasks C V) → Has (add_task id kind b) id
  unfolding add_node
  add_task-Has_self id kind b = rw (contains-insert id id _ b.nodes, (eq_iff id id).1 refl) refl

  -- What is left alone while nodes are added.
  pub record Grows (b b' : Tasks C V) : Type 0 where
    pub keeps : (s : String) → Has b s → Has b' s
    pub edges : b'.edges ≡ b.edges
    pub outputs : b'.output_node_ids ≡ b.output_node_ids

  Grows-refl : (b : Tasks C V) → Grows b b
  Grows-refl b = record { keeps = λ s h. h; edges = refl; outputs = refl }

  Grows-trans : {a b c : Tasks C V} → Grows a b → Grows b c → Grows a c
  Grows-trans g h = record {
    keeps = λ s k. h.keeps s (g.keeps s k);
    edges = h.edges ∙ g.edges;
    outputs = h.outputs ∙ g.outputs;
  }

  add_task-Grows : (id : String) (kind : NodeKind) (b : Tasks C V) → Grows b (add_task id kind b)
  unfolding add_node
  add_task-Grows id kind b = record {
    keeps = λ s h. rw (contains-insert id s _ b.nodes) ((or_iff _ _).1 (inr h));
    edges = refl;
    outputs = refl;
  }

  set_retry-Grows :
      (which : String → ℕ) (n : NodeDef) (b : Tasks C V) → Grows b (set_retry which n b)
  unfolding with_retry
  set_retry-Grows which n b = elim (Option-cases n.retry) [
    | inl e ↦ rw (e, set_retry) (Grows-refl b)
    | inr (def, e) ↦
        rw (e, set_retry)
          (record {
            keeps = λ s h. change_node-keeps _ (visited_last (which n.id) b.nodes) b.nodes s h;
            edges = refl;
            outputs = refl;
          })
  ]

  set_timeout-Grows :
      (which : String → ℕ) (n : NodeDef) (b : Tasks C V) → Grows b (set_timeout which n b)
  unfolding with_node_timeout
  set_timeout-Grows which n b = elim (Option-cases n.timeout_ms) [
    | inl e ↦ rw (e, set_timeout) (Grows-refl b)
    | inr (ms, e) ↦
        rw (e, set_timeout)
          (record {
            keeps = λ s h. change_node-keeps _ (visited_last (which n.id) b.nodes) b.nodes s h;
            edges = refl;
            outputs = refl;
          })
  ]

  abbrev add_with : (String → ℕ) → NodeDef → Tasks C V → Tasks C V
  add_with which n b = set_timeout which n (set_retry which n (add_task n.id n.kind b))

  settings-Grows :
      (which : String → ℕ) (n : NodeDef) (b : Tasks C V)
      → Grows (add_task n.id n.kind b) (add_with which n b)
  settings-Grows which n b =
      let b' = add_task n.id n.kind b in
      Grows-trans (set_retry-Grows which n b') (set_timeout-Grows which n (set_retry which n b'))

  pub add_nodes-Grows :
      (which : String → ℕ) (boundary : List String) (ns : List NodeDef) (b : Tasks C V)
      → Grows b (add_nodes which boundary ns b)
  unfolding add_nodes
  add_nodes-Grows which boundary [] b = Grows-refl b
  add_nodes-Grows which boundary (n ∷ ns) b = elim (Bool-cases (mem n.id boundary)) [
    | inl skipped ↦ rw skipped (add_nodes-Grows which boundary ns b)
    | inr added ↦ rw added (
        Grows-trans (Grows-trans (add_task-Grows n.id n.kind b) (settings-Grows which n b))
          (add_nodes-Grows which boundary ns (add_with which n b)))
  ]

  -- A node of the definition is registered, but for those of boundary events.
  pub add_nodes-Has :
      (which : String → ℕ) (boundary : List String) (ns : List NodeDef) (b : Tasks C V) (s : String)
      → mem s (node_ids ns) ≡ true
      → mem s boundary ≡ false
      → Has (add_nodes which boundary ns b) s
  unfolding add_nodes
  add_nodes-Has which boundary [] b s h k = cc
  add_nodes-Has which boundary (n ∷ ns) b s h k = elim ((or_iff _ _).0 h) [
    | inr later ↦ add_nodes-Has which boundary ns _ s later k
    | inl here ↦
        let e : n.id ≡ s = sym ((eq_iff s n.id).0 here) in
        let added : mem n.id boundary ≡ false = rw e k in
        let b' = add_with which n b in
        rw (add_nodes, added)
          ((add_nodes-Grows which boundary ns b').keeps s (
            (settings-Grows which n b).keeps s
              (subst (λ i. Has (add_task n.id n.kind b) i) e (add_task-Has_self n.id n.kind b))))
  ]

  abbrev Added : List BoundaryEventDef → Tasks C V → Result (Tasks C V) → Type 0
  Added evs b r =
      (b' : Tasks C V) × (r ≡ ok b')
      × Grows b b'
      × ((s : String) → mem s (event_node_ids evs) ≡ true → Has b' s)

  after_event :
      (ev : BoundaryEventDef) (evs : List BoundaryEventDef) (mid b : Tasks C V)
      → Grows b mid
      → Has mid ev.event_node_id
      → {r : Result (Tasks C V)} → Added evs mid r
      → Added (ev ∷ evs) b r
  after_event ev evs mid b first has (b', done, rest, all) = (
    b',
    done,
    Grows-trans first rest,
    λ s h. elim ((or_iff (s == ev.event_node_id) _).0 h) [
      | inr later ↦ all s later
      | inl here ↦
          rest.keeps s (subst (λ i. Has mid i) (sym ((eq_iff s ev.event_node_id).0 here)) has)
    ],
  )

  -- With events of known kinds every event's node is registered too.
  pub add_events-Has :
      (evs : List BoundaryEventDef) (b : Tasks C V)
      → All IsKnown evs
      → (b' : Tasks C V) × (add_events evs b ≡ ok b')
        × Grows b b'
        × ((s : String) → mem s (event_node_ids evs) ≡ true → Has b' s)
  unfolding add_events
  add_events-Has [] b known = (b, refl, Grows-refl b, λ s h. cc)
  add_events-Has (ev ∷ evs) b known = elim (Bool-cases (ev.kind == "timer")) [
    | inl timer ↦ rw timer (
        after_event ev evs (add_task ev.event_node_id timer_boundary b) b
          (add_task-Grows ev.event_node_id timer_boundary b)
          (add_task-Has_self ev.event_node_id timer_boundary b)
          (add_events-Has evs (add_task ev.event_node_id timer_boundary b) known.1))
    | inr not_timer ↦
        let error : (ev.kind == "error") ≡ true = ground (arith, known.0) in
        rw (not_timer, error)
          (after_event ev evs (add_task ev.event_node_id error_boundary b) b
            (add_task-Grows ev.event_node_id error_boundary b)
            (add_task-Has_self ev.event_node_id error_boundary b)
            (add_events-Has evs (add_task ev.event_node_id error_boundary b) known.1))
  ]
