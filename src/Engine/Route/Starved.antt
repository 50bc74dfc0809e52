-- ===== src/Engine/Route/Starved.antt =====
-- Fan-in edges in the engine. `WorkflowEngine::new` makes a runner, and so a barrier, for each
-- source of a fan-in edge, and a message is shown to the runners of its own source only
-- (crates/workflow/src/engine/engine.rs).
use rust_agent_framework.Common.{
  String, List, [], ◌∷◌, keep, All, ◌==◌, eq_iff, Bool-cases, Map, insert, ◌≡◌, refl, sym, subst,
  ap, ◌∙◌, inl, inr,
}
use rust_agent_framework.Envelope.{new_envelope}
use rust_agent_framework.Graph.{Node}
use rust_agent_framework.Graph.Edges.{Edge, direct, fan_out, fan_in, edge_id}
use rust_agent_framework.Runner.{EdgeRunner, create_edge_runner}
use rust_agent_framework.Engine.{Executor, Outside}
use rust_agent_framework.Engine.Route.{
  runner_key, add_runners, edge_runners, Routing, make_envelope, route_message,
}
use rust_agent_framework.Engine.Route.Keys.{NoColon}
use rust_agent_framework.Engine.Route.Own.{
  IsOwn, no_join, contains_key-nil, AllOwn-chase_matching, chase_matching-no_join,
  keep-chase_matching,
}

module _ {C V : Type 0} where
  All-insert :
      (k : String) (runner : EdgeRunner C V) (runners : Map (EdgeRunner C V))
      → IsOwn (k, runner)
      → All IsOwn runners
      → All IsOwn (insert k runner runners)
  unfolding insert
  All-insert k runner [] own all_own = (own, tt)
  All-insert k runner ((j, r) ∷ runners) own all_own = elim (Bool-cases (j == k)) [
    | inl same ↦ rw same (subst (λ x. IsOwn (x, runner)) (sym ((eq_iff j k).0 same)) own, all_own.1)
    | inr ne ↦ rw ne (all_own.0, All-insert k runner runners own all_own.1)
  ]

  create-IsOwn :
      (source : String) (e : Edge C V)
      → NoColon source
      → IsOwn (runner_key source (edge_id e), create_edge_runner e)
  unfolding create_edge_runner edge_id
  create-IsOwn source (direct d) p = tt
  create-IsOwn source (fan_out d) p = tt
  create-IsOwn source (fan_in d) p = (source, p, refl, λ other ne. contains_key-nil _ other)

  add_runners-AllOwn :
      (source : String) (es : List (Edge C V)) (runners : Map (EdgeRunner C V))
      → NoColon source
      → All IsOwn runners
      → All IsOwn (add_runners source es runners)
  unfolding add_runners
  add_runners-AllOwn source [] runners p own = own
  add_runners-AllOwn source (e ∷ es) runners p own =
      add_runners-AllOwn source es _ p (All-insert _ _ runners (create-IsOwn source e p) own)

  -- No source that the index lists has a colon in its id.
  abbrev pub NoColons : Map (List (Edge C V)) → Type 0
  NoColons [] = Unit
  NoColons ((source, es) ∷ rest) = NoColon source × NoColons rest

  edge_runners-AllOwn :
      (index : Map (List (Edge C V))) (runners : Map (EdgeRunner C V))
      → NoColons index
      → All IsOwn runners
      → All IsOwn (edge_runners index runners)
  unfolding edge_runners
  edge_runners-AllOwn [] runners p own = own
  edge_runners-AllOwn ((source, es) ∷ rest) runners p own =
      edge_runners-AllOwn rest _ p.1 (add_runners-AllOwn source es runners p.0 own)

module _ {C V W : Type 0} (outside : Outside C V W) (nodes : Map (Node (Executor C V W))) where
  abbrev pub without_joins : Routing C V → Routing C V
  without_joins r = record r { runners = keep no_join r.runners }

  route_message-AllOwn :
      (source : String) (msg : C) (r : Routing C V)
      → NoColon source
      → All IsOwn r.runners
      → All IsOwn (route_message outside nodes source msg r).runners
  unfolding route_message new_envelope
  route_message-AllOwn source msg r p own =
      AllOwn-chase_matching nodes source p (make_envelope outside source msg r) refl r.runners own

  route_message-without_joins :
      (source : String) (msg : C) (r : Routing C V)
      → NoColon source
      → All IsOwn r.runners
      → without_joins (route_message outside nodes source msg r)
        ≡ route_message outside nodes source msg (without_joins r)
  unfolding route_message new_envelope
  route_message-without_joins source msg r p own = cc (
    chase_matching-no_join nodes source p (make_envelope outside source msg r) refl r.runners own,
    keep-chase_matching nodes source p (make_envelope outside source msg r) refl r.runners,
  )

  -- Any messages, each from a node of its own.
  abbrev pub route_all : List (String × C) → Routing C V → Routing C V
  route_all [] r = r
  route_all ((source, msg) ∷ sends) r = route_all sends (route_message outside nodes source msg r)

  route_all-without_joins :
      (sends : List (String × C)) (r : Routing C V)
      → All (λ send. NoColon send.0) sends
      → All IsOwn r.runners
      → (route_all sends r).next_ctx ≡ (route_all sends (without_joins r)).next_ctx
  route_all-without_joins [] r p own = refl
  route_all-without_joins ((source, msg) ∷ sends) r p own =
      route_all-without_joins sends (route_message outside nodes source msg r) p.1
        (route_message-AllOwn source msg r p.0 own)
      ∙ ap (λ x. (route_all sends x).next_ctx) (route_message-without_joins source msg r p.0 own)

  -- A fan-in edge with two different sources never delivers: with the runners that the engine
  -- makes, whatever the nodes send and in whatever order, the next step gets the messages that it
  -- would get if those edges were not in the graph at all. (No id that sends has a colon.)
  pub fan_in_starves :
      (index : Map (List (Edge C V))) (sends : List (String × C)) (r : Routing C V)
      → NoColons index
      → All (λ send. NoColon send.0) sends
      → r.runners ≡ edge_runners index []
      → (route_all sends r).next_ctx ≡ (route_all sends (without_joins r)).next_ctx
  fan_in_starves index sends r p q e =
      route_all-without_joins sends r q (rw e (edge_runners-AllOwn index [] p tt))
