-- ===== src/Engine/Superstep/Routed.antt =====
-- The messages that a superstep routes (`execute_loop` of crates/workflow/src/engine/engine.rs).
use rust_agent_framework.Common.{String, List, [], ◌∷◌, ◌++◌, Map, ◌≡◌, refl, ◌∙◌, ok, err}
use rust_agent_framework.Graph.{Node}
use rust_agent_framework.Engine.{Executor, Joined, returned, panicked, Outside}
use rust_agent_framework.Engine.Route.{Routing, route_messages, route_joined}
use rust_agent_framework.Engine.Route.Starved.{route_all}

module _ {C : Type 0} where
  abbrev pub sent_by : String → List C → List (String × C)
  sent_by source [] = []
  sent_by source (msg ∷ msgs) = (source, msg) ∷ sent_by source msgs

  -- What the tasks sent, with its sources, up to the first task that failed or panicked.
  abbrev pub sent : List (Joined C) → List (String × C)
  sent [] = []
  sent (returned (ok run) ∷ rest) = sent_by run.source run.produced ++ sent rest
  sent (returned (err e) ∷ rest) = []
  sent (panicked reason ∷ rest) = []

module _ {C V W : Type 0} (outside : Outside C V W) (nodes : Map (Node (Executor C V W))) where
  route_messages-append :
      (source : String) (msgs : List C) (sends : List (String × C)) (r : Routing C V)
      → route_all outside nodes sends (route_messages outside nodes source msgs r)
        ≡ route_all outside nodes (sent_by source msgs ++ sends) r
  unfolding route_messages
  route_messages-append source [] sends r = refl
  route_messages-append source (msg ∷ msgs) sends r = route_messages-append source msgs sends _

  pub route_joined-sent :
      (joined : List (Joined C)) (r : Routing C V)
      → (route_joined outside nodes joined r).1 ≡ route_all outside nodes (sent joined) r
  unfolding route_joined
  route_joined-sent [] r = refl
  route_joined-sent (returned (ok run) ∷ rest) r =
      route_joined-sent rest (route_messages outside nodes run.source run.produced r)
      ∙ route_messages-append run.source run.produced (sent rest) r
  route_joined-sent (returned (err e) ∷ rest) r = refl
  route_joined-sent (panicked reason ∷ rest) r = refl
