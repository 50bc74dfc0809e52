-- ===== src/Engine/Superstep/Failure.antt =====
-- How a superstep ends (`execute_loop` and `run_compensations` of
-- crates/workflow/src/engine/engine.rs).
use rust_agent_framework.Common.{
  String, Option, none, some, List, [], ◌∷◌, ◌++◌, Map, get, ◌≡◌, ◌⊎◌, inl, inr, Option-cases, refl,
  AgentError, ok, err,
}
use mathlib.Core.List.{reverse, reverse-append}
use rust_agent_framework.Graph.{Node}
use rust_agent_framework.Engine.{Shared, Executor, Joined, returned, panicked, Outside}
use rust_agent_framework.Engine.Route.{
  Routing, panic_error, route_joined, compensate_one, compensate_all, run_compensations,
}

module _ {C V W : Type 0} (outside : Outside C V W) (nodes : Map (Node (Executor C V W))) where
  -- The error of the first task, in the order in which they were started, that failed or panicked.
  abbrev pub first_error : List (Joined C) → Option AgentError
  first_error [] = none
  first_error (returned (ok run) ∷ rest) = first_error rest
  first_error (returned (err e) ∷ rest) = some e
  first_error (panicked reason ∷ rest) = some (panic_error outside nodes reason)

  pub error-route_joined :
      (joined : List (Joined C)) (r : Routing C V)
      → (route_joined outside nodes joined r).0 ≡ first_error joined
  unfolding route_joined
  error-route_joined [] r = refl
  error-route_joined (returned (ok run) ∷ rest) r = error-route_joined rest _
  error-route_joined (returned (err e) ∷ rest) r = refl
  error-route_joined (panicked reason ∷ rest) r = refl

  compensate_all-append :
      (xs ys : List String) (s : Shared C V W)
      → compensate_all outside nodes (xs ++ ys) s
        ≡ compensate_all outside nodes ys (compensate_all outside nodes xs s)
  compensate_all-append [] ys s = refl
  compensate_all-append (x ∷ xs) ys s =
      compensate_all-append xs ys (compensate_one outside nodes x s)

  -- What compensating one node leaves: its executor may change the workflow's state and the world.
  -- An id that is not in the graph changes nothing.
  abbrev pub IsCompensated : String → Shared C V W → Shared C V W → Type 0
  IsCompensated id s s' =
      ((get nodes id ≡ none) × (s' ≡ s))
      ⊎ ((node : Node (Executor C V W)) × (get nodes id ≡ some node)
          × ((s'.state_map, s'.world) ≡ node.executor.compensate (s.state_map, s.world))
          × (s'.halt_flag ≡ s.halt_flag)
          × (s'.timers ≡ s.timers)
          × (s'.outputs ≡ s.outputs))

  -- Every entry of a log is compensated once, an entry after all those behind it.
  pub data Undone : List String → Shared C V W → Shared C V W → Type 0 where
    all_undone : {s : Shared C V W} → Undone [] s s
    then_first :
        {id : String} {later : List String} {s s' s'' : Shared C V W}
        → Undone later s s'
        → IsCompensated id s' s''
        → Undone (id ∷ later) s s''

  compensate_one-IsCompensated :
      (id : String) (s : Shared C V W) → IsCompensated id s (compensate_one outside nodes id s)
  unfolding get
  compensate_one-IsCompensated id s = elim (Option-cases (get nodes id)) [
    | inl absent ↦ inl (absent, rw (compensate_one, absent) refl)
    | inr (node, found) ↦ inr (
      node,
      found,
      rw (compensate_one, found) refl,
      rw (compensate_one, found) refl,
      rw (compensate_one, found) refl,
      rw (compensate_one, found) refl,
    )
  ]

  -- Compensation runs against the log: the nodes that started later are compensated first, and
  -- those that started earlier on what is left. An empty log changes nothing.
  pub run_compensations-append :
      (earlier later : List String) (s : Shared C V W)
      → (run_compensations outside nodes (earlier ++ later) s
          ≡ run_compensations outside nodes earlier (run_compensations outside nodes later s))
        × (run_compensations outside nodes [] s ≡ s)
  unfolding run_compensations
  run_compensations-append earlier later s =
      (rw reverse-append (compensate_all-append (reverse later) (reverse earlier) s), refl)

  run_compensations-IsCompensated :
      (id : String) (s : Shared C V W)
      → IsCompensated id s (run_compensations outside nodes (id ∷ []) s)
  unfolding run_compensations
  run_compensations-IsCompensated id s = compensate_one-IsCompensated id s

  pub run_compensations-Undone :
      (log : List String) (s : Shared C V W) → Undone log s (run_compensations outside nodes log s)
  run_compensations-Undone [] s = rw (run_compensations-append [] [] s).1 all_undone
  run_compensations-Undone (id ∷ later) s = rw (run_compensations-append (id ∷ []) later s).0 (
      then_first (run_compensations-Undone later s)
        (run_compensations-IsCompensated id (run_compensations outside nodes later s)))
