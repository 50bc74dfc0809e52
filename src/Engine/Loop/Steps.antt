-- ===== src/Engine/Loop/Steps.antt =====
-- How one pass decides what the loop of `execute_loop` does next
-- (crates/workflow/src/engine/engine.rs).
use mathlib.Core.Option.{some-injective}
use rust_agent_framework.Common.{
  ℕ, suc, some, Map, ◌≡◌, refl, sym, ◌∙◌, inl, inr, ◌⊎◌, AgentError, Result, ok, err,
}
use rust_agent_framework.Graph.{Node}
use rust_agent_framework.Engine.{Executor, WorkflowConfig, Outside}
use rust_agent_framework.Engine.Superstep.{LoopState}
use rust_agent_framework.Engine.Loop.{Commands, Pass, again, completed, failed, pass, run_loop}

module _ {C V W : Type 0} where
  pub Pass-cases :
      (p : Pass C V W)
      → ((st : LoopState C V W) × (p ≡ completed st))
        ⊎ ((e : AgentError) × (st : LoopState C V W) × (p ≡ failed e st))
        ⊎ ((st : LoopState C V W) × (commands : Commands C) × (p ≡ again st commands))
  Pass-cases (completed st) = inl (st, refl)
  Pass-cases (failed e st) = inr (inl (e, st, refl))
  Pass-cases (again st commands) = inr (inr (st, commands, refl))

module _ {C V W : Type 0} (outside : Outside C V W) (config : WorkflowConfig)
    (nodes : Map (Node (Executor C V W))) where
  pub run_loop-completed_at :
      (fuel : ℕ) (commands : Commands C) (st : LoopState C V W) {st' : LoopState C V W}
      → pass outside config nodes commands st ≡ completed st'
      → run_loop outside config nodes (suc fuel) commands st ≡ some (ok tt, st')
  unfolding run_loop
  run_loop-completed_at fuel commands st e = rw (run_loop, e) refl

  pub run_loop-failed_at :
      (fuel : ℕ) (commands : Commands C) (st : LoopState C V W) {x : AgentError}
      {st' : LoopState C V W}
      → pass outside config nodes commands st ≡ failed x st'
      → run_loop outside config nodes (suc fuel) commands st ≡ some (err x, st')
  unfolding run_loop
  run_loop-failed_at fuel commands st e = rw (run_loop, e) refl

  pub run_loop-completed :
      (fuel : ℕ) (commands : Commands C) (st : LoopState C V W) {st' : LoopState C V W}
      {end : Result (Unit {0}) × LoopState C V W}
      → pass outside config nodes commands st ≡ completed st'
      → run_loop outside config nodes (suc fuel) commands st ≡ some end
      → (ok tt, st') ≡ end
  run_loop-completed fuel commands st e h =
      some-injective _ _ (sym (run_loop-completed_at fuel commands st e) ∙ h)

  pub run_loop-failed :
      (fuel : ℕ) (commands : Commands C) (st : LoopState C V W) {x : AgentError}
      {st' : LoopState C V W} {end : Result (Unit {0}) × LoopState C V W}
      → pass outside config nodes commands st ≡ failed x st'
      → run_loop outside config nodes (suc fuel) commands st ≡ some end
      → (err x, st') ≡ end
  run_loop-failed fuel commands st e h =
      some-injective _ _ (sym (run_loop-failed_at fuel commands st e) ∙ h)

  pub run_loop-again :
      (fuel : ℕ) (commands : Commands C) (st : LoopState C V W) {st' : LoopState C V W}
      {commands' : Commands C}
      → pass outside config nodes commands st ≡ again st' commands'
      → run_loop outside config nodes (suc fuel) commands st
        ≡ run_loop outside config nodes fuel commands' st'
  unfolding run_loop
  run_loop-again fuel commands st e = rw (run_loop, e) refl
