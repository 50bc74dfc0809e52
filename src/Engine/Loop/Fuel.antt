-- ===== src/Engine/Loop/Fuel.antt =====
-- The fuel of the model does not change a run's result (`execute_loop` of
-- crates/workflow/src/engine/engine.rs).
use rust_agent_framework.Common.{
  ℕ, zero, suc, ◌≤◌, arith, ap, some, Map, ◌≡◌, sym, ◌∙◌, inl, inr, Result,
}
use rust_agent_framework.Graph.{Node}
use rust_agent_framework.Runner.{EdgeRunner}
use rust_agent_framework.Engine.{Executor, Graph, WorkflowConfig, Outside}
use rust_agent_framework.Engine.Superstep.{LoopState}
use rust_agent_framework.Engine.Loop.{Commands, pass, run_loop, initial, execute_loop}
use rust_agent_framework.Engine.Loop.Steps.{
  Pass-cases, run_loop-completed_at, run_loop-failed_at, run_loop-completed, run_loop-failed,
  run_loop-again,
}

module _ {C V W : Type 0} (outside : Outside C V W) (config : WorkflowConfig)
    (nodes : Map (Node (Executor C V W))) where
  run_loop-le :
      (fuel more : ℕ) (commands : Commands C) (st : LoopState C V W)
      {end : Result (Unit {0}) × LoopState C V W}
      → fuel ≤ more
      → run_loop outside config nodes fuel commands st ≡ some end
      → run_loop outside config nodes more commands st ≡ some end
  unfolding run_loop
  run_loop-le zero more commands st le e = cc
  run_loop-le (suc fuel) zero commands st le e = absurd (omega arith)
  run_loop-le (suc fuel) (suc more) commands st le e =
      elim (Pass-cases (pass outside config nodes commands st)) [
        | inl (st', done) ↦
            run_loop-completed_at outside config nodes more commands st done
            ∙ ap some (run_loop-completed outside config nodes fuel commands st done e)
        | inr (inl (x, st', done)) ↦
            run_loop-failed_at outside config nodes more commands st done
            ∙ ap some (run_loop-failed outside config nodes fuel commands st done e)
        | inr (inr (st', commands', next)) ↦
            run_loop-again outside config nodes more commands st next
            ∙ run_loop-le fuel more commands' st' (omega arith)
                (sym (run_loop-again outside config nodes fuel commands st next) ∙ e)
      ]

module _ {C V W : Type 0} (outside : Outside C V W) (config : WorkflowConfig) where
  -- A result does not depend on the fuel: with more of it the run ends in the same way.
  pub execute_loop-le :
      (fuel more : ℕ) (commands : Commands C) (runners : Map (EdgeRunner C V)) (g : Graph C V W)
      (message : C) (world : W) (end : Result (Unit {0}) × LoopState C V W)
      → fuel ≤ more
      → execute_loop outside config fuel commands runners g message world ≡ some end
      → execute_loop outside config more commands runners g message world ≡ some end
  unfolding execute_loop
  execute_loop-le fuel more commands runners g message world end le h =
      run_loop-le outside config g.nodes fuel more commands
        (initial outside runners g message world) le h
