-- ===== src/Engine/Loop/Samples.antt =====
-- Whole runs of the sample workflow.
use rust_agent_framework.Common.{
  ℕ, String, none, List, [], Map, or_default, refl, Result, ok, arith,
}
use rust_agent_framework.Envelope.{new_envelope, with_target, type_tag}
use rust_agent_framework.Graph.{new_node}
use rust_agent_framework.Runner.{EdgeRunner}
use rust_agent_framework.Engine.Samples.{sample, limits, line}
use rust_agent_framework.Engine.Route.{edge_runners}
use rust_agent_framework.Engine.Superstep.{LoopState}
use rust_agent_framework.Engine.Loop.{initial, execute_loop}
use rust_agent_framework.Engine.Loop.Numbers.{IsEnded}
use rust_agent_framework.Engine.Loop.Counting.{execute_loop-IsEnded}
use rust_agent_framework.Engine.Loop.Completion.{IsFinished, execute_loop-IsFinished}

abbrev links : Map (EdgeRunner String ℕ)
links = edge_runners line.edges []

abbrev line_end : Result (Unit {0}) × LoopState String ℕ (List String)
line_end =
    or_default (ok tt, initial sample links line "once" [])
      (execute_loop sample limits 4 none links line "once" [])

execute_loop-IsEnded_example : IsEnded 4 line_end
unfolding execute_loop edge_runners new_envelope with_target type_tag new_node
execute_loop-IsEnded_example =
    execute_loop-IsEnded sample limits 4 none links line "once" [] line_end (omega arith) refl

execute_loop-IsFinished_example :
    IsFinished sample limits line.nodes none (initial sample links line "once" []) line_end
unfolding execute_loop edge_runners new_envelope with_target type_tag new_node
execute_loop-IsFinished_example =
    execute_loop-IsFinished sample limits 4 none links line "once" [] line_end refl
