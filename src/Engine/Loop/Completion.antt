-- ===== src/Engine/Loop/Completion.antt =====
-- How a run goes on and how it may end (`execute_loop` of crates/workflow/src/engine/engine.rs).
use rust_agent_framework.Common.{
  ℕ, zero, suc, ap, true, false, Option, none, some, List, [], ◌∷◌, Map, ◌≡◌, refl, sym, subst, ◌∙◌,
  inl, inr, ◌⊎◌, if-cases, Bool-cases, AgentError, Result, ok, err,
}
use rust_agent_framework.Graph.{Node}
use rust_agent_framework.Runner.{EdgeRunner}
use rust_agent_framework.Envelope.{Envelope, new_envelope, with_target, type_tag}
use rust_agent_framework.Step.{enqueue, has_messages}
use rust_agent_framework.Engine.{Shared, Executor, Graph, WorkflowConfig, Outside}
use rust_agent_framework.Engine.Superstep.{LoopState, fire_due_timers, superstep}
use rust_agent_framework.Engine.Loop.{
  ResumeCommand, inject, inject_message, continue_run, abort, Commands, Pass, again, completed,
  failed, announce, aborted, halted_pass, after_superstep, running_pass, pass, run_loop, initial,
  execute_loop,
}
use rust_agent_framework.Engine.Loop.Steps.{
  Pass-cases, run_loop-completed, run_loop-failed, run_loop-again,
}

module _ {C V W : Type 0} (outside : Outside C V W) (config : WorkflowConfig)
    (nodes : Map (Node (Executor C V W))) where
  -- The state with the due timers fired, on which a pass that is not halted works.
  abbrev pub fired : LoopState C V W → LoopState C V W
  fired st = fire_due_timers outside nodes (outside.pass_clock st.total_steps st.made) st

  -- A command lifts a halt: a message is put behind those that wait, with its target, or the run
  -- just goes on. `abort` does not.
  abbrev pub IsResumed : ResumeCommand C → LoopState C V W → LoopState C V W → Type 0
  IsResumed (inject_message target msg) st st' =
      (st'.shared ≡ record st.shared { halt_flag = false })
      × ((env : Envelope C V) × (env.content ≡ msg)
          × (env.source_node_id ≡ "external")
          × (env.target_node_id ≡ some target)
          × (st'.step_ctx ≡ enqueue env st.step_ctx))
  IsResumed continue_run st st' =
      (st'.shared ≡ record st.shared { halt_flag = false }) × (st'.step_ctx ≡ st.step_ctx)
  IsResumed abort st st' = ⊥

  -- One pass that goes on: with a halt, it takes the next command, which lifts it; without one, it
  -- leaves the commands alone and runs a superstep in which no task fails.
  pub data OnePass : Commands C → LoopState C V W → Commands C → LoopState C V W → Type 0 where
    resumed :
        {command : ResumeCommand C} {rest : List (ResumeCommand C)} {st st' : LoopState C V W}
        → st.shared.halt_flag ≡ true
        → IsResumed command st st'
        → OnePass (some (command ∷ rest)) st (some rest) st'
    stepped :
        {commands : Commands C} {st st' : LoopState C V W}
        → st.shared.halt_flag ≡ false
        → has_messages (fired st).step_ctx ≡ true
        → superstep outside config nodes (fired st) ≡ (st', none)
        → OnePass commands st commands st'

  -- Any number of such passes, with the commands that are left.
  pub data Course : Commands C → LoopState C V W → Commands C → LoopState C V W → Type 0 where
    arrived : {commands : Commands C} {st : LoopState C V W} → Course commands st commands st
    onward :
        {commands commands' left : Commands C} {st st' before : LoopState C V W}
        → OnePass commands st commands' st'
        → Course commands' st' left before
        → Course commands st left before

  -- The last pass. The run completes in a halt, with no command left, or without one, with no
  -- message left once the timers have fired. It fails in a halt, on `abort`, or without one, with
  -- the error of a superstep.
  abbrev pub IsLastPass :
      Commands C → LoopState C V W → Result (Unit {0}) × LoopState C V W → Type 0
  IsLastPass left before (ok _, st) =
      ((before.shared.halt_flag ≡ true)
        × ((left ≡ none) ⊎ (left ≡ some []))
        × (st.shared ≡ before.shared)
        × (st.step_ctx ≡ before.step_ctx))
      ⊎ ((before.shared.halt_flag ≡ false)
          × (st ≡ fired before)
          × (has_messages st.step_ctx ≡ false))
  IsLastPass left before (err e, st) =
      ((before.shared.halt_flag ≡ true)
        × ((rest : List (ResumeCommand C)) × (left ≡ some (abort ∷ rest)))
        × (e ≡ aborted)
        × (st.shared ≡ before.shared)
        × (st.step_ctx ≡ before.step_ctx))
      ⊎ ((before.shared.halt_flag ≡ false)
          × (has_messages (fired before).step_ctx ≡ true)
          × (superstep outside config nodes (fired before) ≡ (st, some e)))

  -- How a run from a state may end.
  abbrev pub IsFinished :
      Commands C → LoopState C V W → Result (Unit {0}) × LoopState C V W → Type 0
  IsFinished commands st end =
      (left : Commands C) × (before : LoopState C V W) × Course commands st left before
      × IsLastPass left before end

  abbrev PassFinished : Commands C → LoopState C V W → Pass C V W → Type 0
  PassFinished commands st (again st' commands') = OnePass commands st commands' st'
  PassFinished commands st (completed st') = IsLastPass commands st (ok tt, st')
  PassFinished commands st (failed e st') = IsLastPass commands st (err e, st')

  announce-same :
      (st : LoopState C V W)
      → ((announce outside config nodes st).shared ≡ st.shared)
        × ((announce outside config nodes st).step_ctx ≡ st.step_ctx)
  announce-same st = elim (Bool-cases st.halt_announced) [
    | inl yes_it ↦ rw yes_it (refl, refl)
    | inr no_it ↦ rw no_it (refl, refl)
  ]

  halted_pass-IsFinished :
      (commands : Commands C) (st st' : LoopState C V W)
      → st.shared.halt_flag ≡ true
      → st'.shared ≡ st.shared
      → st'.step_ctx ≡ st.step_ctx
      → PassFinished commands st (halted_pass outside config nodes commands st')
  unfolding halted_pass inject new_envelope with_target
  halted_pass-IsFinished none st st' h shared ctx = inl (h, inl refl, shared, ctx)
  halted_pass-IsFinished (some []) st st' h shared ctx = inl (h, inr refl, shared, ctx)
  halted_pass-IsFinished (some (inject_message target msg ∷ rest)) st st' h shared ctx =
      let env =
        with_target
          (new_envelope (outside.uuid st'.made) (outside.clock st'.made) "external" msg
            (type_tag "resume"))
          target in
      resumed {command = inject_message target msg} {st = st} h (
        ap (λ (s : Shared C V W). record s { halt_flag = false }) shared,
        (env, refl, refl, refl, ap (enqueue env) ctx),
      )
  halted_pass-IsFinished (some (continue_run ∷ rest)) st st' h shared ctx =
      resumed {command = continue_run} {st = st} h
        (ap (λ (s : Shared C V W). record s { halt_flag = false }) shared, ctx)
  halted_pass-IsFinished (some (abort ∷ rest)) st st' h shared ctx =
      inl (h, (rest, refl), refl, shared, ctx)

  after_superstep-IsFinished :
      (commands : Commands C) (st : LoopState C V W) (result : LoopState C V W × Option AgentError)
      → st.shared.halt_flag ≡ false
      → has_messages (fired st).step_ctx ≡ true
      → superstep outside config nodes (fired st) ≡ result
      → PassFinished commands st (after_superstep outside config nodes commands result)
  after_superstep-IsFinished commands st (st', none) h more e = stepped h more e
  after_superstep-IsFinished commands st (st', some x) h more e = inr (h, more, e)

  running_pass-IsFinished :
      (commands : Commands C) (st : LoopState C V W)
      → st.shared.halt_flag ≡ false
      → PassFinished commands st (running_pass outside config nodes commands st)
  unfolding running_pass
  running_pass-IsFinished commands st h =
      elim (if-cases (has_messages (fired st).step_ctx)
        (after_superstep outside config nodes commands (superstep outside config nodes (fired st)))
        (completed (fired st))) [
          | inl (more, same) ↦ subst (PassFinished commands st) (sym same) (
              after_superstep-IsFinished commands st (superstep outside config nodes (fired st)) h
                more refl)
          | inr (no_more, same) ↦
              subst (PassFinished commands st) (sym same) (inr (h, refl, no_more))
        ]

  pass-IsFinished :
      (commands : Commands C) (st : LoopState C V W)
      → PassFinished commands st (pass outside config nodes commands st)
  unfolding pass
  pass-IsFinished commands st =
      elim (if-cases st.shared.halt_flag
        (halted_pass outside config nodes commands (announce outside config nodes st))
        (running_pass outside config nodes commands st)) [
          | inl (halted, same) ↦
              let (shared, ctx) = announce-same st in
              subst (PassFinished commands st) (sym same) (
                halted_pass-IsFinished commands st (announce outside config nodes st) halted shared
                  ctx)
          | inr (running, same) ↦
              subst (PassFinished commands st) (sym same)
                (running_pass-IsFinished commands st running)
        ]

  run_loop-IsFinished :
      (fuel : ℕ) (commands : Commands C) (st : LoopState C V W)
      {end : Result (Unit {0}) × LoopState C V W}
      → run_loop outside config nodes fuel commands st ≡ some end
      → IsFinished commands st end
  unfolding run_loop
  run_loop-IsFinished zero commands st e = cc
  run_loop-IsFinished (suc fuel) commands st e =
      let finished = pass-IsFinished commands st in
      elim (Pass-cases (pass outside config nodes commands st)) [
        | inl (st', done) ↦ (
          commands,
          st,
          arrived,
          subst (IsLastPass commands st)
              (run_loop-completed outside config nodes fuel commands st done e)
              (subst (PassFinished commands st) done finished),
        )
        | inr (inl (x, st', done)) ↦ (
          commands,
          st,
          arrived,
          subst (IsLastPass commands st)
              (run_loop-failed outside config nodes fuel commands st done e)
              (subst (PassFinished commands st) done finished),
        )
        | inr (inr (st', commands', more)) ↦
            let (left, before, course, last) =
              run_loop-IsFinished fuel commands' st'
                (sym (run_loop-again outside config nodes fuel commands st more) ∙ e) in
            (left, before, onward (subst (PassFinished commands st) more finished) course, last)
      ]

module _ {C V W : Type 0} (outside : Outside C V W) (config : WorkflowConfig) where
  -- Every pass of a run but the last takes the next command, if the run is halted, and that lifts
  -- the halt, injecting its message if it has one; or else it runs a superstep in which no task
  -- fails. A run completes without a halt only when no message is left after the timers have fired,
  -- and in a halt only when no command is left; it fails in a halt only on `abort`, and else only
  -- with the error of its last superstep.
  pub execute_loop-IsFinished :
      (fuel : ℕ) (commands : Commands C) (runners : Map (EdgeRunner C V)) (g : Graph C V W)
      (message : C) (world : W) (end : Result (Unit {0}) × LoopState C V W)
      → execute_loop outside config fuel commands runners g message world ≡ some end
      → IsFinished outside config g.nodes commands (initial outside runners g message world) end
  unfolding execute_loop
  execute_loop-IsFinished fuel commands runners g message world end h =
      run_loop-IsFinished outside config g.nodes fuel commands
        (initial outside runners g message world) h
