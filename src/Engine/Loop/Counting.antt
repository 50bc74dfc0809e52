-- ===== src/Engine/Loop/Counting.antt =====
-- The step numbers of a whole run, in the loop's state and in the checkpoints (`execute_loop` of
-- crates/workflow/src/engine/engine.rs).
use rust_agent_framework.Common.{
  String, ℕ, zero, suc, ◌+◌, ◌^◌, ◌<◌, Option, none, some, List, [], ◌∷◌, ◌++◌, Map, ◌≡◌, refl, sym,
  subst, inl, inr, arith, Bool-cases, AgentError, Result, ◌∙◌, if-cases, keep, not,
}
use rust_agent_framework.Graph.{Node}
use rust_agent_framework.Step.{has_messages}
use rust_agent_framework.Engine.Run.{run_task}
use rust_agent_framework.Engine.Prepare.{Prep}
use rust_agent_framework.Runner.{EdgeRunner}
use rust_agent_framework.Engine.{TimerEntry, Shared, Executor, Graph, WorkflowConfig, Outside}
use rust_agent_framework.Engine.Superstep.{
  LoopState, is_due, fire_timers, fire_due_timers, prepared, settle, superstep,
}
use rust_agent_framework.Engine.Superstep.Failure.{first_error}
use rust_agent_framework.Engine.Superstep.Routed.{sent}
use rust_agent_framework.Engine.Superstep.Numbering.{Settled, settle-Settled}
use rust_agent_framework.Engine.Loop.{
  inject_message, continue_run, abort, Commands, completed, announce, halted_pass, after_superstep,
  running_pass, pass, run_loop, initial, execute_loop,
}
use rust_agent_framework.Engine.Loop.Numbers.{
  unwrapped, All-le, IsNumbered, IsEnded, PassNumbered, IsNumbered-le, IsEnded-le, save-IsNumbered,
}
use rust_agent_framework.Engine.Loop.Steps.{
  Pass-cases, run_loop-completed, run_loop-failed, run_loop-again,
}

module _ {C V W : Type 0} (outside : Outside C V W) (config : WorkflowConfig)
    (nodes : Map (Node (Executor C V W))) where
  announce-IsNumbered :
      (n : ℕ) (st : LoopState C V W)
      → IsNumbered n st
      → IsNumbered n (announce outside config nodes st)
  announce-IsNumbered n st h = elim (Bool-cases st.halt_announced) [
    | inl yes_it ↦ rw yes_it h
    | inr no_it ↦
        let (up, ascending) = save-IsNumbered n st _ refl h in
        rw no_it (h.0, (up, ascending, h.1.2))
  ]

  fire_timers-IsNumbered :
      (n : ℕ) (due : List TimerEntry) (st : LoopState C V W)
      → IsNumbered n st
      → IsNumbered n (fire_timers outside nodes due st)
  unfolding fire_timers
  fire_timers-IsNumbered n [] st h = h
  fire_timers-IsNumbered n (t ∷ due) st h = fire_timers-IsNumbered n due _ h

  fire_due_timers-IsNumbered :
      (n now : ℕ) (st : LoopState C V W)
      → IsNumbered n st
      → IsNumbered n (fire_due_timers outside nodes now st)
  unfolding fire_due_timers
  fire_due_timers-IsNumbered n now st h =
      fire_timers-IsNumbered n (keep (is_due outside nodes now) st.shared.timers)
        (record st {
          shared = record st.shared {
            timers = keep (λ t. not (is_due outside nodes now t)) st.shared.timers;
          };
        })
        h

  halted_pass-IsNumbered :
      (n : ℕ) (commands : Commands C) (st : LoopState C V W)
      → IsNumbered n st
      → PassNumbered n (halted_pass outside config nodes commands st)
  unfolding halted_pass
  halted_pass-IsNumbered n none st h = h
  halted_pass-IsNumbered n (some []) st h = h
  halted_pass-IsNumbered n (some (inject_message target msg ∷ rest)) st h = h
  halted_pass-IsNumbered n (some (continue_run ∷ rest)) st h = h
  halted_pass-IsNumbered n (some (abort ∷ rest)) st h = h.1

  after_superstep-IsNumbered :
      (n : ℕ) (commands : Commands C) (p : Prep C V W) (st : LoopState C V W) (left : Shared C V W)
      (sends : List (String × C)) (result : LoopState C V W × Option AgentError)
      (failure : Option AgentError)
      → Settled outside config nodes p st left sends result failure
      → n + 1 < 2 ^ 31
      → IsNumbered n st
      → PassNumbered (n + 1) (after_superstep outside config nodes commands result)
  after_superstep-IsNumbered n commands p st left sends (after, none) none s small h =
      let (same, (up, ascending, few)) = h in
      let one_more : after.total_steps ≡ st.total_steps + 1 =
        s.counted ∙ unwrapped st.total_steps (omega arith) in
      let next : after.step_ctx.step_number ≡ st.step_ctx.step_number + 1 =
        s.next_number ∙ unwrapped st.step_ctx.step_number (omega arith) in
      let (up', ascending') = save-IsNumbered n st s.checkpoint s.numbered h in
      (
        omega arith,
        (
          rw s.saved_one (
              All-le st.total_steps after.total_steps (st.saved ++ s.checkpoint ∷ []) (omega arith)
                up'),
          rw s.saved_one ascending',
          omega arith,
        ),
      )
  after_superstep-IsNumbered n commands p st left sends (after, some e) none s small h =
      let impossible = s.no_failure in cc
  after_superstep-IsNumbered n commands p st left sends (after, none) (some e) s small h =
      let impossible = s.failed_with in cc
  after_superstep-IsNumbered n commands p st left sends (after, some e') (some e) s small h =
      let (same, (up, ascending, few)) = h in
      let one_more : after.total_steps ≡ st.total_steps + 1 =
        s.failed_counted ∙ unwrapped st.total_steps (omega arith) in
      (
        rw s.nothing_saved (All-le st.total_steps after.total_steps st.saved (omega arith) up),
        rw s.nothing_saved ascending,
        omega arith,
      )

  superstep-IsNumbered :
      (n : ℕ) (commands : Commands C) (st : LoopState C V W)
      → n + 1 < 2 ^ 31
      → IsNumbered n st
      → PassNumbered
          (n + 1)
          (after_superstep outside config nodes commands (superstep outside config nodes st))
  unfolding superstep
  superstep-IsNumbered n commands st small h =
      let p = prepared outside config nodes st in
      let ended =
        outside.join_all (run_task outside config) p.tasks
          (record st.shared { state_map = p.state_map }) in
      after_superstep-IsNumbered n commands p st ended.1 (sent ended.0)
        (settle outside config nodes p st ended) (first_error outside nodes ended.0)
        (settle-Settled outside config nodes p st ended.0 ended.1) small h

  running_pass-IsNumbered :
      (n : ℕ) (commands : Commands C) (st : LoopState C V W)
      → n + 1 < 2 ^ 31
      → IsNumbered n st
      → PassNumbered (n + 1) (running_pass outside config nodes commands st)
  unfolding running_pass
  running_pass-IsNumbered n commands st small h =
      let st' = fire_due_timers outside nodes (outside.pass_clock st.total_steps st.made) st in
      let h' = fire_due_timers-IsNumbered n (outside.pass_clock st.total_steps st.made) st h in
      elim (if-cases (has_messages st'.step_ctx)
        (after_superstep outside config nodes commands (superstep outside config nodes st'))
        (completed st')) [
          | inl (more, same) ↦
              subst (PassNumbered (n + 1)) (sym same) (superstep-IsNumbered n commands st' small h')
          | inr (no_more, same) ↦
              subst (PassNumbered (n + 1)) (sym same) (IsNumbered-le n (n + 1) st' (omega arith) h')
        ]

  -- A pass runs at most one step.
  pass-IsNumbered :
      (n : ℕ) (commands : Commands C) (st : LoopState C V W)
      → n + 1 < 2 ^ 31
      → IsNumbered n st
      → PassNumbered (n + 1) (pass outside config nodes commands st)
  unfolding pass
  pass-IsNumbered n commands st small h =
      elim (if-cases st.shared.halt_flag
        (halted_pass outside config nodes commands (announce outside config nodes st))
        (running_pass outside config nodes commands st)) [
          | inl (halted, same) ↦ subst (PassNumbered (n + 1)) (sym same) (
              halted_pass-IsNumbered (n + 1) commands (announce outside config nodes st) (
                IsNumbered-le n (n + 1) (announce outside config nodes st) (omega arith)
                  (announce-IsNumbered n st h)))
          | inr (running, same) ↦
              subst (PassNumbered (n + 1)) (sym same)
                (running_pass-IsNumbered n commands st small h)
        ]

  run_loop-IsEnded :
      (fuel n : ℕ) (commands : Commands C) (st : LoopState C V W)
      {end : Result (Unit {0}) × LoopState C V W}
      → n + fuel < 2 ^ 31
      → IsNumbered n st
      → run_loop outside config nodes fuel commands st ≡ some end
      → IsEnded (n + fuel) end
  unfolding run_loop
  run_loop-IsEnded zero n commands st small h e = cc
  run_loop-IsEnded (suc fuel) n commands st {end} small h e =
      let numbered = pass-IsNumbered n commands st (omega arith) h in
      let ended : IsEnded (n + 1) end → IsEnded (n + suc fuel) end =
        IsEnded-le (n + 1) (n + suc fuel) end (omega arith) in
      elim (Pass-cases (pass outside config nodes commands st)) [
        | inl (st', done) ↦ ended (
            subst (IsEnded (n + 1))
              (run_loop-completed outside config nodes fuel commands st done e)
              (subst (PassNumbered (n + 1)) done numbered))
        | inr (inl (x, st', done)) ↦ ended (
            subst (IsEnded (n + 1)) (run_loop-failed outside config nodes fuel commands st done e)
              (subst (PassNumbered (n + 1)) done numbered))
        | inr (inr (st', commands', more)) ↦
            IsEnded-le (n + 1 + fuel) (n + suc fuel) end (omega arith) (
              run_loop-IsEnded fuel (n + 1) commands' st' (omega arith)
                (subst (PassNumbered (n + 1)) more numbered)
                (sym (run_loop-again outside config nodes fuel commands st more) ∙ e))
      ]

module _ {C V W : Type 0} (outside : Outside C V W) (config : WorkflowConfig) where
  -- Whatever a run of fewer than 2^31 passes does, pauses and errors included: its checkpoints bear
  -- step numbers that never fall from one to the next, none above the count of steps, which is at
  -- most the number of passes allowed, and so no `i32` wraps; and when the run completes the count
  -- of steps is the number of the step that would come next.
  pub execute_loop-IsEnded :
      (fuel : ℕ) (commands : Commands C) (runners : Map (EdgeRunner C V)) (g : Graph C V W)
      (message : C) (world : W) (end : Result (Unit {0}) × LoopState C V W)
      → fuel < 2 ^ 31
      → execute_loop outside config fuel commands runners g message world ≡ some end
      → IsEnded fuel end
  unfolding execute_loop initial
  execute_loop-IsEnded fuel commands runners g message world end small h =
      IsEnded-le (0 + fuel) fuel end (omega arith) (
        run_loop-IsEnded outside config g.nodes fuel 0 commands
          (initial outside runners g message world) (omega arith) (refl, (tt, tt, omega arith)) h)
