-- ===== src/Saga.antt =====
-- crates/workflow-pro/src/compensation/saga.rs: a chain of steps with compensations. An action is
-- an executor's `handle`; `W` is all that it can reach, the workflow context included.
pub mod Recovery
mod Samples
use Prim.Native.String.{◌++◌ as text_append}
use mathlib.Core.List.{reverse}
use rust_agent_framework.Common.{
  String, Option, none, some, List, [], ◌∷◌, ◌++◌, AgentError, workflow_error, display, Result, ok,
  err,
}
use rust_agent_framework.Engine.{HandlerResult, messages, output, nothing}

pub data SagaPolicy : Type 0 where
  backward_recovery forward_recovery : SagaPolicy

abbrev pub Action : Type 0 → Type 0 → Type 0
Action C W = C → W → Result (HandlerResult C) × W

pub record SagaStep (C W : Type 0) : Type 0 where
  pub name : String
  pub action : Action C W
  pub compensation : Option (Action C W)

pub record SagaOrchestrator (C W : Type 0) : Type 0 where
  pub steps : List (SagaStep C W)
  pub policy : SagaPolicy

abbrev pub step_failed : String → AgentError → AgentError
step_failed name e = workflow_error (
    text_append (text_append (text_append "Saga 步骤 '" name) "' 失败 (已触发 BackwardRecovery): ")
      (display e))

module _ {C : Type 0} where
  -- `results.last().cloned().unwrap_or(initial_message)`; before the first step it is the same.
  abbrev pub last_or : C → List C → C
  last_or initial [] = initial
  last_or initial (c ∷ cs) = last_or c cs

  abbrev pub add_result : HandlerResult C → List C → List C
  add_result (messages msgs) results = results ++ msgs
  add_result (output out) results = results ++ out ∷ []
  add_result nothing results = results

module _ {C W : Type 0} where
  abbrev pub new_step : String → Action C W → SagaStep C W
  new_step name action = record { name = name; action = action; compensation = none }

  abbrev pub with_compensation : Action C W → SagaStep C W → SagaStep C W
  with_compensation compensation step = record step { compensation = some compensation }

  abbrev pub step : SagaStep C W → SagaOrchestrator C W → SagaOrchestrator C W
  step s saga = record saga { steps = saga.steps ++ s ∷ [] }

  abbrev pub with_policy : SagaPolicy → SagaOrchestrator C W → SagaOrchestrator C W
  with_policy policy saga = record saga { policy = policy }

  -- A compensation that fails is passed over.
  abbrev pub compensate_step : C → SagaStep C W → W → W
  compensate_step triggered s w = elim s.compensation [
    | none ↦ w
    | some compensation ↦ (compensation triggered w).1
  ]

  abbrev pub compensate_steps : C → List (SagaStep C W) → W → W
  compensate_steps triggered [] w = w
  compensate_steps triggered (s ∷ steps) w =
      compensate_steps triggered steps (compensate_step triggered s w)

  -- `compensate`: the completed steps, the last one first.
  unfoldable pub compensate : C → List (SagaStep C W) → W → W
  compensate triggered completed w = compensate_steps triggered (reverse completed) w

module _ {C W : Type 0} (triggered initial : C) (policy : SagaPolicy) where
  -- The loop of `execute`, from the steps that are left, the results and the completed steps.
  unfoldable pub run_steps :
      List (SagaStep C W) → List C → List (SagaStep C W) → W → Result (List C) × W
  unfolding compensate
  run_steps [] results completed w = (ok results, w)
  run_steps (s ∷ steps) results completed w =
      let (r, w') = s.action (last_or initial results) w in
      elim r [
        | ok h ↦ run_steps steps (add_result h results) (completed ++ s ∷ []) w'
        | err e ↦ elim policy [
          | backward_recovery ↦ (err (step_failed s.name e), compensate triggered completed w')
          | forward_recovery ↦ run_steps steps results completed w'
        ]
      ]

-- `triggered` is the payload made of the text "compensation_triggered".
unfoldable pub execute : {C W : Type 0} → C → SagaOrchestrator C W → C → W → Result (List C) × W
unfolding run_steps
execute triggered saga initial w = run_steps triggered initial saga.policy saga.steps [] [] w
