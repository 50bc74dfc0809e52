-- ===== src/Saga/Recovery.antt =====
-- What a saga leaves behind (crates/workflow-pro/src/compensation/saga.rs).
use mathlib.Core.List.{reverse, reverse-append}
use rust_agent_framework.Common.{
  List, [], ◌∷◌, ◌++◌, append_assoc, append-nil, ◌≡◌, ◌⊎◌, inl, inr, refl, ap, AgentError, Result,
  ok, err, Result-cases, Option-cases, none, some, subst,
}
use rust_agent_framework.Engine.{HandlerResult, messages, output, nothing}
use rust_agent_framework.Saga.{
  backward_recovery, forward_recovery, Action, SagaStep, SagaOrchestrator, step_failed, last_or,
  add_result, compensate_step, compensate_steps, compensate, run_steps, execute,
}

module _ {C W : Type 0} where
  compensate_steps-append :
      (triggered : C) (xs ys : List (SagaStep C W)) (w : W)
      → compensate_steps triggered (xs ++ ys) w
        ≡ compensate_steps triggered ys (compensate_steps triggered xs w)
  compensate_steps-append triggered [] ys w = refl
  compensate_steps-append triggered (x ∷ xs) ys w =
      compensate_steps-append triggered xs ys (compensate_step triggered x w)

  -- The steps that completed later are compensated first.
  pub compensate-append :
      (triggered : C) (earlier later : List (SagaStep C W)) (w : W)
      → compensate triggered (earlier ++ later) w
        ≡ compensate triggered earlier (compensate triggered later w)
  unfolding compensate
  compensate-append triggered earlier later w =
      rw reverse-append (compensate_steps-append triggered (reverse later) (reverse earlier) w)

  -- What compensating one step leaves: what its compensation leaves, whether or not that fails.
  abbrev pub IsCompensated : C → SagaStep C W → W → W → Type 0
  IsCompensated triggered s w w' =
      ((s.compensation ≡ none) × (w' ≡ w))
      ⊎ ((undo : Action C W) × (s.compensation ≡ some undo) × (w' ≡ (undo triggered w).1))

  -- Every step of a list is compensated once, a step after all those behind it.
  pub data Undone (triggered : C) : List (SagaStep C W) → W → W → Type 0 where
    all_undone : {w : W} → Undone triggered [] w w
    then_first :
        {s : SagaStep C W} {later : List (SagaStep C W)} {w w' w'' : W}
        → Undone triggered later w w'
        → IsCompensated triggered s w' w''
        → Undone triggered (s ∷ later) w w''

  compensate_step-IsCompensated :
      (triggered : C) (s : SagaStep C W) (w : W)
      → IsCompensated triggered s w (compensate_step triggered s w)
  compensate_step-IsCompensated triggered s w = elim (Option-cases s.compensation) [
    | inl e ↦ inl (e, rw e refl)
    | inr (undo, e) ↦ inr (undo, e, rw e refl)
  ]

  compensate-Undone :
      (triggered : C) (steps : List (SagaStep C W)) (w : W)
      → Undone triggered steps w (compensate triggered steps w)
  unfolding compensate
  compensate-Undone triggered [] w = all_undone
  compensate-Undone triggered (s ∷ later) w = rw (compensate-append triggered (s ∷ []) later w) (
      then_first (compensate-Undone triggered later w)
        (compensate_step-IsCompensated triggered s (compensate triggered later w)))

module _ {C : Type 0} where
  -- The result that a step is run on: the last one so far, or the message that began the saga.
  abbrev pub IsLast : C → List C → C → Type 0
  IsLast initial results c =
      ((results ≡ []) × (c ≡ initial)) ⊎ ((front : List C) × (results ≡ front ++ c ∷ []))

  last_or-last : (x : C) (xs : List C) → (front : List C) × (x ∷ xs ≡ front ++ last_or x xs ∷ [])
  last_or-last x [] = ([], refl)
  last_or-last x (y ∷ ys) =
      let (front, e) = last_or-last y ys in (x ∷ front, ap (λ (l : List C). x ∷ l) e)

  last_or-IsLast :
      (initial : C) (results : List C) → IsLast initial results (last_or initial results)
  last_or-IsLast initial [] = inl (refl, refl)
  last_or-IsLast initial (x ∷ xs) = inr (last_or-last x xs)

  -- The results after a step: its messages or its output behind those before.
  abbrev pub IsAdded : HandlerResult C → List C → List C → Type 0
  IsAdded (messages msgs) results after = after ≡ results ++ msgs
  IsAdded (output out) results after = after ≡ results ++ out ∷ []
  IsAdded nothing results after = after ≡ results

  add_result-IsAdded :
      (h : HandlerResult C) (results : List C) → IsAdded h results (add_result h results)
  add_result-IsAdded (messages msgs) results = refl
  add_result-IsAdded (output out) results = refl
  add_result-IsAdded nothing results = refl

module _ {C W : Type 0} (initial : C) where
  -- Steps that all succeed, one on the result of the other: their results and the state after them.
  pub data Succeeds : List (SagaStep C W) → List C → W → List C → W → Type 0 where
    finished : {results : List C} {w : W} → Succeeds [] results w results w
    next :
        {s : SagaStep C W} {steps : List (SagaStep C W)} {results results' after : List C} {c : C}
        {w w' : W} {h : HandlerResult C}
        → IsLast initial results c
        → (s.action c w).0 ≡ ok h
        → IsAdded h results results'
        → Succeeds steps results' (s.action c w).1 after w'
        → Succeeds (s ∷ steps) results w after w'

  -- How a run of steps ends under backward recovery, some steps being completed before it.
  abbrev pub IsRecovered :
      C → List (SagaStep C W) → List C → List (SagaStep C W) → W → Result (List C) × W → Type 0
  IsRecovered triggered steps results completed w r =
      ((after : List C) × (w' : W) × Succeeds steps results w after w' × (r ≡ (ok after, w')))
      ⊎ ((done : List (SagaStep C W)) × (failing : SagaStep C W) × (rest : List (SagaStep C W))
          × (after : List C) × (w' : W) × (c : C) × (e : AgentError) × (undone : W) × (steps
              ≡ done ++ failing ∷ rest)
          × Succeeds done results w after w'
          × IsLast initial after c
          × ((failing.action c w').0 ≡ err e)
          × Undone triggered (completed ++ done) (failing.action c w').1 undone
          × (r ≡ (err (step_failed failing.name e), undone)))

  run_steps-IsRecovered :
      (triggered : C) (steps : List (SagaStep C W)) (results : List C)
      (completed : List (SagaStep C W)) (w : W)
      → IsRecovered triggered steps results completed w
          (run_steps triggered initial backward_recovery steps results completed w)
  unfolding run_steps
  run_steps-IsRecovered triggered [] results completed w = inl (results, w, finished, refl)
  run_steps-IsRecovered triggered (s ∷ steps) results completed w =
      let last = last_or-IsLast initial results in
      let r = s.action (last_or initial results) w in
      elim (Result-cases r.0) [
        | inr (e, failed) ↦ inr (
          [],
          s,
          steps,
          results,
          w,
          last_or initial results,
          e,
          compensate triggered completed r.1,
          refl,
          finished,
          last,
          failed,
          rw append-nil (compensate-Undone triggered completed r.1),
          rw (run_steps, failed) refl,
        )
        | inl (h, fine) ↦
            elim (run_steps-IsRecovered triggered steps (add_result h results) (completed ++ s ∷ [])
              r.1) [
                | inl (after, w', all_fine, ends) ↦ inl (
                  after,
                  w',
                  next last fine (add_result-IsAdded h results) all_fine,
                  rw (run_steps, fine) ends,
                )
                | inr
                      (
                        done, failing, rest, after, w', c, e, w'', split, fine', l, failed, u, ends,
                      ) ↦
                    inr (
                      s ∷ done,
                      failing,
                      rest,
                      after,
                      w',
                      c,
                      e,
                      w'',
                      ap (λ (l : List (SagaStep C W)). s ∷ l) split,
                      next last fine (add_result-IsAdded h results) fine',
                      l,
                      failed,
                      subst (λ l. Undone triggered l (failing.action c w').1 w'')
                          (append_assoc completed (s ∷ []) done) u,
                      rw (run_steps, fine) ends,
                    )
              ]
      ]

  run_steps-forward :
      (triggered : C) (steps : List (SagaStep C W)) (results : List C)
      (completed : List (SagaStep C W)) (w : W)
      → (after : List C) × ((run_steps triggered initial forward_recovery steps results completed
            w).0
          ≡ ok after)
  unfolding run_steps
  run_steps-forward triggered [] results completed w = (results, refl)
  run_steps-forward triggered (s ∷ steps) results completed w =
      let r = s.action (last_or initial results) w in
      elim (Result-cases r.0) [
        | inl (h, fine) ↦
            let (after, ends) =
              run_steps-forward triggered steps (add_result h results) (completed ++ s ∷ []) r.1 in
            (after, rw (run_steps, fine) ends)
        | inr (e, failed) ↦
            let (after, ends) = run_steps-forward triggered steps results completed r.1 in
            (after, rw (run_steps, failed) ends)
      ]

  -- A saga under backward recovery either returns the results of its steps, each run on the last
  -- result so far and none of them failing, or ends at the first step that fails, with that error,
  -- after compensating exactly the steps before it.
  pub execute-IsRecovered :
      (triggered : C) (saga : SagaOrchestrator C W) (w : W)
      → saga.policy ≡ backward_recovery
      → IsRecovered triggered saga.steps [] [] w (execute triggered saga initial w)
  unfolding execute
  execute-IsRecovered triggered saga w e = rw e (run_steps-IsRecovered triggered saga.steps [] [] w)

  -- Under forward recovery a saga never fails.
  pub execute-forward :
      (triggered : C) (saga : SagaOrchestrator C W) (w : W)
      → saga.policy ≡ forward_recovery
      → (after : List C) × ((execute triggered saga initial w).0 ≡ ok after)
  unfolding execute
  execute-forward triggered saga w e = rw e (run_steps-forward triggered saga.steps [] [] w)
