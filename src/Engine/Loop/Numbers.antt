-- ===== src/Engine/Loop/Numbers.antt =====
-- What the step numbers of a run's state and checkpoints should be (`execute_loop` of
-- crates/workflow/src/engine/engine.rs).
use rust_agent_framework.Common.{
  ℕ, ◌+◌, ◌%◌, ◌^◌, ◌<◌, ◌≤◌, List, [], ◌∷◌, ◌++◌, All, All-append, ◌≡◌, arith, Result, ok, err,
}
use rust_agent_framework.Engine.Superstep.{Saved, LoopState}
use rust_agent_framework.Engine.Loop.{Pass, again, completed, failed}

pub unwrapped : (n : ℕ) → n + 1 < 2 ^ 31 → (n + 1) % 2 ^ 32 ≡ n + 1
unwrapped n small = omega arith

module _ {C V : Type 0} where
  -- Every checkpoint of the list bears a number of at most `n`.
  abbrev pub UpTo : ℕ → List (Saved C V) → Type 0
  UpTo n saved = All (λ c. c.step_number ≤ n) saved

  -- The numbers never fall from one checkpoint to a later one.
  abbrev pub Ascending : List (Saved C V) → Type 0
  Ascending [] = Unit
  Ascending (c ∷ cs) = All (λ d. c.step_number ≤ d.step_number) cs × Ascending cs

  pub All-le : (n m : ℕ) (saved : List (Saved C V)) → n ≤ m → UpTo n saved → UpTo m saved
  All-le n m [] le h = tt
  All-le n m (c ∷ cs) le h = (omega (arith, h.0), All-le n m cs le h.1)

  Ascending-snoc :
      (saved : List (Saved C V)) (c : Saved C V)
      → Ascending saved
      → UpTo c.step_number saved
      → Ascending (saved ++ c ∷ [])
  Ascending-snoc [] c h up = (tt, tt)
  Ascending-snoc (d ∷ ds) c h up = (
    All-append (λ e. d.step_number ≤ e.step_number) ds (c ∷ []) h.0 (up.0, tt),
    Ascending-snoc ds c h.1 up.1,
  )

module _ {C V W : Type 0} where
  -- The checkpoints are in order up to the count of steps, and that is at most `n`.
  abbrev pub IsCounted : ℕ → LoopState C V W → Type 0
  IsCounted n st = UpTo st.total_steps st.saved × Ascending st.saved × (st.total_steps ≤ n)

  -- At the head of the loop: as many steps as the number of the next one.
  abbrev pub IsNumbered : ℕ → LoopState C V W → Type 0
  IsNumbered n st = (st.total_steps ≡ st.step_ctx.step_number) × IsCounted n st

  -- At the end of the loop, after at most `n` passes.
  abbrev pub IsEnded : ℕ → Result (Unit {0}) × LoopState C V W → Type 0
  IsEnded n (ok _, st) = IsNumbered n st
  IsEnded n (err e, st) = IsCounted n st

  abbrev pub PassNumbered : ℕ → Pass C V W → Type 0
  PassNumbered n (again st commands) = IsNumbered n st
  PassNumbered n (completed st) = IsNumbered n st
  PassNumbered n (failed e st) = IsCounted n st

  pub IsNumbered-le : (n m : ℕ) (st : LoopState C V W) → n ≤ m → IsNumbered n st → IsNumbered m st
  IsNumbered-le n m st le (same, (up, ascending, few)) = (same, (up, ascending, omega arith))

  pub IsEnded-le :
      (n m : ℕ) (end : Result (Unit {0}) × LoopState C V W) → n ≤ m → IsEnded n end → IsEnded m end
  IsEnded-le n m (ok u, st) le h = IsNumbered-le n m st le h
  IsEnded-le n m (err e, st) le (up, ascending, few) = (up, ascending, omega arith)

  pub save-IsNumbered :
      (n : ℕ) (st : LoopState C V W) (c : Saved C V)
      → c.step_number ≡ st.step_ctx.step_number
      → IsNumbered n st
      → UpTo st.total_steps (st.saved ++ c ∷ []) × Ascending (st.saved ++ c ∷ [])
  save-IsNumbered n st c e (counted, (up, ascending, few)) = (
    All-append (λ d. d.step_number ≤ st.total_steps) st.saved (c ∷ []) up (omega arith, tt),
    Ascending-snoc st.saved c ascending
        (All-le st.total_steps c.step_number st.saved (omega arith) up),
  )
