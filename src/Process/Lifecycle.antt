-- ===== src/Process/Lifecycle.antt =====
-- The states of a process as an automaton (crates/workflow-pro/src/process/instance.rs).
use rust_agent_framework.Common.{
  ℕ, String, List, [], ◌∷◌, ◌≡◌, ◌⊎◌, inl, inr, refl, arith, subst, sym, ◌∙◌, ok, err, AgentError,
}
use rust_agent_framework.Process.{
  ProcessState, created, running, suspended, completed, terminated, failed, ProcessInstance,
  Outcome, start, suspend, resume, complete, terminate, fail, set_variable,
}

-- Everything that changes a process.
pub data Operation (V : Type 0) : Type 0 where
  starting suspending resuming completing terminating failing : Operation V
  setting : String → V → Operation V

-- The moves that the states allow.
pub data Allowed (V : Type 0) : ProcessState → Operation V → ProcessState → Type 0 where
  begin : Allowed V created starting running
  again : Allowed V suspended starting running
  pause : Allowed V running suspending suspended
  go_on : Allowed V suspended resuming running
  finish : Allowed V running completing completed
  stop_created : Allowed V created terminating terminated
  stop_running : Allowed V running terminating terminated
  stop_suspended : Allowed V suspended terminating terminated
  fail_created : Allowed V created failing failed
  fail_running : Allowed V running failing failed
  fail_suspended : Allowed V suspended failing failed

abbrev pub IsFinished : ProcessState → Type 0
IsFinished completed = Unit
IsFinished terminated = Unit
IsFinished failed = Unit
IsFinished _ = ⊥

module _ {V : Type 0} where
  abbrev pub operate : Operation V → ℕ → ProcessInstance V → Outcome V
  operate starting now p = start now p
  operate suspending now p = suspend now p
  operate resuming now p = resume now p
  operate completing now p = complete now p
  operate terminating now p = terminate now p
  operate failing now p = fail now p
  operate (setting name value) now p = (ok tt, set_variable name value p)

  -- How an operation on the state ends: a move that is allowed, or an error that changes nothing
  -- where no move is.
  abbrev pub Ends : Operation V → ℕ → ProcessInstance V → Type 0
  Ends op now p =
      ((s : ProcessState) × Allowed V p.state op s
        × (operate op now p ≡ (ok tt, record p { state = s; updated_at = now })))
      ⊎ (((s : ProcessState) → Allowed V p.state op s → ⊥)
          × (e : AgentError) × (operate op now p ≡ (err e, p)))

  start-Ends :
      (s : ProcessState) (now : ℕ) (p : ProcessInstance V)
      → Ends starting now (record p { state = s })
  unfolding start
  start-Ends created now p = inl (_, begin, refl)
  start-Ends running now p = inr (λ s a. elim a [ ], _, refl)
  start-Ends suspended now p = inl (_, again, refl)
  start-Ends completed now p = inr (λ s a. elim a [ ], _, refl)
  start-Ends terminated now p = inr (λ s a. elim a [ ], _, refl)
  start-Ends failed now p = inr (λ s a. elim a [ ], _, refl)

  suspend-Ends :
      (s : ProcessState) (now : ℕ) (p : ProcessInstance V)
      → Ends suspending now (record p { state = s })
  unfolding suspend
  suspend-Ends created now p = inr (λ s a. elim a [ ], _, refl)
  suspend-Ends running now p = inl (_, pause, refl)
  suspend-Ends suspended now p = inr (λ s a. elim a [ ], _, refl)
  suspend-Ends completed now p = inr (λ s a. elim a [ ], _, refl)
  suspend-Ends terminated now p = inr (λ s a. elim a [ ], _, refl)
  suspend-Ends failed now p = inr (λ s a. elim a [ ], _, refl)

  resume-Ends :
      (s : ProcessState) (now : ℕ) (p : ProcessInstance V)
      → Ends resuming now (record p { state = s })
  unfolding resume
  resume-Ends created now p = inr (λ s a. elim a [ ], _, refl)
  resume-Ends running now p = inr (λ s a. elim a [ ], _, refl)
  resume-Ends suspended now p = inl (_, go_on, refl)
  resume-Ends completed now p = inr (λ s a. elim a [ ], _, refl)
  resume-Ends terminated now p = inr (λ s a. elim a [ ], _, refl)
  resume-Ends failed now p = inr (λ s a. elim a [ ], _, refl)

  complete-Ends :
      (s : ProcessState) (now : ℕ) (p : ProcessInstance V)
      → Ends completing now (record p { state = s })
  unfolding complete
  complete-Ends created now p = inr (λ s a. elim a [ ], _, refl)
  complete-Ends running now p = inl (_, finish, refl)
  complete-Ends suspended now p = inr (λ s a. elim a [ ], _, refl)
  complete-Ends completed now p = inr (λ s a. elim a [ ], _, refl)
  complete-Ends terminated now p = inr (λ s a. elim a [ ], _, refl)
  complete-Ends failed now p = inr (λ s a. elim a [ ], _, refl)

  terminate-Ends :
      (s : ProcessState) (now : ℕ) (p : ProcessInstance V)
      → Ends terminating now (record p { state = s })
  unfolding terminate
  terminate-Ends created now p = inl (_, stop_created, refl)
  terminate-Ends running now p = inl (_, stop_running, refl)
  terminate-Ends suspended now p = inl (_, stop_suspended, refl)
  terminate-Ends completed now p = inr (λ s a. elim a [ ], _, refl)
  terminate-Ends terminated now p = inr (λ s a. elim a [ ], _, refl)
  terminate-Ends failed now p = inr (λ s a. elim a [ ], _, refl)

  fail-Ends :
      (s : ProcessState) (now : ℕ) (p : ProcessInstance V)
      → Ends failing now (record p { state = s })
  unfolding fail
  fail-Ends created now p = inl (_, fail_created, refl)
  fail-Ends running now p = inl (_, fail_running, refl)
  fail-Ends suspended now p = inl (_, fail_suspended, refl)
  fail-Ends completed now p = inr (λ s a. elim a [ ], _, refl)
  fail-Ends terminated now p = inr (λ s a. elim a [ ], _, refl)
  fail-Ends failed now p = inr (λ s a. elim a [ ], _, refl)

  abbrev pub IsMove : Operation V → Type 0
  IsMove (setting name value) = ⊥
  IsMove _ = Unit

  -- The operations on the state of a process are those of the automaton: where it allows a move the
  -- operation makes that move, notes the time and changes nothing else; where it allows none the
  -- operation returns an error and changes nothing.
  pub operate-Ends :
      (op : Operation V) (now : ℕ) (p : ProcessInstance V) → IsMove op → Ends op now p
  operate-Ends starting now p m = start-Ends p.state now p
  operate-Ends suspending now p m = suspend-Ends p.state now p
  operate-Ends resuming now p m = resume-Ends p.state now p
  operate-Ends completing now p m = complete-Ends p.state now p
  operate-Ends terminating now p m = terminate-Ends p.state now p
  operate-Ends failing now p m = fail-Ends p.state now p
  operate-Ends (setting name value) now p m = elim m [ ]

  -- A history: operations with their times.
  abbrev pub history : List (Operation V × ℕ) → ProcessInstance V → ProcessInstance V
  history [] p = p
  history ((op, now) ∷ ops) p = history ops (operate op now p).1

  stays :
      (op : Operation V) (now : ℕ) (p : ProcessInstance V)
      → IsFinished p.state
      → (operate op now p).1.state ≡ p.state
  unfolding start suspend resume complete terminate fail
  stays op now p h = ground arith

  -- A process that is completed, terminated or failed stays so, whatever is done with it.
  pub history-finished :
      (ops : List (Operation V × ℕ)) (p : ProcessInstance V)
      → IsFinished p.state
      → (history ops p).state ≡ p.state
  history-finished [] p h = refl
  history-finished ((op, now) ∷ ops) p h =
      let same = stays op now p h in
      history-finished ops (operate op now p).1 (subst IsFinished (sym same) h) ∙ same
