-- ===== src/Retry/Attempts.antt =====
-- The retry loop of `execute_node_messages` (crates/workflow/src/engine/engine.rs) against a
-- description of its runs.
use rust_agent_framework.Common.{
  ℕ, zero, suc, ◌+◌, ◌≤◌, ◌<◌, String, true, false, Option, ◌≡◌, ◌∙◌, refl, ◌⊎◌, inl, inr, arith,
  AgentError, display, Result, ok, err, Bool-cases,
}
use rust_agent_framework.Retry.{
  RetryOptions, NodeRun, Trace, exhausted_result, should_retry, retry_loop, execute_node_messages,
  options_or_none,
}

module _ {S C : Type 0} (error_message : AgentError → C) (once : S → Result (NodeRun C) × S) where
  -- The `i`-th run from 0, when the ones before it have been made.
  abbrev pub run_at : ℕ → S → Result (NodeRun C) × S
  run_at zero s = once s
  run_at (suc i) s = run_at i (once s).1

  abbrev pub Retryable : RetryOptions → Result (NodeRun C) → Type 0
  Retryable config (ok run) = ⊥
  Retryable config (err e) = should_retry config.retry_on (display e) ≡ true

  -- The last run, number `n`, decides the result; `left` is how many retries there were.
  abbrev pub Decides :
      RetryOptions → String → (left n : ℕ) → Result (NodeRun C) → Result (NodeRun C) → Type 0
  Decides config label left n (ok run) result = result ≡ ok run
  Decides config label left n (err e) result =
      ((n ≡ left) ⊎ (should_retry config.retry_on (display e) ≡ false))
      × (result ≡ exhausted_result error_message config.on_exhausted label e)

  pub record IsTrace (config : RetryOptions) (label : String) (left : ℕ) (s : S) (t : Trace S C)
      : Type 0 where
    pub last : ℕ
    pub counted : t.attempts ≡ last + 1
    pub bounded : last ≤ left
    pub retried : (i : ℕ) → i < last → Retryable config (run_at i s).0
    pub state_after : t.state ≡ (run_at last s).1
    pub decided : Decides config label left last (run_at last s).0 t.result

  stop-IsTrace :
      (config : RetryOptions) (label : String) (left : ℕ) (s : S) (t : Trace S C)
      → t.attempts ≡ 1
      → t.state ≡ (once s).1
      → Decides config label left 0 (once s).0 t.result
      → IsTrace config label left s t
  stop-IsTrace config label left s t a st d = record {
    last = 0;
    counted = omega arith;
    bounded = omega arith;
    retried = λ i h. absurd (omega arith);
    state_after = st;
    decided = d;
  }

  Decides-suc :
      (config : RetryOptions) (label : String) (left n : ℕ) (r result : Result (NodeRun C))
      → Decides config label left n r result
      → Decides config label (suc left) (suc n) r result
  Decides-suc config label left n (ok run) result d = d
  Decides-suc config label left n (err e) result d =
      (elim d.0 [ inl p ↦ inl (omega arith) | inr q ↦ inr q ], d.1)

  again-IsTrace :
      (config : RetryOptions) (label : String) (left : ℕ) (s : S) (rest t : Trace S C)
      → Retryable config (once s).0
      → IsTrace config label left (once s).1 rest
      → t.attempts ≡ rest.attempts + 1
      → t.state ≡ rest.state
      → t.result ≡ rest.result
      → IsTrace config label (suc left) s t
  again-IsTrace config label left s rest t retry h a st r = record {
    last = suc h.last;
    counted = omega (arith, h.counted);
    bounded = omega (arith, h.bounded);
    retried = λ i below. retried_at i below;
    state_after = st ∙ h.state_after;
    decided = rw r (Decides-suc config label left h.last _ rest.result h.decided);
  }
    where
      retried_at : (i : ℕ) → i < suc h.last → Retryable config (run_at i s).0
      retried_at zero below = retry
      retried_at (suc i) below = h.retried i (omega arith)

  retry_loop-IsTrace :
      (config : RetryOptions) (label : String) (left attempt : ℕ) (s : S)
      → IsTrace config label left s (retry_loop error_message once config label left attempt s)
  unfolding retry_loop
  retry_loop-IsTrace config label zero attempt s = go (once s).0 refl
    where
      go :
          (r : Result (NodeRun C))
          → (once s).0 ≡ r
          → IsTrace config label zero s (retry_loop error_message once config label zero attempt s)
      go (ok run) e =
          stop-IsTrace config label zero s _ (ground arith) (ground arith) (rw (e, retry_loop) refl)
      go (err x) e =
          stop-IsTrace config label zero s _ (ground arith) (ground arith)
            (rw (e, retry_loop) (inl refl, refl))
  retry_loop-IsTrace config label (suc left) attempt s =
      go (once s).0 refl (retry_loop-IsTrace config label left (attempt + 1) (once s).1)
    where
      go :
          (r : Result (NodeRun C))
          → (once s).0 ≡ r
          → IsTrace config label left
              (once s).1
              (retry_loop error_message once config label left (attempt + 1) (once s).1)
          → IsTrace config label
              (suc left)
              s
              (retry_loop error_message once config label (suc left) attempt s)
      go (ok run) e h =
          stop-IsTrace config label (suc left) s _ (ground arith) (ground arith)
            (rw (e, retry_loop) refl)
      go (err x) e h = elim (Bool-cases (should_retry config.retry_on (display x))) [
        | inl again ↦
            again-IsTrace config label left s _ _ (rw e again) h (ground arith) (ground arith)
              (ground arith)
        | inr never ↦
            stop-IsTrace config label (suc left) s _ (ground arith) (ground arith)
              (rw (e, retry_loop) (inr never, ground arith))
      ]

  -- The runs of `execute_node_messages`: at most `max_retries + 1` of them, each but the last a
  -- failure that the options retry. The last run is a success, which is the result, or a failure
  -- that no retry is left for or that is not to be retried, and then the result is the one of the
  -- exhausted action. The state is that after the last run.
  pub execute_node_messages-IsTrace :
      (options : Option RetryOptions) (label : String) (s : S)
      → IsTrace
          (options_or_none options)
          label
          (options_or_none options).max_retries
          s
          (execute_node_messages error_message once options label s)
  unfolding execute_node_messages
  execute_node_messages-IsTrace options label s =
      retry_loop-IsTrace (options_or_none options) label (options_or_none options).max_retries 0 s
