-- ===== src/Retry.antt =====
-- crates/workflow/src/engine/retry.rs, and the retry loop of `execute_node_messages` in
-- crates/workflow/src/engine/engine.rs. A `Duration` is its number of nanoseconds; `u64`
-- arithmetic is written with its wrap-around (the release profile does not check overflow).
pub mod Delay
pub mod Attempts
mod Samples
use rust_agent_framework.Common.{
  ℕ, zero, suc, ◌+◌, ◌-◌, ◌*◌, ◌/◌, ◌%◌, ◌^◌, min, String, Bool, true, false, ◌&&◌, Option, none,
  some, List, [], ◌∷◌, ltb, if◌then◌else◌, AgentError, display, Result, ok, err,
}
use text.Mathlib.Text.{find?}
use rust_agent_framework.Common.{is_some}

pub data RetryBackoff : Type 0 where
  no_wait : RetryBackoff
  fixed : ℕ → RetryBackoff
  exponential : (base max : ℕ) → RetryBackoff

pub data RetryCondition : Type 0 where
  all_errors : RetryCondition
  contains : String → RetryCondition

pub data ExhaustedAction : Type 0 where
  fail skip : ExhaustedAction
  fallback_node : String → ExhaustedAction

pub record RetryOptions : Type 0 where
  pub max_retries : ℕ  -- u32
  pub backoff : RetryBackoff
  pub retry_on : RetryCondition
  pub on_exhausted : ExhaustedAction

abbrev pub u64_mod : ℕ
u64_mod = 2 ^ 64

abbrev pub nanos_per_milli : ℕ
nanos_per_milli = 1_000_000

-- `impl Default for RetryOptions`
abbrev pub default_options : RetryOptions
default_options = record {
  max_retries = 3;
  backoff = exponential 1_000_000_000 60_000_000_000;
  retry_on = all_errors;
  on_exhausted = fail;
}

-- `retry_config.unwrap_or(..)`: a node with no options of its own is not retried.
abbrev pub options_or_none : Option RetryOptions → RetryOptions
options_or_none none = record default_options { max_retries = 0 }
options_or_none (some config) = config

-- `as_millis() as u64`
abbrev pub millis : ℕ → ℕ
millis d = d / nanos_per_milli % u64_mod

-- `2u64.saturating_pow(attempt)`
abbrev pub saturating_pow2 : ℕ → ℕ
saturating_pow2 attempt = min (2 ^ attempt) (u64_mod - 1)

-- `RetryBackoff::delay`
unfoldable pub delay : RetryBackoff → ℕ → ℕ
delay no_wait attempt = 0
delay (fixed d) attempt = d
delay (exponential base max) attempt =
    let d = millis base * saturating_pow2 attempt % u64_mod in min d (millis max) * nanos_per_milli

-- `RetryCondition::should_retry`
unfoldable pub should_retry : RetryCondition → String → Bool
should_retry all_errors error = true
should_retry (contains substr) error = is_some (find? error substr)

-- What one run of a node hands to the router: the label under which its messages are routed, the
-- messages, and whether an output was yielded.
pub record NodeRun (C : Type 0) : Type 0 where
  pub source : String
  pub produced : List C
  pub any_output : Bool

-- What the retry loop of `execute_node_messages` tells the outside: one entry for each retry with
-- the attempt (from 1) and the delay slept, then the event that ends the loop.
pub data Notice : Type 0 where
  node_retry : (attempt delay : ℕ) → Notice
  node_failed node_skipped : Notice

pub record Trace (S C : Type 0) : Type 0 where
  pub state : S
  pub attempts : ℕ
  pub notices : List Notice
  pub result : Result (NodeRun C)

abbrev pub exhausted_notices : ExhaustedAction → List Notice
exhausted_notices fail = node_failed ∷ []
exhausted_notices skip = node_skipped ∷ []
exhausted_notices (fallback_node id) = []

-- The `match &config.on_exhausted` at the end of the loop: its result and its event.
module _ {C : Type 0} (error_message : AgentError → C) where
  abbrev pub exhausted_result : ExhaustedAction → String → AgentError → Result (NodeRun C)
  exhausted_result fail label e = err e
  exhausted_result skip label e = ok (record { source = label; produced = []; any_output = false })
  exhausted_result (fallback_node id) label e =
      ok (record { source = id; produced = error_message e ∷ []; any_output = false })

module _ {S C : Type 0} (error_message : AgentError → C) (once : S → Result (NodeRun C) × S) where
  abbrev pub exhausted : RetryOptions → String → AgentError → S → Trace S C
  exhausted config label e s = record {
    state = s;
    attempts = 1;
    notices = exhausted_notices config.on_exhausted;
    result = exhausted_result error_message config.on_exhausted label e;
  }

  -- The loop, by recursion on the retries that are left: `attempt + left` is `max_retries`.
  -- `attempts` counts the runs of `execute_node_messages_once`.
  unfoldable pub retry_loop : RetryOptions → String → (left attempt : ℕ) → S → Trace S C
  unfolding should_retry delay
  retry_loop config label zero attempt s =
      let (r, s') = once s in
      elim r [
        | ok run ↦ record { state = s'; attempts = 1; notices = []; result = ok run }
        | err e ↦ exhausted config label e s'
      ]
  retry_loop config label (suc left) attempt s =
      let (r, s') = once s in
      elim r [
        | ok run ↦ record { state = s'; attempts = 1; notices = []; result = ok run }
        | err e ↦
            let rest = retry_loop config label left (attempt + 1) s' in
            if should_retry config.retry_on (display e)
            then record rest {
              attempts = rest.attempts + 1;
              notices = node_retry (attempt + 1) (delay config.backoff attempt) ∷ rest.notices;
            }
            else exhausted config label e s'
      ]

  -- `execute_node_messages`.
  unfoldable pub execute_node_messages : Option RetryOptions → String → S → Trace S C
  unfolding retry_loop
  execute_node_messages options label s =
      let config = options_or_none options in retry_loop config label config.max_retries 0 s
