-- ===== src/Retry/Samples.antt =====
-- Small inputs for the retry loop, and what it does on them.
use rust_agent_framework.Common.{
  ℕ, zero, suc, String, some, [], ◌∷◌, ◌≡◌, refl, Bool, AgentError, display, tool_error, Result, ok,
  err,
}
use rust_agent_framework.Retry.{
  RetryOptions, fallback_node, NodeRun, default_options, execute_node_messages, node_retry,
  all_errors, no_wait,
}
use rust_agent_framework.Retry.Attempts.{IsTrace, execute_node_messages-IsTrace}

abbrev tell : AgentError → String
tell e = display e

-- Fails twice, and then hands on one message.
abbrev flaky : ℕ → Result (NodeRun String) × ℕ
flaky zero = (err (tool_error "timeout"), 1)
flaky (suc zero) = (err (tool_error "timeout"), 2)
flaky (suc (suc n)) = (
  ok (record { source = "worker"; produced = "done" ∷ []; any_output = Bool.false }),
  suc (suc (suc n)),
)

abbrev impatient : RetryOptions
impatient = record {
  max_retries = 1;
  backoff = no_wait;
  retry_on = all_errors;
  on_exhausted = fallback_node "rescue";
}

flaky_recovers : execute_node_messages tell flaky (some default_options) "worker" 0 ≡ record {
  state = 3;
  attempts = 3;
  notices = node_retry 1 1_000_000_000 ∷ node_retry 2 2_000_000_000 ∷ [];
  result = ok (record { source = "worker"; produced = "done" ∷ []; any_output = Bool.false });
}
unfolding execute_node_messages
flaky_recovers = refl

flaky_falls_back :
    (execute_node_messages tell flaky (some impatient) "worker" 0).result
    ≡ ok (record {
      source = "rescue";
      produced = "Tool execution error: timeout" ∷ [];
      any_output = Bool.false;
    })
unfolding execute_node_messages
flaky_falls_back = refl

execute_node_messages-IsTrace_example :
    IsTrace tell flaky default_options "worker" 3 0
      (execute_node_messages tell flaky (some default_options) "worker" 0)
execute_node_messages-IsTrace_example =
    execute_node_messages-IsTrace tell flaky (some default_options) "worker" 0
