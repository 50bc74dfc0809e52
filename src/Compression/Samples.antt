-- ===== src/Compression/Samples.antt =====
-- A short history with a tool call, counted by its messages.
use rust_agent_framework.Common.{
  ℕ, ◌/◌, String, List, [], ◌∷◌, none, some, length, ok, ◌≡◌, ◌<◌, ◌≤◌, refl,
}
use rust_agent_framework.Compression.{
  MessageRole, system, user, assistant, tool, ChatMessage, slide, fit, summary, evict_tool_results,
  Strategy, sliding_window, token_budget, pipeline,
}
use rust_agent_framework.Compression.System.{
  IsShortened, window, tokens, no_strategy, chain, built_in-IsShortened,
}
use rust_agent_framework.Compression.Budget.{IsFitted, fit-IsFitted}

abbrev say : MessageRole → String → ChatMessage String String
say role content = record {
  role = role;
  content = content;
  name = none;
  tool_calls = none;
  tool_call_id = none;
  source = none;
}

abbrev ask : ChatMessage String String
ask = record {
  role = assistant;
  content = "";
  name = none;
  tool_calls = some ("search" ∷ []);
  tool_call_id = none;
  source = none;
}

abbrev history : List (ChatMessage String String)
history = say user "hello" ∷ say system "be brief" ∷ ask ∷ say tool "found" ∷ say user "thanks" ∷ []

abbrev half : ℕ → ℕ
half budget = budget / 2

window_keeps : slide 2 history ≡ say system "be brief" ∷ say tool "found" ∷ say user "thanks" ∷ []
unfolding slide
window_keeps = refl

fit_folds : fit length half 3 history ≡ say system "be brief" ∷ summary 1 ∷ say user "thanks" ∷ []
unfolding fit
fit_folds = refl

-- A call that no result follows is folded as if it were completed.
pending_call_folded : evict_tool_results (ask ∷ []) ≡ summary 1 ∷ []
unfolding evict_tool_results
pending_call_folded = refl

fit-IsFitted_example :
    (length history ≤ 3 → fit length half 3 history ≡ history)
    × (3 < length history → IsFitted length half 3 history (fit length half 3 history))
fit-IsFitted_example = fit-IsFitted length half 3 history

abbrev chained : Strategy {T = String} {S = String} length
chained = pipeline length (sliding_window length 3 ∷ token_budget length half ∷ [])

built_in-IsShortened_example :
    (result : List (ChatMessage String String)) × (chained 2 history ≡ ok result)
    × IsShortened history result
built_in-IsShortened_example =
    built_in-IsShortened length (chain _ _ (window 3) (chain _ _ (tokens half) no_strategy)) 2
      history
