-- ===== src/Compression.antt =====
-- crates/framework/src/compression: strategies that shorten a history (sliding_window.rs,
-- token_budget.rs) and their chain (pipeline.rs), with ChatMessage of
-- crates/core/src/message.rs. The token counter is a parameter, and so is the share of the budget
-- above which tool results are folded, a product of floats in the source.
pub mod Folding
pub mod System
pub mod Budget
mod Samples
pub mod Truncation
use Prim.Native.String.{◌++◌ as text_append}
use rust_agent_framework.Common.{
  ℕ, zero, suc, ◌-◌, String, Bool, true, false, not, ◌&&◌, Option, none, some, List, [], ◌∷◌, ◌++◌,
  if◌then◌else◌, ltb, leb, length, drop, Result, ok, ◌>>=◌,
}
use rust_agent_framework.Builder.{decimal}

pub data MessageRole : Type 0 where
  system user assistant tool : MessageRole

-- `T` is `ToolCall` and `S` is `MessageSource`.
pub record ChatMessage (T S : Type 0) : Type 0 where
  pub role : MessageRole
  pub content : String
  pub name : Option String
  pub tool_calls : Option (List T)
  pub tool_call_id : Option String
  pub source : Option S

abbrev pub is_system : MessageRole → Bool
is_system system = true
is_system _ = false

abbrev pub is_tool : MessageRole → Bool
is_tool tool = true
is_tool _ = false

abbrev pub is_assistant : MessageRole → Bool
is_assistant assistant = true
is_assistant _ = false

module _ {T S : Type 0} where
  -- `ChatMessage::assistant`
  abbrev pub assistant_message : String → ChatMessage T S
  assistant_message content = record {
    role = assistant;
    content = content;
    name = none;
    tool_calls = none;
    tool_call_id = none;
    source = none;
  }

  -- The loop that parts the system messages from the others.
  unfoldable pub separate :
      List (ChatMessage T S)
      → List (ChatMessage T S)
      → List (ChatMessage T S)
      → List (ChatMessage T S) × List (ChatMessage T S)
  separate system_msgs other_msgs [] = (system_msgs, other_msgs)
  separate system_msgs other_msgs (m ∷ messages) =
      separate (if is_system m.role then system_msgs ++ m ∷ [] else system_msgs)
        (if is_system m.role then other_msgs else other_msgs ++ m ∷ []) messages

  -- `SlidingWindowStrategy::compress`; `max_messages` is the field of the strategy.
  unfoldable pub slide : ℕ → List (ChatMessage T S) → List (ChatMessage T S)
  unfolding separate
  slide max_messages messages =
      let (system_msgs, other_msgs) = separate [] [] messages in
      if leb (length other_msgs) max_messages
      then system_msgs ++ other_msgs
      else system_msgs ++ drop (length other_msgs - max_messages) other_msgs

  -- The number of tool calls of an assistant's message, none of another's.
  abbrev pub call_count : ChatMessage T S → ℕ
  call_count m =
      if is_assistant m.role
      then (elim m.tool_calls [ none ↦ 0 | some calls ↦ length calls ])
      else 0

  -- The loop over `j`: at most as many results as there are calls.
  unfoldable pub skip_results : ℕ → List (ChatMessage T S) → List (ChatMessage T S)
  skip_results zero messages = messages
  skip_results (suc n) [] = []
  skip_results (suc n) (m ∷ messages) =
      if is_tool m.role then skip_results n messages else m ∷ messages

  abbrev pub summary : ℕ → ChatMessage T S
  summary count = assistant_message (
      text_append (text_append "[Earlier tool calls: " (decimal count))
        " call(s) were made and completed]")

  -- The loop over `i` of `evict_tool_results`. Each round takes a message at least.
  unfoldable pub evict_loop : ℕ → List (ChatMessage T S) → List (ChatMessage T S)
  unfolding skip_results
  evict_loop zero messages = []
  evict_loop (suc fuel) [] = []
  evict_loop (suc fuel) (m ∷ messages) = elim (call_count m) [
    | zero ↦ m ∷ evict_loop fuel messages
    | suc n ↦ summary (suc n) ∷ evict_loop fuel (skip_results (suc n) messages)
  ]

  unfoldable pub evict_tool_results : List (ChatMessage T S) → List (ChatMessage T S)
  unfolding evict_loop
  evict_tool_results messages = evict_loop (length messages) messages

module _ {T S : Type 0} (count_tokens : List (ChatMessage T S) → ℕ) where
  -- `while count > budget && other_msgs.len() > 1 { other_msgs.remove(0); .. }`
  unfoldable pub truncate :
      ℕ → List (ChatMessage T S) → List (ChatMessage T S) → List (ChatMessage T S)
  truncate budget system_msgs [] = system_msgs
  truncate budget system_msgs (m ∷ other_msgs) =
      let rest = truncate budget system_msgs other_msgs in
      if ltb budget (count_tokens (system_msgs ++ m ∷ other_msgs))
        && ltb 1 (length (m ∷ other_msgs))
      then rest
      else system_msgs ++ m ∷ other_msgs

  -- `TokenBudgetStrategy::compress`; `share` is `(budget as f64 * threshold) as usize`.
  unfoldable pub fit : (ℕ → ℕ) → ℕ → List (ChatMessage T S) → List (ChatMessage T S)
  unfolding separate evict_tool_results truncate
  fit share budget messages =
      let (system_msgs, other_msgs) = separate [] [] messages in
      if leb (count_tokens messages) budget
      then messages
      else truncate budget system_msgs (
          if ltb (share budget) (count_tokens messages)
          then evict_tool_results other_msgs
          else other_msgs)

  -- `ICompressionStrategy`: a strategy gets the budget and the messages.
  abbrev pub Strategy : Type 0
  Strategy = ℕ → List (ChatMessage T S) → Result (List (ChatMessage T S))

  abbrev pub sliding_window : ℕ → Strategy
  sliding_window max_messages budget messages = ok (slide max_messages messages)

  abbrev pub token_budget : (ℕ → ℕ) → Strategy
  token_budget share budget messages = ok (fit share budget messages)

  -- `CompressionPipeline::compress`
  unfoldable pub pipeline : List Strategy → Strategy
  pipeline [] budget messages = ok messages
  pipeline (strategy ∷ strategies) budget messages =
      let rest = strategy budget messages >>= pipeline strategies budget in
      if leb (count_tokens messages) budget then ok messages else rest
