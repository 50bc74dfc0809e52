-- ===== src/Chat.antt =====
-- The group chat of crates/workflow/src/orchestrations/group_chat.rs: who speaks next, when it ends,
-- and the task that holds the conversation. An agent is a function of the history and the world,
-- which holds the counters; what it streams is a list of results. The receiver reads to the end.
pub mod Rounds
pub mod Silence
mod Samples
use Prim.Native.Char.{code}
use Prim.Native.String.{◌++◌ as text_append}
use rust_agent_framework.Common.{
  ℕ, zero, suc, ◌+◌, ◌-◌, ◌%◌, ◌^◌, min, String, Bool, true, false, ◌&&◌, Option, none, some, List,
  [], ◌∷◌, ◌++◌, if◌then◌else◌, ltb, leb, nat_eq, ◌==◌, length as list_length, keep, any, get_elem?,
  AgentError, workflow_error, Result, ok, err,
}
use rust_agent_framework.Condition.{has_text}
use rust_agent_framework.Compression.{ChatMessage, is_assistant, assistant_message}
use rust_agent_framework.Trigger.{Cell}

-- `Content`, of which only a text is read here. `X` is what is not: other contents, and events.
pub data Content (X : Type 0) : Type 0 where
  text : String → Content X
  other_content : X → Content X

pub data FinishReason : Type 0 where
  stop length tool_calls content_filter awaiting_approval max_rounds_stop : FinishReason
  other_reason : String → FinishReason

-- `AgentResponseResult`
pub record Response (X : Type 0) : Type 0 where
  pub id : Option String
  pub model : Option String
  pub finish_reason : Option FinishReason
  pub contents : List (Content X)
  pub events : List X

pub record Agent (T S X W : Type 0) : Type 0 where
  pub id : String
  pub run : List (ChatMessage T S) → W → Result (List (Result (Response X))) × W

module _ {T S : Type 0} where
  abbrev pub is_said : ChatMessage T S → Bool
  is_said m = is_assistant m.role

  abbrev pub said_count : List (ChatMessage T S) → ℕ
  said_count history = list_length (keep is_said history)

  -- `MaxRoundsTermination::should_terminate`
  abbrev pub max_rounds_reached : ℕ → List (ChatMessage T S) → Bool
  max_rounds_reached max_rounds history = leb max_rounds (said_count history)

  -- `KeywordTermination::should_terminate`; `to_lowercase` is Unicode's table.
  unfoldable pub keyword_said : (String → String) → List String → List (ChatMessage T S) → Bool
  keyword_said to_lowercase keywords history =
      any
        (λ m. is_said m && any (λ kw. has_text (to_lowercase m.content) (to_lowercase kw)) keywords)
        history

-- `RoundRobinSelector::select_next` for `count` participants; its counter is a cell.
unfoldable pub round_robin : {W : Type 0} → Cell W ℕ → (count : ℕ) → W → Result ℕ × W
round_robin counter zero w = (err (workflow_error "No participants available"), w)
round_robin counter (suc n) w =
    (ok (counter.read w % suc n), counter.write ((counter.read w + 1) % 2 ^ 64) w)

-- `FixedOrderSelector::select_next`
abbrev pub or_zero : Option ℕ → ℕ
or_zero none = 0
or_zero (some i) = i

unfoldable pub fixed_order : {W : Type 0} → List ℕ → Cell W ℕ → (count : ℕ) → W → Result ℕ × W
fixed_order order counter zero w = (err (workflow_error "No participants"), w)
fixed_order [] counter (suc n) w = (ok 0, w)
fixed_order (i ∷ order) counter (suc n) w = (
  ok (min (or_zero (get_elem? (i ∷ order) (counter.read w % suc (list_length order)))) n),
  counter.write ((counter.read w + 1) % 2 ^ 64) w,
)

module _ {X : Type 0} where
  -- The text that the contents of a response add to a turn.
  unfoldable pub add_texts : List (Content X) → String → String
  add_texts [] said = said
  add_texts (text delta ∷ contents) said = add_texts contents (text_append said delta)
  add_texts (other_content x ∷ contents) said = add_texts contents said

  abbrev pub stop_response : Response X
  stop_response = record {
    id = none;
    model = none;
    finish_reason = some stop;
    contents = [];
    events = [];
  }

  -- The loop over a stream: what was sent on, and the text, or none where an error ended the chat.
  unfoldable pub read_turn :
      String
      → List (Result (Response X))
      → String
      → List (Result (Response X))
      → Option String × List (Result (Response X))
  unfolding add_texts
  read_turn agent_id [] said sent = (some said, sent)
  read_turn agent_id (ok result ∷ stream) said sent =
      read_turn agent_id stream (add_texts result.contents said)
        (sent ++ ok (record result { id = some agent_id }) ∷ [])
  read_turn agent_id (err e ∷ stream) said sent = (none, sent ++ err e ∷ [])

-- How the task ends: with a stop, with an error that it sent, or by a panic at an index that is out
-- of range.
pub data Ending : Type 0 where
  stopped failed panicked : Ending

pub record Chat (T S X W : Type 0) : Type 0 where
  pub ending : Ending
  pub history : List (ChatMessage T S)
  pub sent : List (Result (Response X))
  pub world : W

-- The turn of one participant: the chat's end, or what was said and sent.
pub data Turn (T S X W : Type 0) : Type 0 where
  over : Chat T S X W → Turn T S X W
  spoke : (said : String) (sent : List (Result (Response X))) (w : W) → Turn T S X W

module _ {T S : Type 0} where
  -- An empty turn leaves no message.
  abbrev pub add_turn : String → List (ChatMessage T S) → List (ChatMessage T S)
  add_turn said history = if said == "" then history else history ++ assistant_message said ∷ []

module _ {T S X W : Type 0} where
  abbrev pub stopped_at : List (ChatMessage T S) → List (Result (Response X)) → W → Chat T S X W
  stopped_at history sent w = record {
    ending = stopped;
    history = history;
    sent = sent ++ ok stop_response ∷ [];
    world = w;
  }

  abbrev pub failed_at :
      AgentError → List (ChatMessage T S) → List (Result (Response X)) → W → Chat T S X W
  failed_at e history sent w = record {
    ending = failed;
    history = history;
    sent = sent ++ err e ∷ [];
    world = w;
  }

  abbrev pub after_stream :
      List (ChatMessage T S) → W → Option String × List (Result (Response X)) → Turn T S X W
  after_stream history w (none, sent) =
      over (record { ending = failed; history = history; sent = sent; world = w })
  after_stream history w (some said, sent) = spoke said sent w

  unfoldable pub run_agent :
      Agent T S X W → List (ChatMessage T S) → W → List (Result (Response X)) → Turn T S X W
  unfolding read_turn
  run_agent agent history w sent =
      let (stream, w') = agent.run history w in
      elim stream [
        | err e ↦ over (failed_at e history sent w')
        | ok results ↦ after_stream history w' (read_turn agent.id results "" sent)
      ]

module _ {T S X W : Type 0} (participants : List (Agent T S X W))
    (select_next : List (ChatMessage T S) → W → Result ℕ × W)
    (should_terminate : List (ChatMessage T S) → Bool) where
  unfoldable pub take_turn : List (ChatMessage T S) → W → List (Result (Response X)) → Turn T S X W
  unfolding run_agent
  take_turn history w sent =
      let (choice, w') = select_next history w in
      elim choice [
        | err e ↦ over (failed_at e history sent w')
        | ok i ↦ elim (get_elem? participants i) [
          | none ↦ over (record { ending = panicked; history = history; sent = sent; world = w' })
          | some agent ↦ run_agent agent history w' sent
        ]
      ]

  -- `loop { .. }`; nothing bounds it, so `none` says that the fuel ran out.
  unfoldable pub chat_loop :
      ℕ → List (ChatMessage T S) → W → List (Result (Response X)) → Option (Chat T S X W)
  unfolding take_turn
  chat_loop zero history w sent = none
  chat_loop (suc fuel) history w sent = elim (should_terminate history) [
    | true ↦ some (stopped_at history sent w)
    | false ↦ elim (take_turn history w sent) [
      | over chat ↦ some chat
      | spoke said sent' w' ↦ chat_loop fuel (add_turn said history) w' sent'
    ]
  ]

  -- `GroupChatRunnerAgent::run`, with the workflow that takes over where nobody takes part.
  unfoldable pub run_chat :
      (List (ChatMessage T S) → W → Option (Chat T S X W))
      → ℕ
      → List (ChatMessage T S)
      → W
      → Option (Chat T S X W)
  unfolding chat_loop
  run_chat fallback fuel messages w = elim participants [
    | [] ↦ fallback messages w
    | agent ∷ agents ↦ elim (should_terminate messages) [
      | true ↦ some (stopped_at messages [] w)
      | false ↦ chat_loop fuel messages w []
    ]
  ]
