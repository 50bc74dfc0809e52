-- ===== src/Chat/Samples.antt =====
-- Two participants, one that answers and one that says nothing.
use rust_agent_framework.Common.{
  ℕ, String, none, some, List, [], ◌∷◌, ◌++◌, ok, ◌≡◌, refl, arith, Option,
}
use rust_agent_framework.Compression.{user, ChatMessage, assistant_message}
use rust_agent_framework.Trigger.{Cell}
use rust_agent_framework.Chat.{
  Agent, Response, text, add_texts, stop_response, round_robin, max_rounds_reached, Chat, stopped,
  run_chat,
}
use rust_agent_framework.Chat.Rounds.{in_turn, IsStopped, Talks, run_chat-IsStopped}
use rust_agent_framework.Chat.Silence.{Silent, run_chat-never_ends}

abbrev count_cell : Cell ℕ ℕ
count_cell = record { read = λ w. w; write = λ a w. a; read-write = λ a w. refl }

abbrev answer_of : String → Response String
answer_of said = record {
  id = none;
  model = none;
  finish_reason = none;
  contents = text said ∷ [];
  events = [];
}

abbrev speaker : String → String → Agent String String String ℕ
speaker id said = record { id = id; run = λ history w. (ok (ok (answer_of said) ∷ []), w) }

abbrev pair : List (Agent String String String ℕ)
pair = speaker "a" "yes" ∷ speaker "b" "no" ∷ []

abbrev question : List (ChatMessage String String)
question =
    record {
      role = user;
      content = "well?";
      name = none;
      tool_calls = none;
      tool_call_id = none;
      source = none;
    }
    ∷ []

abbrev no_fallback : List (ChatMessage String String) → ℕ → Option (Chat String String String ℕ)
no_fallback history w = none

ends_in_turn :
    run_chat pair (in_turn count_cell pair) (max_rounds_reached 3) no_fallback 9 question 0
    ≡ some (record {
      ending = stopped;
      history =
          question
          ++ (assistant_message "yes" ∷ assistant_message "no" ∷ assistant_message "yes" ∷ []);
      sent =
          ok (record (answer_of "yes") { id = some "a" })
          ∷ ok (record (answer_of "no") { id = some "b" })
          ∷ ok (record (answer_of "yes") { id = some "a" })
          ∷ ok stop_response
          ∷ [];
      world = 3;
    })
unfolding run_chat round_robin
ends_in_turn = refl

says_yes : Talks (speaker "a" "yes")
unfolding add_texts
says_yes history w = (record { responses = answer_of "yes" ∷ []; streamed = refl }, refl)

says_no : Talks (speaker "b" "no")
unfolding add_texts
says_no history w = (record { responses = answer_of "no" ∷ []; streamed = refl }, refl)

run_chat-IsStopped_example :
    IsStopped question 3
      (run_chat pair (in_turn count_cell pair) (max_rounds_reached 3) no_fallback 9 question 0)
run_chat-IsStopped_example =
    run_chat-IsStopped count_cell pair 3 no_fallback 9 question 0 (omega arith)
      (says_yes, (says_no, tt)) (omega arith)

abbrev mute : List (Agent String String String ℕ)
mute = speaker "a" "" ∷ []

silent : Silent question (speaker "a" "")
unfolding add_texts
silent w = (record { responses = answer_of "" ∷ []; streamed = refl }, refl)

run_chat-never_ends_example :
    run_chat mute (in_turn count_cell mute) (max_rounds_reached 3) no_fallback 100 question 0 ≡ none
run_chat-never_ends_example =
    run_chat-never_ends count_cell mute 3 no_fallback 99 question 0 (omega arith) (silent, tt)
      (omega arith)
