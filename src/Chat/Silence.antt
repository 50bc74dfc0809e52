-- ===== src/Chat/Silence.antt =====
-- A chat in which nobody says a word (group_chat.rs of crates/workflow/src/orchestrations).
use rust_agent_framework.Common.{
  ℕ, zero, suc, ◌≤◌, ◌<◌, Option, none, List, [], ◌++◌, length, All, Result, ◌≡◌, refl,
  lt→leb_false, arith,
}
use rust_agent_framework.Compression.{ChatMessage}
use rust_agent_framework.Trigger.{Cell}
use rust_agent_framework.Chat.{
  Agent, Response, said_count, max_rounds_reached, Chat, chat_loop, run_chat,
}
use rust_agent_framework.Chat.Rounds.{
  turn_text, tagged, IsAnswer, run_agent-spoke, take_turn-run_agent, in_turn, run_chat-chat_loop,
}

module _ {T S X W : Type 0} where
  -- The agent answers this history without an error and without a text, whatever the world.
  abbrev pub Silent : List (ChatMessage T S) → Agent T S X W → Type 0
  Silent history agent = (w : W) → (a : IsAnswer agent history w) × (turn_text a.responses "" ≡ "")

module _ {T S X W : Type 0} (counter : Cell W ℕ) (participants : List (Agent T S X W))
    (max_rounds : ℕ) where
  chat_loop-none :
      (fuel : ℕ) (history : List (ChatMessage T S)) (w : W) (sent : List (Result (Response X)))
      → 1 ≤ length participants
      → All (Silent history) participants
      → said_count history < max_rounds
      → chat_loop participants
          (in_turn counter participants)
          (max_rounds_reached max_rounds)
          fuel
          history
          w
          sent
        ≡ none
  unfolding chat_loop
  chat_loop-none zero history w sent some_one quiet early = refl
  chat_loop-none (suc fuel) history w sent some_one quiet early =
      let (agent, w', silent, ran) =
        take_turn-run_agent counter participants max_rounds (Silent history) history w sent some_one
          quiet in
      let (answer, nothing') = silent w' in
      rw
        (
          chat_loop,
          lt→leb_false (said_count history) max_rounds early,
          ran,
          run_agent-spoke agent history w' sent answer,
          nothing',
        )
        (chat_loop-none fuel history (agent.run history w').1
          (sent ++ tagged agent.id answer.responses) some_one quiet early)

  -- A round-robin chat in which someone takes part and that has not had its rounds never ends, if
  -- each participant answers what was said so far with no text, whenever it is asked: an empty
  -- turn is no round.
  pub run_chat-never_ends :
      (fallback : List (ChatMessage T S) → W → Option (Chat T S X W)) (fuel : ℕ)
      (history : List (ChatMessage T S)) (w : W)
      → 1 ≤ length participants
      → All (Silent history) participants
      → said_count history < max_rounds
      → run_chat participants
          (in_turn counter participants)
          (max_rounds_reached max_rounds)
          fallback
          (suc fuel)
          history
          w
        ≡ none
  run_chat-never_ends fallback fuel history w some_one quiet early =
      rw
        (run_chat-chat_loop participants (in_turn counter participants)
          (max_rounds_reached max_rounds) fallback (suc fuel) history w some_one (omega arith))
        (chat_loop-none (suc fuel) history w [] some_one quiet early)
