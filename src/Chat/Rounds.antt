-- ===== src/Chat/Rounds.antt =====
-- A round-robin chat with a number of rounds (group_chat.rs of crates/workflow/src/orchestrations).
use native.Mathlib.Nat.{mod-lt}
use rust_agent_framework.Common.{
  ℕ, zero, suc, ◌+◌, ◌-◌, ◌%◌, ◌≤◌, ◌<◌, String, Bool, true, false, Option, some, List, [], ◌∷◌,
  ◌++◌, ◌==◌, length, keep, keep-append, length-append, get_elem?, All, All-at, Elem, here, there,
  Result, ok, ◌≡◌, refl, sym, ap, ◌∙◌, le→leb, lt→leb_false, arith, Bool-cases, inl, inr,
  append-nil, append_assoc,
}
use rust_agent_framework.Compression.{ChatMessage, assistant_message}
use rust_agent_framework.Trigger.{Cell}
use rust_agent_framework.Chat.{
  Agent, Response, is_said, said_count, max_rounds_reached, round_robin, add_texts, read_turn,
  stopped, Chat, spoke, stopped_at, run_agent, take_turn, chat_loop, run_chat,
}

get_elem?-lt {ℓ} :
    {A : Type ℓ} (xs : List A) (i : ℕ)
    → i < length xs
    → (a : A) × (get_elem? xs i ≡ some a) × Elem a xs
get_elem?-lt [] i h = absurd (omega (arith, h))
get_elem?-lt (x ∷ xs) zero h = (x, refl, here refl)
get_elem?-lt (x ∷ xs) (suc i) h = let (a, e, m) = get_elem?-lt xs i (omega arith) in (a, e, there m)

module _ {X : Type 0} where
  -- All the text of the responses of a turn.
  abbrev pub turn_text : List (Response X) → String → String
  turn_text [] said = said
  turn_text (r ∷ rs) said = turn_text rs (add_texts r.contents said)

  abbrev pub tagged : String → List (Response X) → List (Result (Response X))
  tagged id [] = []
  tagged id (r ∷ rs) = ok (record r { id = some id }) ∷ tagged id rs

  abbrev pub all_ok : List (Response X) → List (Result (Response X))
  all_ok [] = []
  all_ok (r ∷ rs) = ok r ∷ all_ok rs

  pub read_turn-all_ok :
      (id : String) (rs : List (Response X)) (said : String) (sent : List (Result (Response X)))
      → read_turn id (all_ok rs) said sent ≡ (some (turn_text rs said), sent ++ tagged id rs)
  unfolding read_turn
  read_turn-all_ok id [] said sent = rw (append-nil sent) refl
  read_turn-all_ok id (r ∷ rs) said sent =
      rw
        (
          read_turn-all_ok id rs (add_texts r.contents said)
              (sent ++ ok (record r { id = some id }) ∷ []),
          append_assoc sent (ok (record r { id = some id }) ∷ []) (tagged id rs),
        )
        refl

module _ {T S : Type 0} where
  said_count-append :
      (history : List (ChatMessage T S)) (content : String)
      → said_count (history ++ assistant_message content ∷ []) ≡ said_count history + 1
  said_count-append history content =
      rw (keep-append is_said history (assistant_message content ∷ []))
        (length-append (keep is_said history) (assistant_message content ∷ []))

module _ {T S X W : Type 0} where
  -- An agent that streams no error.
  pub record IsAnswer (agent : Agent T S X W) (history : List (ChatMessage T S)) (w : W)
      : Type 0 where
    pub responses : List (Response X)
    pub streamed : (agent.run history w).0 ≡ ok (all_ok responses)

  -- Whatever was said, the agent answers with some text.
  abbrev pub Talks : Agent T S X W → Type 0
  Talks agent =
      (history : List (ChatMessage T S)) (w : W)
      → (a : IsAnswer agent history w) × ((turn_text a.responses "" == "") ≡ false)

  -- A chat that stops after `left` messages more.
  pub record IsStopped (history : List (ChatMessage T S)) (left : ℕ) (end : Option (Chat T S X W))
      : Type 0 where
    pub chat : Chat T S X W
    pub ends : end ≡ some chat
    pub is_stopped : chat.ending ≡ stopped
    pub said : List (ChatMessage T S)
    pub goes_on : chat.history ≡ history ++ said
    pub as_many : length said ≡ left
    pub are_said : All (λ m. is_said m ≡ true) said

  one_more :
      (history : List (ChatMessage T S)) (content : String) (left : ℕ) {end : Option (Chat T S X W)}
      → IsStopped (history ++ assistant_message content ∷ []) left end
      → IsStopped history (suc left) end
  one_more history content left s = record {
    chat = s.chat;
    ends = s.ends;
    is_stopped = s.is_stopped;
    said = assistant_message content ∷ s.said;
    goes_on = s.goes_on ∙ append_assoc history (assistant_message content ∷ []) s.said;
    as_many = ap suc s.as_many;
    are_said = (refl, s.are_said);
  }

  pub run_agent-spoke :
      (agent : Agent T S X W) (history : List (ChatMessage T S)) (w : W)
      (sent : List (Result (Response X))) (a : IsAnswer agent history w)
      → run_agent agent history w sent
        ≡ spoke
            (turn_text a.responses "")
            (sent ++ tagged agent.id a.responses)
            (agent.run history w).1
  unfolding run_agent
  run_agent-spoke agent history w sent a =
      rw (run_agent, a.streamed, read_turn-all_ok agent.id a.responses "" sent) refl

-- With a participant, the first test of the task is that of its loop.
pub run_chat-chat_loop :
    {T S X W : Type 0} (participants : List (Agent T S X W))
    (select_next : List (ChatMessage T S) → W → Result ℕ × W)
    (should_terminate : List (ChatMessage T S) → Bool)
    (fallback : List (ChatMessage T S) → W → Option (Chat T S X W)) (fuel : ℕ)
    (history : List (ChatMessage T S)) (w : W)
    → 1 ≤ length participants
    → 1 ≤ fuel
    → run_chat participants select_next should_terminate fallback fuel history w
      ≡ chat_loop participants select_next should_terminate fuel history w []
unfolding run_chat
run_chat-chat_loop [] select_next should_terminate fallback fuel history w some_one enough =
    absurd (omega (arith, some_one))
run_chat-chat_loop (a ∷ as') select_next should_terminate fallback zero history w some_one enough =
    absurd (omega (arith, enough))
run_chat-chat_loop (a ∷ as') select_next should_terminate fallback (suc fuel) history w some_one
      enough =
    elim (Bool-cases (should_terminate history)) [
      | inl h ↦ rw (run_chat, chat_loop, h) refl
      | inr h ↦ rw (run_chat, h) refl
    ]

round_robin-lt :
    {W : Type 0} (counter : Cell W ℕ) (count : ℕ) (w : W)
    → 1 ≤ count
    → (i : ℕ) × (i < count) × ((round_robin counter count w).0 ≡ ok i)
unfolding round_robin
round_robin-lt counter zero w h = absurd (omega (arith, h))
round_robin-lt counter (suc n) w h =
    (counter.read w % suc n, mod-lt (counter.read w) (omega arith), refl)

-- The participants speak in turn.
abbrev pub in_turn :
    {T S X W : Type 0} → Cell W ℕ → List (Agent T S X W) → List (ChatMessage T S) → W → Result ℕ × W
in_turn counter participants history w = round_robin counter (length participants) w

module _ {T S X W : Type 0} (counter : Cell W ℕ) (participants : List (Agent T S X W))
    (max_rounds : ℕ) where
  -- Some participant is chosen, and runs.
  pub take_turn-run_agent :
      (P : Agent T S X W → Type 0) (history : List (ChatMessage T S)) (w : W)
      (sent : List (Result (Response X)))
      → 1 ≤ length participants
      → All P participants
      → (agent : Agent T S X W) × (w' : W) × P agent
        × (take_turn participants
              (in_turn counter participants)
              (max_rounds_reached max_rounds)
              history
              w
              sent
            ≡ run_agent agent history w' sent)
  unfolding take_turn
  take_turn-run_agent P history w sent some_one each =
      let (i, small, chosen) = round_robin-lt counter (length participants) w some_one in
      let (agent, found, member) = get_elem?-lt participants i small in
      (
        agent,
        (round_robin counter (length participants) w).1,
        All-at P participants each member,
        rw (take_turn, chosen, found) refl,
      )

  chat_loop-IsStopped :
      (left fuel : ℕ) (history : List (ChatMessage T S)) (w : W) (sent : List (Result (Response X)))
      → 1 ≤ length participants
      → All Talks participants
      → left ≡ max_rounds - said_count history
      → left < fuel
      → IsStopped history left (
          chat_loop participants
            (in_turn counter participants)
            (max_rounds_reached max_rounds)
            fuel
            history
            w
            sent)
  unfolding chat_loop
  chat_loop-IsStopped left zero history w sent some_one talk e enough =
      absurd (omega (arith, enough))
  chat_loop-IsStopped zero (suc fuel) history w sent some_one talk e enough =
      rw (chat_loop, le→leb max_rounds (said_count history) (omega arith))
        record {
          chat = stopped_at history sent w;
          ends = refl;
          is_stopped = refl;
          said = [];
          goes_on = sym (append-nil history);
          as_many = refl;
          are_said = tt;
        }
  chat_loop-IsStopped (suc left) (suc fuel) history w sent some_one talk e enough =
      let (agent, w', talks, ran) = take_turn-run_agent Talks history w sent some_one talk in
      let (answer, loud) = talks history w' in
      let said = turn_text answer.responses "" in
      let sent' = sent ++ tagged agent.id answer.responses in
      let after = history ++ assistant_message said ∷ [] in
      rw
        (
          chat_loop,
          lt→leb_false (said_count history) max_rounds (omega arith),
          ran,
          run_agent-spoke agent history w' sent answer,
          loud,
        )
        (one_more history said left (
          chat_loop-IsStopped left fuel after (agent.run history w').1 sent' some_one talk
            (omega (arith, said_count-append history said)) (omega arith)))

  -- A round-robin chat with a number of rounds stops, if someone takes part and each participant
  -- always answers with some text (with fuel for one round more than are left): it then has just
  -- that many messages of the assistant's, those that it started with included, and where it
  -- started with as many or more it is left as it was.
  pub run_chat-IsStopped :
      (fallback : List (ChatMessage T S) → W → Option (Chat T S X W)) (fuel : ℕ)
      (history : List (ChatMessage T S)) (w : W)
      → 1 ≤ length participants
      → All Talks participants
      → max_rounds - said_count history < fuel
      → IsStopped history (max_rounds - said_count history) (
          run_chat participants
            (in_turn counter participants)
            (max_rounds_reached max_rounds)
            fallback
            fuel
            history
            w)
  run_chat-IsStopped fallback fuel history w some_one talk enough =
      rw
        (run_chat-chat_loop participants (in_turn counter participants)
          (max_rounds_reached max_rounds) fallback fuel history w some_one (omega arith))
        (chat_loop-IsStopped (max_rounds - said_count history) fuel history w [] some_one talk refl
          enough)
