-- ===== src/Engine/Context.antt =====
-- `EngineWorkContext` of crates/workflow/src/engine/engine.rs: what a handler can do. Each method
-- returns the changed context. Events only report what happened, and are not kept.
use rust_agent_framework.Common.{
  ℕ, ◌+◌, String, true, Option, List, [], ◌∷◌, ◌++◌, Map, get, insert, remove,
}
use rust_agent_framework.Envelope.{Envelope}
use rust_agent_framework.Engine.{Work}

abbrev pub names {ℓ} : {V : Type ℓ} → Map V → List String
names [] = []
names ((key, value) ∷ m) = key ∷ names m

module _ {C V W : Type 0} where
  -- The whole envelope is given, and its payload is kept.
  unfoldable pub send_message : Envelope C V → Work C V W → Work C V W
  send_message env w = record w { queued_messages = w.queued_messages ++ env.content ∷ [] }

  unfoldable pub yield_output : C → Work C V W → Work C V W
  yield_output out w = record w {
    shared = record w.shared { outputs = w.shared.outputs ++ (out, w.node_id) ∷ [] };
  }

  unfoldable pub request_halt : Work C V W → Work C V W
  request_halt w = record w { shared = record w.shared { halt_flag = true } }

  unfoldable pub read_state : String → Work C V W → Option V
  unfolding get
  read_state key w = get w.shared.state_map key

  unfoldable pub write_state : String → V → Work C V W → Work C V W
  unfolding insert
  write_state key value w = record w {
    shared = record w.shared { state_map = insert key value w.shared.state_map };
  }

  unfoldable pub clear_state : String → Work C V W → Work C V W
  unfolding remove
  clear_state key w = record w {
    shared = record w.shared { state_map = remove key w.shared.state_map };
  }

  unfoldable pub schedule_timer : String → (now delay : ℕ) → Work C V W → Work C V W
  schedule_timer name now delay w = record w {
    shared = record w.shared {
      timers =
          w.shared.timers
          ++ record { node_id = w.node_id; timer_name = name; fires_at = now + delay } ∷ [];
    };
  }

  unfoldable pub variable_names : Work C V W → List String
  variable_names w = names w.shared.state_map
