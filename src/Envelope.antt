-- ===== src/Envelope.antt =====
-- crates/workflow/src/engine/message_envelope.rs: the messages that travel over the graph.
-- The payload `Arc<dyn Any>` is the type `C`, and `serde_json::Value` the type `V`. A fresh uuid
-- and the present time are arguments.
use rust_agent_framework.Common.{ℕ, String, Option, none, some, Map, insert, []}

-- crates/workflow/src/executor/base.rs
pub record TypeTag : Type 0 where
  pub type_name : String
  pub type_version : Option ℕ

unfoldable pub type_tag : String → TypeTag
type_tag name = record { type_name = name; type_version = none }

pub record Envelope (C V : Type 0) : Type 0 where
  pub message_id : String
  pub source_node_id : String
  pub target_node_id : Option String
  pub content : C
  pub tag : TypeTag
  pub metadata : Map V
  pub created_at : ℕ

module _ {C V : Type 0} where
  unfoldable pub new_envelope : String → ℕ → String → C → TypeTag → Envelope C V
  new_envelope uuid now source content tag = record {
    message_id = uuid;
    source_node_id = source;
    target_node_id = none;
    content = content;
    tag = tag;
    metadata = [];
    created_at = now;
  }

  unfoldable pub with_target : Envelope C V → String → Envelope C V
  with_target env target = record env { target_node_id = some target }

  unfoldable pub with_metadata : Envelope C V → String → V → Envelope C V
  unfolding insert
  with_metadata env key value = record env { metadata = insert key value env.metadata }
