-- ===== src/Codec.antt =====
-- crates/workflow/src/checkpoint/message_envelope.rs: envelopes to JSON for a checkpoint, and back.
-- serde_json, and the serde code that it derives for `ChatMessage`, are the parameter `Serde`.
pub mod RoundTrip
pub mod Samples
use Prim.Native.String.{◌++◌ as text_append}
use rust_agent_framework.Common.{
  String, Option, none, some, List, [], ◌∷◌, map, ◌≡◌, if◌then◌else◌, ◌==◌, or_default, ◌>>=◌,
  AgentError, serialize, Result, ok, err,
}
use rust_agent_framework.Envelope.{TypeTag, Envelope}

pub record Serde : Type 1 where
  pub Value : Type 0
  pub ChatMessage : Type 0
  pub Other : Type 0  -- every other type that a payload may have
  pub null : Value
  pub string : String → Value
  pub as_string : Value → Option String
  pub print : Value → String  -- `Value::to_string`
  pub chat_to_value : ChatMessage → Option Value
  pub chats_to_value : List ChatMessage → Option Value
  pub chat_from_value : Value → Option ChatMessage
  pub chats_from_value : Value → Option (List ChatMessage)
  pub as_string-string : (s : String) → as_string (string s) ≡ some s

-- What an `Arc<dyn Any>` may hold: the three types that the code asks for, a JSON value, or another.
pub data Payload (M V O : Type 0) : Type 0 where
  chat : M → Payload M V O
  chats : List M → Payload M V O
  text : String → Payload M V O
  json : V → Payload M V O
  other : O → Payload M V O

-- `format!("{:?}", type_name)`; a type's name holds nothing to escape.
abbrev pub debug_text : String → String
debug_text s = text_append (text_append "\"" s) "\""

abbrev pub tag_chat : String
tag_chat = "ChatMessage"

abbrev pub tag_chats : String
tag_chats = "Vec<ChatMessage>"

abbrev pub tag_text : String
tag_text = "String"

abbrev pub from_option {ℓ} : {A : Type ℓ} → AgentError → Option A → Result A
from_option e none = err e
from_option e (some a) = ok a

module _ (serde : Serde) where
  open serde use {
    Value, ChatMessage, Other, null, string, as_string, print, chat_to_value, chats_to_value,
    chat_from_value, chats_from_value,
  }

  abbrev pub Content : Type 0
  Content = Payload ChatMessage Value Other

  -- A `downcast_ref` that fails leaves the `match` and reaches the last line.
  abbrev pub chat_or : Content → Value → Value
  chat_or (chat m) v = or_default null (chat_to_value m)
  chat_or _ v = v

  abbrev pub chats_or : Content → Value → Value
  chats_or (chats ms) v = or_default null (chats_to_value ms)
  chats_or _ v = v

  abbrev pub text_or : Content → Value → Value
  text_or (text s) v = string s
  text_or _ v = v

  unfoldable pub serialize_content : TypeTag → Content → Value
  serialize_content tag content =
      let last = string (debug_text tag.type_name) in
      if tag.type_name == tag_chat
      then chat_or content last
      else if tag.type_name == tag_chats
      then chats_or content last
      else if tag.type_name == tag_text
      then text_or content last
      else last

  unfoldable pub deserialize_content : TypeTag → Value → Result Content
  deserialize_content tag v =
      if tag.type_name == tag_chat
      then (from_option (serialize "ChatMessage") (chat_from_value v) >>= λ m. ok (chat m))
      else if tag.type_name == tag_chats
      then (from_option (serialize "Vec<ChatMessage>") (chats_from_value v) >>= λ ms. ok (chats ms))
      else if tag.type_name == tag_text
      then ok (text (or_default (print v) (as_string v)))
      else ok (json v)

  unfoldable pub to_serializable : Envelope Content Value → Envelope Value Value
  unfolding serialize_content
  to_serializable env = record {
    message_id = env.message_id;
    source_node_id = env.source_node_id;
    target_node_id = env.target_node_id;
    content = serialize_content env.tag env.content;
    tag = env.tag;
    metadata = env.metadata;
    created_at = env.created_at;
  }

  unfoldable pub into_message_envelope : Envelope Value Value → Result (Envelope Content Value)
  unfolding deserialize_content
  into_message_envelope s = do
    content ← deserialize_content s.tag s.content
    ok (record {
      message_id = s.message_id;
      source_node_id = s.source_node_id;
      target_node_id = s.target_node_id;
      content = content;
      tag = s.tag;
      metadata = s.metadata;
      created_at = s.created_at;
    })

  unfoldable pub serialize_envelopes : List (Envelope Content Value) → List (Envelope Value Value)
  unfolding to_serializable
  serialize_envelopes envs = map to_serializable envs

  unfoldable pub deserialize_envelopes :
      List (Envelope Value Value) → Result (List (Envelope Content Value))
  unfolding into_message_envelope
  deserialize_envelopes [] = ok []
  deserialize_envelopes (s ∷ ss) = do
    env ← into_message_envelope s
    envs ← deserialize_envelopes ss
    ok (env ∷ envs)
