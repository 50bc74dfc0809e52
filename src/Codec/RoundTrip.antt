-- ===== src/Codec/RoundTrip.antt =====
-- What an envelope keeps on its way through a checkpoint
-- (crates/workflow/src/checkpoint/message_envelope.rs).
use rust_agent_framework.Common.{some, ◌≡◌, ◌≢◌, arith, eq_iff, ok}
use rust_agent_framework.Envelope.{Envelope, TypeTag}
use rust_agent_framework.Codec.{
  Serde, chat, chats, text, json, other, Content, tag_chat, tag_chats, tag_text, debug_text,
  serialize_content, deserialize_content, to_serializable, into_message_envelope,
}

module _ (serde : Serde) where
  open serde use {
    Value, ChatMessage, string, chat_to_value, chats_to_value, chat_from_value, chats_from_value,
    as_string-string,
  }

  -- The tag names the type of the payload, and serde gives that payload back.
  abbrev pub IsTagged : TypeTag → Content serde → Type 0
  IsTagged tag (chat m) =
      (tag.type_name ≡ tag_chat)
      × ((v : Value) × (chat_to_value m ≡ some v) × (chat_from_value v ≡ some m))
  IsTagged tag (chats ms) =
      (tag.type_name ≡ tag_chats)
      × ((v : Value) × (chats_to_value ms ≡ some v) × (chats_from_value v ≡ some ms))
  IsTagged tag (text s) = tag.type_name ≡ tag_text
  IsTagged tag _ = ⊥

  deserialize-serialize :
      (tag : TypeTag) (content : Content serde)
      → IsTagged tag content
      → deserialize_content serde tag (serialize_content serde tag content) ≡ ok content
  unfolding serialize_content deserialize_content
  deserialize-serialize tag (chat m) (e, (v, to, from)) = rw (e, to, from)
  deserialize-serialize tag (chats ms) (e, (v, to, from)) = rw (e, to, from)
  deserialize-serialize tag (text s) e = rw (e, as_string-string)
  deserialize-serialize tag (json v) t = elim t [ ]
  deserialize-serialize tag (other o) t = elim t [ ]

  -- An envelope whose tag names the type of its payload comes back from a checkpoint as it was.
  pub into_message_envelope-to_serializable :
      (env : Envelope (Content serde) Value)
      → IsTagged env.tag env.content
      → into_message_envelope serde (to_serializable serde env) ≡ ok env
  unfolding into_message_envelope to_serializable
  into_message_envelope-to_serializable env t = rw (deserialize-serialize env.tag env.content t)

  abbrev pub Untagged : TypeTag → Type 0
  Untagged tag =
      (tag.type_name ≢ tag_chat) × (tag.type_name ≢ tag_chats) × (tag.type_name ≢ tag_text)

  -- Under any other tag the payload is lost: what comes back is the quoted name of the type as a
  -- JSON text, whatever the payload was.
  pub to_serializable_loses :
      (env : Envelope (Content serde) Value)
      → Untagged env.tag
      → into_message_envelope serde (to_serializable serde env)
        ≡ ok (record env { content = json (string (debug_text env.tag.type_name)) })
  unfolding into_message_envelope to_serializable
  to_serializable_loses env (a, b, c) = ground (
    arith,
    eq_iff env.tag.type_name tag_chat,
    eq_iff env.tag.type_name tag_chats,
    eq_iff env.tag.type_name tag_text,
  )
